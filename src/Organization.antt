-- ===== src/Organization.antt =====
-- app/services/organization.py: clusters, the membership of hosts, folders, and VMs in folders.
-- Each service returns its result and the database, or the error that rolls the session back. A
-- loaded row is passed as a value; `name.strip()` is the caller's `name` already stripped.
pub mod Placement
use open_v_center_backend.Prelude.{
  ℕ, suc, String, Bool, true, false, not, ◌&&◌, Option, none, some, List, [], ◌∷◌, ◌++◌, ◌==◌,
  has_id, same_id, is_some, any, count, update_where, delete_where, str_eq, if◌then◌else◌,
}
use open_v_center_backend.Models.{Db, get_cluster, get_host, get_folder, put_vm, put_host}
use open_v_center_backend.Models.VmRows.{Vm}
use open_v_center_backend.Models.Topology.{Cluster, Host, Folder}
use open_v_center_backend.Models.Cascade.{delete_cluster_row, delete_folders, delete_host_row}
use open_v_center_backend.Errors.{
  Result, ok, err, Error, api, api_error, not_found, invalid, assertion, raise_if, or_raise, ◌>>=◌,
  ◌>>◌,
}

unfoldable pub create_cluster : ℕ → String → String → Db → Result (Cluster × Db)
create_cluster id name hypervisor db =
    let c : Cluster = record { id = id; name = name; hypervisor = hypervisor } in
    ok (c, record db { clusters = db.clusters ++ c ∷ [] })

unfoldable pub rename_cluster : Cluster → String → Db → Result Db
rename_cluster c name db = ok (record db {
  clusters = update_where (λ r. r.id == c.id) (λ r. record r { name = name }) db.clusters;
})

-- A cluster with member hosts stays.
unfoldable pub delete_cluster : Cluster → Db → Result Db
unfolding delete_cluster_row
delete_cluster c db =
    raise_if (any (λ h. has_id h.cluster_id c.id) db.hosts) (api_error invalid 400)
    >> ok (delete_cluster_row c.id db)

-- The cluster of an id, if an id is given; a missing row is an error.
abbrev pub require_cluster : Option ℕ → Db → Result (Option Cluster)
require_cluster none db = ok none
require_cluster (some i) db = do c ← or_raise (get_cluster db i) (api not_found); ok (some c)

abbrev pub other_hypervisor : Option Cluster → String → Bool
other_hypervisor none h = false
other_hypervisor (some c) h = not (str_eq c.hypervisor h)

abbrev pub reassign : Option ℕ → Vm → Vm
reassign cluster_id v = record v { cluster_id = cluster_id; folder_id = none }

abbrev pub set_cluster : Option ℕ → Host → Host
set_cluster cluster_id h = record h { cluster_id = cluster_id }

-- The move itself: the host, its VMs, and the host's own folders.
unfoldable pub apply_move : Host → Option ℕ → Db → Db
unfolding delete_folders
apply_move h cluster_id db =
    let db' = put_host h.id (set_cluster cluster_id) db in
    delete_folders (λ f. has_id f.host_id h.id)
      (record db' { vms = update_where (λ v. v.host_id == h.id) (reassign cluster_id) db'.vms })

unfoldable pub move_host : Host → Option ℕ → Db → Result Db
move_host h cluster_id db = do
  target ← require_cluster cluster_id db
  raise_if (other_hypervisor target h.hypervisor) (api_error invalid 400)
  ok (if same_id h.cluster_id cluster_id then db else apply_move h cluster_id db)

-- Then the queues and the agent's user are torn down on the broker, which Routes/Hosts adds.
unfoldable pub delete_host : Host → Db → Result Db
unfolding delete_host_row
delete_host h db = ok (delete_host_row h.id db)

-- `bool(cluster_id) == bool(host_id)`
abbrev pub not_exactly_one : Option ℕ → Option ℕ → Bool
not_exactly_one none none = true
not_exactly_one (some a) (some b) = true
not_exactly_one none (some b) = false
not_exactly_one (some a) none = false

-- The scope that a folder or a VLAN is created in: a cluster, or a standalone host.
unfoldable pub require_scope : Option ℕ → Option ℕ → Db → Result (Unit {0})
require_scope (some c) host_id db = or_raise (get_cluster db c) (api not_found) >>= λ r. ok tt
require_scope none none db = err (api not_found)
require_scope none (some i) db = do
  h ← or_raise (get_host db i) (api not_found)
  raise_if (is_some h.cluster_id) (api_error invalid 400)

unfoldable pub create_folder : ℕ → String → Option ℕ → Option ℕ → Db → Result (Folder × Db)
create_folder id name cluster_id host_id db =
    let f : Folder = record { id = id; cluster_id = cluster_id; host_id = host_id; name = name } in
    do
      raise_if (not_exactly_one cluster_id host_id) (api_error invalid 400)
      require_scope cluster_id host_id db
      ok (f, record db { folders = db.folders ++ f ∷ [] })

unfoldable pub rename_folder : Folder → String → Db → Result Db
rename_folder f name db = ok (record db {
  folders = update_where (λ r. r.id == f.id) (λ r. record r { name = name }) db.folders;
})

abbrev pub leave_folder : Vm → Vm
leave_folder v = record v { folder_id = none }

-- Returns how many VMs were detached.
unfoldable pub delete_folder : Folder → Db → Result (ℕ × Db)
delete_folder f db = ok (
  count (λ v. has_id v.folder_id f.id) db.vms,
  record db {
    vms = update_where (λ v. has_id v.folder_id f.id) leave_folder db.vms;
    folders = delete_where (λ r. r.id == f.id) db.folders;
  },
)

-- Whether a folder's scope has the host: its cluster, or the standalone host itself.
abbrev pub folder_fits : Folder → Host → Bool
folder_fits f h = elim f.cluster_id [
  | some c ↦ has_id h.cluster_id c
  | none ↦ not (is_some h.cluster_id) && has_id f.host_id h.id
]

abbrev pub enter_folder : ℕ → Vm → Vm
enter_folder i v = record v { folder_id = some i }

unfoldable pub move_vm_to_folder : Vm → Option ℕ → Db → Result Db
move_vm_to_folder v none db = ok (put_vm v.id leave_folder db)
move_vm_to_folder v (some i) db = do
  f ← or_raise (get_folder db i) (api not_found)
  h ← or_raise (get_host db v.host_id) assertion
  raise_if (not (folder_fits f h)) (api_error invalid 400)
  ok (put_vm v.id (enter_folder f.id) db)
