-- ===== src/Routes/Vms/Listing.antt =====
-- list_vms and get_vm of app/api/routes/vms.py. The order of the names is the database's, and a parameter.
pub mod Filtered
use open_v_center_backend.Prelude.{
  ℕ, String, ◌≡◌, Bool, true, false, not, ◌&&◌, Option, none, some, List, [], ◌∷◌, ◌==◌, has_id,
  str_eq, any, map, rows_where, if◌then◌else◌,
}
use open_v_center_backend.Models.{Db, get_host}
use open_v_center_backend.Models.VmRows.{Vm}
use open_v_center_backend.Models.Topology.{Host}
use open_v_center_backend.Valkey.{Valkey}
use open_v_center_backend.Errors.{not_found}
use open_v_center_backend.World.{World, Env, Action, pure, gets, ◌>>=◌, ◌>>◌}
use open_v_center_backend.Rbac.{VisibleScope, vm_visible}
use open_v_center_backend.Cache.{get_vm_state, get_vm_lock}
use open_v_center_backend.Cache.Bulk.{get_vm_states, get_vm_locks, lookup_id}
use open_v_center_backend.Hosts.Status.{agent_connected}
use open_v_center_backend.Serializers.Vms.{VmOut, vm_out}
use open_v_center_backend.Routes.Vms.{get_visible_vm}

-- A filter that is not given keeps everything.
abbrev pub given_id : Option ℕ → Option ℕ → Bool
given_id none v = true
given_id (some i) v = has_id v i

abbrev pub given_text : Option String → String → Bool
given_text none s = true
given_text (some t) s = str_eq s t

-- The rows of the query: all three filters are on columns.
unfoldable pub selected : Option ℕ → Option ℕ → Option String → Vm → Bool
selected host_id folder_id state v =
    given_id host_id (some v.host_id) && given_id folder_id v.folder_id && given_text state v.state

-- _offline_host_ids, as a test
unfoldable pub is_offline : Env → ℕ → Host → Bool
is_offline env host_id h = h.id == host_id && not (agent_connected env.settings env.now h)

-- _host_offline: false where the row is missing.
unfoldable pub host_offline : Env → Db → ℕ → Bool
unfolding is_offline
host_offline env db host_id = any (is_offline env host_id) db.hosts

module _ ⦃kv : Valkey⦄ (order : List Vm → List Vm) where
  open kv use {Store}

  -- The VMs with their states, read in bulk.
  unfoldable pub shown_vms : Env → World Store → List ℕ → List Vm → List VmOut
  unfolding vm_out get_vm_states get_vm_locks lookup_id host_offline
  shown_vms env w ids vms =
      map
        (λ v.
          vm_out w.db v (lookup_id v.id (get_vm_states env.now ids w.cache))
            (lookup_id v.id (get_vm_locks env.now ids w.cache)) (host_offline env w.db v.host_id))
        vms

  -- list_vms: what is shown is filtered by its state once more.
  unfoldable pub list_vms :
      Env → VisibleScope → Option ℕ → Option ℕ → Option String → World Store → List VmOut
  unfolding shown_vms selected
  list_vms env scope host_id folder_id state w =
      let vms =
        rows_where (λ v. vm_visible scope v)
          (order (rows_where (selected host_id folder_id state) w.db.vms)) in
      rows_where (λ o. given_text state o.state) (shown_vms env w (map (λ v. v.id) vms) vms)

module _ ⦃kv : Valkey⦄ where
  open kv use {Store}

  -- get_vm, and the body that move_vm and put_vm_tags return
  unfoldable pub shown_vm : Env → Vm → World Store → VmOut
  unfolding vm_out host_offline
  shown_vm env vm w =
      vm_out w.db vm (get_vm_state env.now vm.id w.cache) (get_vm_lock env.now vm.id w.cache)
        (host_offline env w.db vm.host_id)

  unfoldable pub get_vm : Env → VisibleScope → ℕ → Action Store VmOut
  unfolding get_visible_vm shown_vm
  get_vm env scope vm_id = do vm ← get_visible_vm scope vm_id; gets (shown_vm env vm)
