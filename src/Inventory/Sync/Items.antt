-- ===== src/Inventory/Sync/Items.antt =====
-- The loop of apply_vm_inventory over the items of a snapshot.
use open_v_center_backend.Prelude.{
  ℕ, suc, String, Bool, true, false, ◌&&◌, Option, none, some, List, [], ◌∷◌, ◌++◌, ◌==◌, map,
  has_id, find, rows_where, update_where, delete_where, str_in, str_eq, if◌then◌else◌,
}
use open_v_center_backend.Json.{Dict}
use open_v_center_backend.Models.{Db}
use open_v_center_backend.Models.VmRows.{Vm}
use open_v_center_backend.Models.Topology.{Host}
use open_v_center_backend.Valkey.{Valkey}
use open_v_center_backend.World.{Env}
use open_v_center_backend.Cache.{set_vm_state}
use open_v_center_backend.Rbac.{is_member}
use open_v_center_backend.Inventory.Values.{Python, pop_thumbnail}
use open_v_center_backend.Inventory.Normalize.{normalize_vm}
use open_v_center_backend.Inventory.Row.{write_vm_row}

-- What the loop carries: the rows, the cache, `seen`, and the images by VM id.
pub record Sync (S : Type 0) : Type 0 where
  pub rows : List Vm
  pub cache : S
  pub seen : List String
  pub images : List (ℕ × List ℕ)

-- _inventory_scope_host_ids
unfoldable pub scope_ids : Host → Db → List ℕ
scope_ids host db = elim host.cluster_id [
  | none ↦ host.id ∷ []
  | some c ↦ map (λ h. h.id) (rows_where (λ h. has_id h.cluster_id c) db.hosts)
]

abbrev pub has_guid : String → Vm → Bool
has_guid u v = elim v.vm_uuid [ none ↦ false | some x ↦ str_eq x u ]

-- A row that the agent never reported.
abbrev pub has_no_guid : Vm → Bool
has_no_guid v = elim v.vm_uuid [ none ↦ true | some x ↦ false ]

-- The known row of a GUID, in the scope of the host.
abbrev pub is_known : List ℕ → String → Vm → Bool
is_known scope u v = is_member v.host_id scope && has_guid u v

-- Each item with the id that a new row would draw for it.
unfoldable pub numbered : (ℕ → ℕ) → ℕ → List Dict → List (ℕ × Dict)
numbered new_id i [] = []
numbered new_id i (d ∷ ds) = (new_id i, d) ∷ numbered new_id (suc i) ds

-- `Vm(id=new_id(), host_id=host_id, vm_uuid=vm_uuid)`, before its first write.
unfoldable pub blank : ℕ → ℕ → String → Vm
blank id host_id u = record {
  id = id;
  vm_uuid = some u;
  host_id = host_id;
  cluster_id = none;
  folder_id = none;
  name = "";
  state = "Unknown";
  firmware = "UEFI";
  guest_os = none;
  uptime_sec = none;
  vcpu = 1;
  memory_bytes = 0;
  memory_min_bytes = none;
  memory_max_bytes = none;
  memory_dynamic = false;
  cpu_usage_percent = none;
  memory_demand_bytes = none;
  secure_boot = none;
  secure_boot_template = none;
  nested_virtualization = false;
  auto_start_action = none;
  auto_start_delay_sec = none;
  auto_stop_action = none;
  config_path = none;
  dvd_path = none;
  highly_available = false;
  metrics_enabled = false;
  notes = none;
  vm_created_at = none;
  last_inventory_at = none;
  disks = [];
  nics = [];
  snapshots = [];
}

-- `thumbnails[i] = image`
abbrev with_image : ℕ → Option (List ℕ) → List (ℕ × List ℕ) → List (ℕ × List ℕ)
with_image i none images = images
with_image i (some image) images =
    delete_where (λ (p : ℕ × List ℕ). p.0 == i) images ++ (i, image) ∷ []

module _ ⦃kv : Valkey⦄ (py : Python) (env : Env) (host : Host) (scope : List ℕ)
    (tombstoned : List String) where
  open kv use {Store}

  -- A whole write of an item.
  abbrev pub whole : Dict → Vm → Vm
  whole raw v = write_vm_row py env.now host.id host.cluster_id false raw (normalize_vm py raw) v

  -- The row of an item is written: `rows` has it already, or with the new row appended.
  unfoldable pub record_item :
      String → Dict → Option (List ℕ) → Vm → List Vm → Sync Store → Sync Store
  record_item u raw image v rows st = record {
    rows = rows;
    cache = set_vm_state env.settings env.now v.id (whole raw v).state st.cache;
    seen = u ∷ st.seen;
    images = with_image v.id image st.images;
  }

  unfoldable pub take_guid : ℕ → String → Dict → Option (List ℕ) → Sync Store → Sync Store
  unfolding record_item
  take_guid new u raw image st = elim (find (is_known scope u) st.rows) [
    | some v ↦ record_item u raw image v (update_where (λ r. r.id == v.id) (whole raw) st.rows) st
    | none ↦
        if str_in u tombstoned
        then st
        else (let v = blank new host.id u in
            record_item u raw image v (st.rows ++ whole raw v ∷ []) st)
  ]

  unfoldable pub take_item : ℕ × Dict → Sync Store → Sync Store
  unfolding take_guid
  take_item (new, d) st =
      let (raw, image) = pop_thumbnail py d in
      elim (normalize_vm py raw).vm_uuid [ none ↦ st | some u ↦ take_guid new u raw image st ]

  unfoldable pub take_items : List (ℕ × Dict) → Sync Store → Sync Store
  unfolding take_item
  take_items [] st = st
  take_items (item ∷ items) st = take_items items (take_item item st)
