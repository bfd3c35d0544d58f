-- ===== src/Inventory/Sync.antt =====
-- apply_vm_inventory: an agent's snapshot of its VMs becomes the rows of the host. `new_id` gives the
-- ids that new rows draw, by position, and `event_id` those of the audit events, by VM. A GUID has at
-- most one row in the scope of a host, by the unique indexes of the table, so that the dict of known
-- rows is a search in the table.
pub mod Items
pub mod Loop
pub mod Result
pub mod Deleted
pub mod Guids
pub mod Listed
pub mod Kept
pub mod Created
use open_v_center_backend.Prelude.{
  ℕ, suc, String, Bool, true, false, not, ◌&&◌, Option, none, some, List, [], ◌∷◌, ◌++◌, ◌==◌, map,
  has_id, any, find, rows_where, update_where, delete_where, str_in, str_eq, if◌then◌else◌,
}
use open_v_center_backend.Json.{Dict, end, entry, str, get}
use open_v_center_backend.Models.{Db, get_host}
use open_v_center_backend.Models.VmRows.{Vm}
use open_v_center_backend.Models.Topology.{Host}
use open_v_center_backend.Models.Samples.{VmThumbnail}
use open_v_center_backend.Models.TaskRows.{Task, is_terminal}
use open_v_center_backend.Models.Cascade.{delete_vms}
use open_v_center_backend.Valkey.{Valkey}
use open_v_center_backend.World.{World, Env}
use open_v_center_backend.Cache.{clear_vm_state, clear_vm_deleted, list_deleted_vm_uuids}
use open_v_center_backend.Audit.{vm_target, record_event}
use open_v_center_backend.Inventory.Values.{Python, field, dict_list, parse_dt}
use Items.{Sync, scope_ids, numbered, take_items, has_no_guid}

abbrev is_delete_in_flight : ℕ → Task → Bool
is_delete_in_flight vm_id t =
    (t.target_id == vm_id) && (str_eq t.kind "vm_delete" && not (is_terminal t.status))

-- _delete_in_flight
unfoldable pub delete_in_flight : Db → ℕ → Bool
delete_in_flight db vm_id = any (is_delete_in_flight vm_id) db.tasks

abbrev pub is_unseen : List String → Option String → Bool
is_unseen seen none = false
is_unseen seen (some u) = not (str_in u seen)

-- A row of the host that the snapshot does not list.
abbrev pub is_vanished : ℕ → List String → Vm → Bool
is_vanished host_id seen v = (v.host_id == host_id) && is_unseen seen v.vm_uuid

-- The audit event of a VM that was removed outside the backend.
unfoldable pub audit_removed : ℕ → (ℕ → ℕ) → List Vm → Db → Db
audit_removed now event_id [] db = db
audit_removed now event_id (v ∷ vs) db = audit_removed now event_id vs (
    if delete_in_flight db v.id
    then db
    else record_event (event_id v.id) now none "vm.inventory_remove" (vm_target v) none
        (entry "reason" (str "no longer reported by its host agent") end) db)

abbrev or_now : Option ℕ → ℕ → ℕ
or_now none now = now
or_now (some t) now = t

-- _upsert_thumbnails
unfoldable pub upsert_thumbnails : ℕ → List (ℕ × List ℕ) → List VmThumbnail → List VmThumbnail
upsert_thumbnails at [] ts = ts
upsert_thumbnails at ((i, image) ∷ rest) ts = upsert_thumbnails at rest (
    delete_where (λ t. t.vm_id == i) ts
    ++ record { vm_id = i; image = image; captured_at = at } ∷ [])

module _ ⦃kv : Valkey⦄ where
  open kv use {Store}

  unfoldable pub clear_states : ℕ → List Vm → Store → Store
  clear_states now [] c = c
  clear_states now (v ∷ vs) c = clear_states now vs (clear_vm_state now v.id c)

  -- `for vm_uuid in tombstoned - seen: clear_vm_deleted(…)`
  unfoldable pub clear_tombstones : ℕ → ℕ → List String → List String → Store → Store
  clear_tombstones now host_id seen [] c = c
  clear_tombstones now host_id seen (u ∷ us) c =
      clear_tombstones now host_id seen us
        (if str_in u seen then c else clear_vm_deleted now host_id u c)

  -- After the loop over the items.
  unfoldable pub finish_sync :
      Python → Env → (ℕ → ℕ) → ℕ → Dict → List String → Sync Store → World Store → World Store
  unfolding audit_removed
  finish_sync py env event_id host_id payload tombstoned st w =
      let gone = rows_where (is_vanished host_id st.seen) st.rows in
      let db = audit_removed env.now event_id gone (record w.db { vms = st.rows }) in
      let db' = delete_vms (is_vanished host_id st.seen) db in
      record w {
        db = record db' {
          thumbnails =
              upsert_thumbnails (or_now (parse_dt py (field "reported_at" payload)) env.now)
                st.images db'.thumbnails;
        };
        cache =
            clear_tombstones env.now host_id st.seen tombstoned
              (clear_states env.now gone st.cache);
      }

  unfoldable pub apply_vm_inventory :
      Python → Env → (ℕ → ℕ) → (ℕ → ℕ) → ℕ → Dict → World Store → World Store
  unfolding finish_sync take_items
  apply_vm_inventory py env new_id event_id host_id payload w = elim (get_host w.db host_id) [
    | none ↦ w
    | some host ↦
        let tombstoned = list_deleted_vm_uuids env.now host_id w.cache in
        finish_sync py env event_id host_id payload tombstoned
          (take_items py env host (scope_ids host w.db) tombstoned
            (numbered new_id 0 (dict_list (get "vms" payload)))
            (record { rows = w.db.vms; cache = w.cache; seen = []; images = [] }))
          w
  ]
