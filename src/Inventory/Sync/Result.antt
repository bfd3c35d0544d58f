-- ===== src/Inventory/Sync/Result.antt =====
-- The rows that apply_vm_inventory leaves.
use open_v_center_backend.Prelude.{
  ℕ, String, ◌≡◌, refl, ap, some, List, [], ◌∷◌, Bool-cases, inl, inr, rows_where, delete_where,
}
use open_v_center_backend.Json.{Dict, get}
use open_v_center_backend.Models.{Db, get_host}
use open_v_center_backend.Models.VmRows.{Vm}
use open_v_center_backend.Models.Topology.{Host}
use open_v_center_backend.Models.Cascade.{delete_vms}
use open_v_center_backend.Valkey.{Valkey}
use open_v_center_backend.World.{World, Env}
use open_v_center_backend.Cache.{list_deleted_vm_uuids}
use open_v_center_backend.Audit.{record_event}
use open_v_center_backend.Inventory.Values.{Python, dict_list}
use open_v_center_backend.Inventory.Sync.{
  is_vanished, audit_removed, delete_in_flight, finish_sync, apply_vm_inventory,
}
use open_v_center_backend.Inventory.Sync.Items.{Sync, scope_ids, numbered, take_items}

-- The audit events do not touch the VMs.
pub vms-audit_removed :
    (now : ℕ) (event_id : ℕ → ℕ) (gone : List Vm) (db : Db)
    → (audit_removed now event_id gone db).vms ≡ db.vms
unfolding audit_removed record_event
vms-audit_removed now event_id [] db = refl
vms-audit_removed now event_id (v ∷ vs) db = elim (Bool-cases (delete_in_flight db v.id)) [
  | inl e ↦ rw (e, audit_removed) (vms-audit_removed now event_id vs db)
  | inr e ↦ rw (e, audit_removed) (vms-audit_removed now event_id vs _)
]

module _ ⦃kv : Valkey⦄ (py : Python) (env : Env) (new_id : ℕ → ℕ) (host_id : ℕ) (payload : Dict)
    (w : World kv.Store) (host : Host) where
  -- The loop starts from the rows and the cache, and nothing seen.
  abbrev pub start : Sync kv.Store
  start = record { rows = w.db.vms; cache = w.cache; seen = []; images = [] }

  abbrev pub tombstoned : List String
  tombstoned = list_deleted_vm_uuids env.now host_id w.cache

  abbrev pub snapshot : List (ℕ × Dict)
  snapshot = numbered new_id 0 (dict_list (get "vms" payload))

  -- What the loop ends with.
  abbrev pub synced : Sync kv.Store
  synced = take_items py env host (scope_ids host w.db) tombstoned snapshot start

  pub vms-apply_vm_inventory :
      (event_id : ℕ → ℕ)
      → get_host w.db host_id ≡ some host
      → (apply_vm_inventory py env new_id event_id host_id payload w).db.vms
        ≡ delete_where (is_vanished host_id synced.seen) synced.rows
  unfolding apply_vm_inventory finish_sync delete_vms
  vms-apply_vm_inventory event_id found =
      let gone : List Vm = rows_where (is_vanished host_id synced.seen) synced.rows in
      rw (found, apply_vm_inventory)
        (ap (delete_where (is_vanished host_id synced.seen))
          (vms-audit_removed env.now event_id gone (record w.db { vms = synced.rows })))
