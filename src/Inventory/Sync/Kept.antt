-- ===== src/Inventory/Sync/Kept.antt =====
-- What a snapshot leaves alone: rows that no agent reported, and the locks of the VMs.
use open_v_center_backend.Prelude.{
  ℕ, String, ◌≡◌, refl, ap, ◌∙◌, Bool, true, false, Option, some, List, [], ◌∷◌, ◌==◌, ◌&&◌, All,
  any, delete_where, any-update_where, any-append, str_in, Bool-cases, inl, inr, arith, rows_where,
}
use open_v_center_backend.Json.{Dict}
use open_v_center_backend.Models.{get_host}
use open_v_center_backend.Models.VmRows.{Vm}
use open_v_center_backend.Models.Topology.{Host}
use open_v_center_backend.Valkey.{Valkey, Entry, vm_deleted, vm_state, vm_lock}
use open_v_center_backend.World.{World, Env}
use open_v_center_backend.Cache.{set_vm_state, clear_vm_state, clear_vm_deleted}
use open_v_center_backend.Inventory.Values.{Python}
use open_v_center_backend.Inventory.Row.{write_vm_row}
use open_v_center_backend.Inventory.Sync.{
  is_vanished, clear_states, clear_tombstones, finish_sync, apply_vm_inventory,
}
use open_v_center_backend.Inventory.Sync.Items.{
  Sync, scope_ids, blank, whole, record_item, take_items, has_no_guid,
}
use open_v_center_backend.Inventory.Sync.Loop.{take_items_inv}
use open_v_center_backend.Inventory.Sync.Result.{
  start, tombstoned, snapshot, synced, vms-apply_vm_inventory,
}

-- A row with the id that no agent reported.
abbrev pub is_placeholder : ℕ → Vm → Bool
is_placeholder i v = (v.id == i) && has_no_guid v

pub anything : {A : Type 0} (xs : List A) → All (λ _. Unit {0}) xs
anything [] = tt
anything (x ∷ xs) = (tt, anything xs)

pub any-delete_where_other {ℓ} :
    {A : Type ℓ} (q p : A → Bool) (xs : List A)
    → ((x : A) → q x ≡ true → p x ≡ false)
    → any q xs ≡ true
    → any q (delete_where p xs) ≡ true
unfolding any delete_where
any-delete_where_other q p [] d h = h
any-delete_where_other q p (x ∷ xs) d h = ground (arith, d x, any-delete_where_other q p xs d)

placeholder-written :
    (py : Python) (now h : ℕ) (c : Option ℕ) (p : Bool) (raw : Dict) (item : _) (i : ℕ) (v : Vm)
    → is_placeholder i (write_vm_row py now h c p raw item v) ≡ is_placeholder i v
unfolding write_vm_row
placeholder-written py now h c p raw item i v = refl

placeholder-kept :
    (i host_id : ℕ) (seen : List String) (v : Vm)
    → is_placeholder i v ≡ true
    → is_vanished host_id seen v ≡ false
placeholder-kept i host_id seen v h = ground arith

module _ ⦃kv : Valkey⦄ (py : Python) (env : Env) (host : Host) (scope : List ℕ)
    (tombstoned : List String) (i : ℕ) where
  abbrev Stands : Sync kv.Store → Type 0
  Stands st = any (is_placeholder i) st.rows ≡ true

  take_items-Stands :
      (items : List (ℕ × Dict)) (st : Sync kv.Store)
      → All (λ _. Unit {0}) items
      → Stands st
      → Stands (take_items py env host scope tombstoned items st)
  unfolding record_item
  take_items-Stands =
      take_items_inv py env host scope tombstoned Stands (λ _. Unit {0})
        (λ new d u raw image v st q e f p.
          any-update_where (is_placeholder i) (λ r. r.id == v.id)
            (whole py env host scope tombstoned raw) st.rows
            (λ r. placeholder-written py env.now host.id host.cluster_id false raw _ i r)
          ∙ p)
        (λ new d u raw image st q e f t p. any-append (is_placeholder i) st.rows _ ∙ rw p refl)

module _ ⦃kv : Valkey⦄ (now i : ℕ) where
  abbrev held : kv.Store → Option Entry
  held c = kv.get now (vm_lock i) c

  held-clear_states : (vs : List Vm) (c : kv.Store) → held (clear_states now vs c) ≡ held c
  unfolding clear_states clear_vm_state
  held-clear_states [] c = refl
  held-clear_states (v ∷ vs) c =
      held-clear_states vs (clear_vm_state now v.id c)
      ∙ kv.get-delete now now (vm_state v.id) (vm_lock i) c (omega arith)

  held-clear_tombstones :
      (h : ℕ) (seen us : List String) (c : kv.Store)
      → held (clear_tombstones now h seen us c) ≡ held c
  unfolding clear_tombstones clear_vm_deleted
  held-clear_tombstones h seen [] c = refl
  held-clear_tombstones h seen (u ∷ us) c = elim (Bool-cases (str_in u seen)) [
    | inl e ↦ rw e (held-clear_tombstones h seen us c)
    | inr e ↦ rw e (
        held-clear_tombstones h seen us (clear_vm_deleted now h u c)
        ∙ kv.get-delete now now (vm_deleted h u) (vm_lock i) c (omega arith))
  ]

module _ ⦃kv : Valkey⦄ (py : Python) (env : Env) (host : Host) (scope : List ℕ)
    (tombstoned : List String) (i : ℕ) (c₀ : kv.Store) where
  abbrev SameLock : Sync kv.Store → Type 0
  SameLock st = held env.now i st.cache ≡ held env.now i c₀

  take_items-SameLock :
      (items : List (ℕ × Dict)) (st : Sync kv.Store)
      → All (λ _. Unit {0}) items
      → SameLock st
      → SameLock (take_items py env host scope tombstoned items st)
  unfolding record_item set_vm_state blank
  take_items-SameLock =
      take_items_inv py env host scope tombstoned SameLock (λ _. Unit {0})
        (λ new d u raw image v st q e f p.
          kv.get-set env.now env.now (vm_state v.id) (vm_lock i) _ _ st.cache (omega arith) ∙ p)
        (λ new d u raw image st q e f t p.
          kv.get-set env.now env.now (vm_state new) (vm_lock i) _ _ st.cache (omega arith) ∙ p)

module _ ⦃kv : Valkey⦄ (py : Python) (env : Env) (new_id event_id : ℕ → ℕ) (host_id : ℕ)
    (payload : Dict) (w : World kv.Store) (host : Host) (found : get_host w.db host_id ≡ some host)
    (i : ℕ) where
  -- A snapshot of a known host keeps a row that no agent reported, and leaves the lock of its VM as it
  -- was.
  pub snapshot_keeps :
      any (is_placeholder i) w.db.vms ≡ true
      → let w' = apply_vm_inventory py env new_id event_id host_id payload w in
        (any (is_placeholder i) w'.db.vms ≡ true)
        × (kv.get env.now (vm_lock i) w'.cache ≡ kv.get env.now (vm_lock i) w.cache)
  unfolding apply_vm_inventory finish_sync
  snapshot_keeps stands =
      let st : Sync kv.Store = synced py env new_id host_id payload w host in
      let ts : List String = tombstoned py env new_id host_id payload w host in
      let items : List (ℕ × Dict) = snapshot py env new_id host_id payload w host in
      let first : Sync kv.Store = start py env new_id host_id payload w host in
      let gone : List Vm = rows_where (is_vanished host_id st.seen) st.rows in
      (
        ap (any (is_placeholder i))
              (vms-apply_vm_inventory py env new_id host_id payload w host event_id found)
            ∙ any-delete_where_other (is_placeholder i) (is_vanished host_id st.seen) st.rows
                (placeholder-kept i host_id st.seen)
                (take_items-Stands py env host (scope_ids host w.db) ts i items first
                  (anything items) stands),
        rw (found, apply_vm_inventory)
            (held-clear_tombstones env.now i host_id st.seen ts (clear_states env.now gone st.cache)
              ∙ held-clear_states env.now i gone st.cache
              ∙ take_items-SameLock py env host (scope_ids host w.db) ts i w.cache items first
                  (anything items) refl),
      )
