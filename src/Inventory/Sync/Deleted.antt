-- ===== src/Inventory/Sync/Deleted.antt =====
-- A VM that was deleted and the snapshots that still list it.
use open_v_center_backend.Prelude.{
  ℕ, String, ◌≡◌, refl, sym, ap, ◌∙◌, Bool, true, false, Option, none, some, List, [], ◌∷◌, ◌++◌,
  ◌==◌, All, any, find, delete_where, any-update_where, any-append, is_some, str_in, str_eq, eq_iff,
  Bool-cases, inl, inr, if◌then◌else◌, arith,
}
use open_v_center_backend.Json.{Dict, get}
use open_v_center_backend.Models.{get_host}
use open_v_center_backend.Models.VmRows.{Vm}
use open_v_center_backend.Models.Topology.{Host}
use open_v_center_backend.Models.Cascade.{delete_vms}
use open_v_center_backend.Valkey.{Valkey, vm_deleted}
use open_v_center_backend.World.{World, Env}
use open_v_center_backend.Cache.{is_vm_deleted, clear_vm_deleted, list_deleted_vm_uuids}
use open_v_center_backend.Inventory.Values.{Python, dict_list}
use open_v_center_backend.Inventory.Row.{write_vm_row}
use open_v_center_backend.Inventory.Sync.{
  is_vanished, clear_tombstones, finish_sync, apply_vm_inventory,
}
use open_v_center_backend.Inventory.Sync.Items.{
  Sync, scope_ids, numbered, is_known, blank, whole, record_item, take_items, has_guid,
}
use open_v_center_backend.Inventory.Sync.Result.{start, tombstoned, synced, vms-apply_vm_inventory}
use open_v_center_backend.Inventory.Sync.Loop.{take_items_inv}

has_guid-write :
    (py : Python) (now h : ℕ) (c : Option ℕ) (p : Bool) (raw : Dict) (item : _) (u : String)
    (v : Vm)
    → has_guid u (write_vm_row py now h c p raw item v) ≡ has_guid u v
unfolding write_vm_row
has_guid-write py now h c p raw item u v = refl

no_known :
    (scope : List ℕ) (u : String) (rows : List Vm)
    → any (has_guid u) rows ≡ false
    → find (is_known scope u) rows ≡ none
unfolding any find
no_known scope u [] h = refl
no_known scope u (v ∷ rows) h = ground (arith, no_known scope u rows)

-- An item whose item is known or new has another GUID than one that is absent.
other_known :
    (scope : List ℕ) (u x : String) (rows : List Vm) (v : Vm)
    → any (has_guid u) rows ≡ false
    → find (is_known scope x) rows ≡ some v
    → str_eq x u ≡ false
other_known scope u x rows v h f = elim (Bool-cases (str_eq x u)) [
  | inr e ↦ e
  | inl e ↦
      differ (ap (λ y. find (is_known scope y) rows) (sym ((eq_iff x u).0 e)) ∙ f)
        (no_known scope u rows h)
]
  where
    differ : {P : Type 0} {o : Option Vm} → o ≡ some v → o ≡ none → P
    differ a b = cc

other_new :
    (tombstoned : List String) (u x : String)
    → str_in u tombstoned ≡ true
    → str_in x tombstoned ≡ false
    → str_eq x u ≡ false
other_new tombstoned u x m t = elim (Bool-cases (str_eq x u)) [
  | inr e ↦ e
  | inl e ↦ cc (ap (λ y. str_in y tombstoned) ((eq_iff x u).0 e), m, t)
]

new_guid :
    (u x : String) (new host_id : ℕ) → str_eq x u ≡ false → has_guid u (blank new host_id x) ≡ false
unfolding blank
new_guid u x new host_id e = e

unseen-cons :
    (u x : String) (seen : List String)
    → str_eq x u ≡ false
    → str_in u seen ≡ false
    → str_in u (x ∷ seen) ≡ false
unfolding str_in
unseen-cons u x seen e h = ground (arith, e, h)

absent-append :
    (u : String) (rows : List Vm) (v : Vm)
    → any (has_guid u) rows ≡ false
    → has_guid u v ≡ false
    → any (has_guid u) (rows ++ v ∷ []) ≡ false
unfolding any
absent-append u rows v h g = any-append (has_guid u) rows (v ∷ []) ∙ rw (h, g) refl

module _ ⦃kv : Valkey⦄ (py : Python) (env : Env) (host : Host) (scope : List ℕ)
    (tombstoned : List String) (u : String) (marked : str_in u tombstoned ≡ true) where
  -- Nothing with the GUID, neither in the rows nor in `seen`.
  abbrev Absent : Sync kv.Store → Type 0
  Absent st = (any (has_guid u) st.rows ≡ false) × (str_in u st.seen ≡ false)

  take_items-Absent :
      (items : List (ℕ × Dict)) (st : Sync kv.Store)
      → All (λ _. Unit {0}) items
      → Absent st
      → Absent (take_items py env host scope tombstoned items st)
  unfolding record_item
  take_items-Absent =
      take_items_inv py env host scope tombstoned Absent (λ _. Unit {0})
        (λ new d x raw image v st q e f p. (
          any-update_where (has_guid u) (λ r. r.id == v.id) (whole py env host scope tombstoned raw)
                st.rows (λ r. has_guid-write py env.now host.id host.cluster_id false raw _ u r)
              ∙ p.0,
          unseen-cons u x st.seen (other_known scope u x st.rows v p.0 f) p.1,
        ))
        (λ new d x raw image st q e f t p. (
          absent-append u st.rows _ p.0 (
              has_guid-write py env.now host.id host.cluster_id false raw _ u (blank new host.id x)
              ∙ new_guid u x new host.id (other_new tombstoned u x marked t)),
          unseen-cons u x st.seen (other_new tombstoned u x marked t) p.1,
        ))

nothing_of : (items : List (ℕ × Dict)) → All (λ _. Unit {0}) items
nothing_of [] = tt
nothing_of (x ∷ items) = (tt, nothing_of items)

any-delete_where_none {ℓ} :
    {A : Type ℓ} (q p : A → Bool) (xs : List A)
    → any q xs ≡ false
    → any q (delete_where p xs) ≡ false
unfolding any delete_where
any-delete_where_none q p [] h = refl
any-delete_where_none q p (x ∷ xs) h = ground (arith, any-delete_where_none q p xs)

module _ ⦃kv : Valkey⦄ (now host_id : ℕ) (seen : List String) (u : String)
    (unlisted : str_in u seen ≡ false) where
  cleared_stays :
      (us : List String) (c : kv.Store)
      → kv.get now (vm_deleted host_id u) c ≡ none
      → kv.get now (vm_deleted host_id u) (clear_tombstones now host_id seen us c) ≡ none
  unfolding clear_tombstones clear_vm_deleted
  cleared_stays [] c h = h
  cleared_stays (x ∷ us) c h =
      cleared_stays us (if str_in x seen then c else clear_vm_deleted now host_id x c)
        (ground (arith, h, kv.get-delete now now (vm_deleted host_id x) (vm_deleted host_id u) c))

  cleared :
      (us : List String) (c : kv.Store)
      → str_in u us ≡ true
      → kv.get now (vm_deleted host_id u) (clear_tombstones now host_id seen us c) ≡ none
  unfolding clear_tombstones clear_vm_deleted str_in
  cleared [] c h = cc
  cleared (x ∷ us) c h = elim (Bool-cases (str_eq x u)) [
    | inl e ↦ cleared_stays us (if str_in x seen then c else clear_vm_deleted now host_id x c) (
        rw ((eq_iff x u).0 e) (
          ground (
            arith,
            unlisted,
            eq_iff u u,
            kv.get-delete now now (vm_deleted host_id u) (vm_deleted host_id u) c,
          )))
    | inr e ↦
        cleared us (if str_in x seen then c else clear_vm_deleted now host_id x c)
          (ground (arith, e, h))
  ]

module _ ⦃kv : Valkey⦄ (py : Python) (env : Env) (new_id event_id : ℕ → ℕ) (host_id : ℕ)
    (payload : Dict) (w : World kv.Store) (host : Host) (found : get_host w.db host_id ≡ some host)
    (u : String) (marked : is_vm_deleted env.now host_id u w.cache ≡ true)
    (gone : any (has_guid u) w.db.vms ≡ false) where
  -- For a GUID without a row whose tombstone the host has, no snapshot of the host brings back a row with
  -- the GUID, and every snapshot, even one that lists the GUID, takes the tombstone away.
  pub stale_snapshot :
      let w' = apply_vm_inventory py env new_id event_id host_id payload w in
      (any (has_guid u) w'.db.vms ≡ false) × (is_vm_deleted env.now host_id u w'.cache ≡ false)
  unfolding apply_vm_inventory finish_sync is_vm_deleted list_deleted_vm_uuids delete_vms
  stale_snapshot =
      let st : Sync kv.Store = synced py env new_id host_id payload w host in
      let ts : List String = tombstoned py env new_id host_id payload w host in
      let listed : str_in u ts ≡ true = kv.scan_deleted_lem env.now host_id u w.cache ∙ marked in
      let items : List (ℕ × Dict) = numbered new_id 0 (dict_list (get "vms" payload)) in
      let (absent, unseen) =
        take_items-Absent py env host (scope_ids host w.db) ts u listed items
          (start py env new_id host_id payload w host) (nothing_of items)
          (gone, unfold str_in in refl) in
      (
        ap (any (has_guid u))
              (vms-apply_vm_inventory py env new_id host_id payload w host event_id found)
            ∙ any-delete_where_none (has_guid u) (is_vanished host_id st.seen) st.rows absent,
        rw (found, apply_vm_inventory)
            (ap is_some (cleared env.now host_id st.seen u unseen ts _ listed)),
      )
