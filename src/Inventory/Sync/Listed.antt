-- ===== src/Inventory/Sync/Listed.antt =====
-- The rows of a host after a snapshot are the VMs that the snapshot lists.
use open_v_center_backend.Prelude.{
  ℕ, String, ◌≡◌, refl, ap, sym, ◌∙◌, Bool, true, false, some, List, [], ◌∷◌, ◌==◌, ◌&&◌, All, any,
  find, any-append, any-delete_where, str_in, str_eq, eq_iff, ==_iff, find_sound, Bool-cases,
  Option-cases, inl, inr, arith,
}
use open_v_center_backend.Json.{Dict, get}
use open_v_center_backend.Models.{get_host}
use open_v_center_backend.Models.VmRows.{Vm}
use open_v_center_backend.Models.Topology.{Host}
use open_v_center_backend.Valkey.{Valkey}
use open_v_center_backend.World.{World, Env}
use open_v_center_backend.Cache.{is_vm_deleted, list_deleted_vm_uuids}
use open_v_center_backend.Inventory.Values.{Python, pop_thumbnail, dict_list}
use open_v_center_backend.Inventory.Sync.{is_vanished, apply_vm_inventory}
use open_v_center_backend.Inventory.Sync.Items.{
  Sync, scope_ids, record_item, has_guid, blank, whole, take_item, take_items, take_guid, is_known,
  numbered,
}
use open_v_center_backend.Inventory.Row.{write_vm_row}
use open_v_center_backend.Inventory.Sync.Loop.{guid_of, take_items_inv}
use open_v_center_backend.Inventory.Sync.Kept.{anything, any-delete_where_other}
use open_v_center_backend.Inventory.Sync.Result.{
  start, tombstoned, snapshot, synced, vms-apply_vm_inventory,
}
use open_v_center_backend.Inventory.Sync.Guids.{
  later, empty, str_in-cons, str_in-head, guids-unnamed, guids-named, Named-guids, any-last,
  any-weaken, any-update_where_kept, any-update_where_found, Named, guids,
}

-- A row of the host with the GUID.
abbrev pub lives : ℕ → String → Vm → Bool
lives host_id u v = (v.host_id == host_id) && has_guid u v

written_here :
    (py : Python) (env : Env) (host : Host) (p : Bool) (raw : Dict) (item : _) (u : String) (v : Vm)
    → has_guid u v ≡ true
    → lives host.id u (write_vm_row py env.now host.id host.cluster_id p raw item v) ≡ true
unfolding write_vm_row
written_here py env host p raw item u v h = ground (arith, h)

still_here :
    (py : Python) (env : Env) (host : Host) (p : Bool) (raw : Dict) (item : _) (u : String) (v : Vm)
    → lives host.id u v ≡ true
    → lives host.id u (write_vm_row py env.now host.id host.cluster_id p raw item v) ≡ true
unfolding write_vm_row
still_here py env host p raw item u v h = ground (arith, h)

new_here : (new host_id : ℕ) (u : String) → has_guid u (blank new host_id u) ≡ true
unfolding blank
new_here new host_id u = ground (arith, eq_iff u u)

module _ ⦃kv : Valkey⦄ (py : Python) (env : Env) (host : Host) (scope : List ℕ)
    (tombstoned : List String) where
  -- `seen` holds GUIDs of the snapshot only.
  abbrev SeenListed : List String → Sync kv.Store → Type 0
  SeenListed us st = (u : String) → str_in u st.seen ≡ true → str_in u us ≡ true

  seen-cons :
      (us : List String) (x : String) (seen : List String)
      → str_in x us ≡ true
      → ((u : String) → str_in u seen ≡ true → str_in u us ≡ true)
      → (u : String) → str_in u (x ∷ seen) ≡ true
      → str_in u us ≡ true
  unfolding str_in
  seen-cons us x seen m h u e = elim (Bool-cases (str_eq x u)) [
    | inl t ↦ rw (sym ((eq_iff x u).0 t)) m
    | inr t ↦ h u (ground (arith, e, t))
  ]

  take_items-SeenListed :
      (us : List String) (items : List (ℕ × Dict)) (st : Sync kv.Store)
      → All (Named py us) items
      → SeenListed us st
      → SeenListed us (take_items py env host scope tombstoned items st)
  unfolding record_item
  take_items-SeenListed us =
      take_items_inv py env host scope tombstoned (SeenListed us) (Named py us)
        (λ new d u raw image v st q e f p. seen-cons us u st.seen (q u e) p)
        (λ new d u raw image st q e f t p. seen-cons us u st.seen (q u e) p)

  -- The GUID has been recorded: it is seen, and a row of the host has it.
  abbrev Recorded : String → Sync kv.Store → Type 0
  Recorded u st = (str_in u st.seen ≡ true) × (any (lives host.id u) st.rows ≡ true)

  abbrev write : Dict → Vm → Vm
  write raw = whole py env host scope tombstoned raw

  take_items-Recorded :
      (u : String) (items : List (ℕ × Dict)) (st : Sync kv.Store)
      → All (λ _. Unit {0}) items
      → Recorded u st
      → Recorded u (take_items py env host scope tombstoned items st)
  unfolding record_item
  take_items-Recorded u =
      take_items_inv py env host scope tombstoned (Recorded u) (λ _. Unit {0})
        (λ new d x raw image v st q e f p. (
          str_in-cons u x st.seen p.0,
          any-update_where_kept (lives host.id u) (λ r. r.id == v.id) (write raw) st.rows
              (λ r. still_here py env host false raw _ u r) p.1,
        ))
        (λ new d x raw image st q e f t p.
          (str_in-cons u x st.seen p.0, any-append (lives host.id u) st.rows _ ∙ rw p.1 refl))

  take_item-Recorded :
      (u : String) (new : ℕ) (d : Dict) (st : Sync kv.Store)
      → str_in u tombstoned ≡ false
      → guid_of py (new, d) ≡ some u
      → Recorded u (take_item py env host scope tombstoned (new, d) st)
  unfolding take_item guid_of record_item
  take_item-Recorded u new d st t e = elim (Option-cases (find (is_known scope u) st.rows)) [
    | inl f ↦
        rw (e, f, t, take_item, take_guid)
          (
            str_in-head u st.seen,
            any-last (lives host.id u) st.rows _ (
                written_here py env host false (pop_thumbnail py d).0 _ u (blank new host.id u)
                  (new_here new host.id u)),
          )
    | inr (v, f) ↦
        rw (e, f, take_item, take_guid)
          (
            str_in-head u st.seen,
            any-update_where_found (is_known scope u) (lives host.id u) (λ r. r.id == v.id)
                (write (pop_thumbnail py d).0) st.rows v f (ground arith)
                (λ k.
                  written_here py env host false (pop_thumbnail py d).0 _ u v (ground (arith, k))),
          )
  ]

  -- Every GUID that the snapshot lists and no tombstone covers is recorded.
  take_items-lists :
      (u : String) (items : List (ℕ × Dict)) (st : Sync kv.Store)
      → str_in u tombstoned ≡ false
      → str_in u (guids py items) ≡ true
      → Recorded u (take_items py env host scope tombstoned items st)
  unfolding take_items str_in
  take_items-lists u [] st t h = empty (unfold guids in h)
  take_items-lists u ((new, d) ∷ items) st t h =
      let next : Sync kv.Store = take_item py env host scope tombstoned (new, d) st in
      elim (Option-cases (guid_of py (new, d))) [
        | inl e ↦
            take_items-lists u items next t
              (ap (str_in u) (sym (guids-unnamed py (new, d) items e)) ∙ h)
        | inr (x, e) ↦ elim (Bool-cases (str_eq x u)) [
          | inl s ↦
              take_items-Recorded u items next (anything items)
                (take_item-Recorded u new d st t (e ∙ ap some ((eq_iff x u).0 s)))
          | inr s ↦ take_items-lists u items next t (
              later u x (guids py items) s
                (ap (str_in u) (sym (guids-named py (new, d) items x e)) ∙ h))
        ]
      ]

seen_stays :
    (host_id : ℕ) (u : String) (seen : List String) (v : Vm)
    → str_in u seen ≡ true
    → lives host_id u v ≡ true
    → is_vanished host_id seen v ≡ false
seen_stays host_id u seen v m h = elim (Option-cases v.vm_uuid) [
  | inl e ↦ ground (arith, e)
  | inr (x, e) ↦ ground (arith, m, h, e, eq_iff x u)
]

unlisted_vanishes :
    (host_id : ℕ) (u : String) (us : List String) (v : Vm)
    → str_in u us ≡ false
    → lives host_id u v ≡ true
    → is_vanished host_id us v ≡ true
unlisted_vanishes host_id u us v m h = elim (Option-cases v.vm_uuid) [
  | inl e ↦ ground (arith, e, h)
  | inr (x, e) ↦ ground (arith, m, h, e, eq_iff x u)
]

-- A row that a longer list does not have, a shorter list does not have either.
vanished_mono :
    (host_id : ℕ) (us seen : List String) (v : Vm)
    → ((u : String) → str_in u seen ≡ true → str_in u us ≡ true)
    → is_vanished host_id us v ≡ true
    → is_vanished host_id seen v ≡ true
vanished_mono host_id us seen v d h = elim (Option-cases v.vm_uuid) [
  | inl e ↦ ground (arith, h, e)
  | inr (x, e) ↦ ground (arith, h, e, d x)
]

module _ ⦃kv : Valkey⦄ (py : Python) (env : Env) (new_id event_id : ℕ → ℕ) (host_id : ℕ)
    (payload : Dict) (w : World kv.Store) (host : Host) (found : get_host w.db host_id ≡ some host)
    (u : String) where
  -- After a snapshot of a host, for a GUID that no tombstone of the host covers: a row of the host has
  -- the GUID if and only if an item of the snapshot names it.
  pub reconciled :
      is_vm_deleted env.now host_id u w.cache ≡ false
      → any (lives host_id u) (apply_vm_inventory py env new_id event_id host_id payload w).db.vms
        ≡ str_in u (guids py (numbered new_id 0 (dict_list (get "vms" payload))))
  unfolding is_vm_deleted list_deleted_vm_uuids
  reconciled free =
      let st : Sync kv.Store = synced py env new_id host_id payload w host in
      let ts : List String = tombstoned py env new_id host_id payload w host in
      let items : List (ℕ × Dict) = snapshot py env new_id host_id payload w host in
      let first : Sync kv.Store = start py env new_id host_id payload w host in
      let us : List String = guids py items in
      let untouched : str_in u ts ≡ false = kv.scan_deleted_lem env.now host_id u w.cache ∙ free in
      let here : host.id ≡ host_id =
        (==_iff host.id host_id).0 (find_sound (λ h. h.id == host_id) w.db.hosts host found) in
      let listed =
        take_items-SeenListed py env host (scope_ids host w.db) ts us items first
          (Named-guids py items) (λ x h. empty (unfold str_in in h)) in
      ap (any (lives host_id u))
        (vms-apply_vm_inventory py env new_id host_id payload w host event_id found)
      ∙ elim (Bool-cases (str_in u us)) [
        | inl m ↦
            let (seen, row) =
              take_items-lists py env host (scope_ids host w.db) ts u items first untouched m in
            any-delete_where_other (lives host_id u) (is_vanished host_id st.seen) st.rows
              (λ v. seen_stays host_id u st.seen v seen)
              (ap (λ i. any (lives i u) st.rows) (sym here) ∙ row)
            ∙ sym m
        | inr m ↦
            any-weaken (lives host_id u) (is_vanished host_id st.seen) _
              (λ v h.
                vanished_mono host_id us st.seen v listed (unlisted_vanishes host_id u us v m h))
              (any-delete_where (is_vanished host_id st.seen) st.rows)
            ∙ sym m
      ]
