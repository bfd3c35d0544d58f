-- ===== src/Inventory/Sync/Loop.antt =====
-- The invariant rule of the loop over the items of a snapshot, and what a write leaves alone.
use open_v_center_backend.Prelude.{
  ℕ, String, ◌≡◌, false, Option, none, some, List, [], ◌∷◌, ◌++◌, ◌==◌, All, find, update_where,
  str_in, Bool-cases, Option-cases, inl, inr,
}
use open_v_center_backend.Json.{Dict}
use open_v_center_backend.Models.VmRows.{Vm}
use open_v_center_backend.Models.Topology.{Host}
use open_v_center_backend.Valkey.{Valkey}
use open_v_center_backend.World.{Env}
use open_v_center_backend.Inventory.Values.{Python, pop_thumbnail}
use open_v_center_backend.Inventory.Normalize.{normalize_vm}
use open_v_center_backend.Inventory.Sync.Items.{
  Sync, is_known, blank, whole, record_item, take_guid, take_item, take_items,
}

-- The GUID that an item names.
unfoldable pub guid_of : Python → ℕ × Dict → Option String
guid_of py (new, d) = (normalize_vm py (pop_thumbnail py d).0).vm_uuid

module _ ⦃kv : Valkey⦄ (py : Python) (env : Env) (host : Host) (scope : List ℕ)
    (tombstoned : List String) where
  open kv use {Store}

  abbrev pub after_known : String → Dict → Option (List ℕ) → Vm → Sync Store → Sync Store
  after_known u raw image v st =
      record_item py env host scope tombstoned u raw image v
        (update_where (λ r. r.id == v.id) (whole py env host scope tombstoned raw) st.rows) st

  abbrev pub after_added : ℕ → String → Dict → Option (List ℕ) → Sync Store → Sync Store
  after_added new u raw image st =
      let v = blank new host.id u in
      record_item py env host scope tombstoned u raw image v
        (st.rows ++ whole py env host scope tombstoned raw v ∷ []) st

  -- What the two writes must show to keep a predicate of the loop's state. `Q` is what is known of
  -- every item.
  abbrev pub OnKnown {κ μ} : (Sync Store → Type κ) → (ℕ × Dict → Type μ) → Type (κ ⊔ μ)
  OnKnown P Q =
      (new : ℕ) (d : Dict) (u : String) (raw : Dict) (image : Option (List ℕ)) (v : Vm)
      (st : Sync Store)
      → Q (new, d)
      → guid_of py (new, d) ≡ some u
      → find (is_known scope u) st.rows ≡ some v
      → P st
      → P (after_known u raw image v st)

  abbrev pub OnAdded {κ μ} : (Sync Store → Type κ) → (ℕ × Dict → Type μ) → Type (κ ⊔ μ)
  OnAdded P Q =
      (new : ℕ) (d : Dict) (u : String) (raw : Dict) (image : Option (List ℕ)) (st : Sync Store)
      → Q (new, d)
      → guid_of py (new, d) ≡ some u
      → find (is_known scope u) st.rows ≡ none
      → str_in u tombstoned ≡ false
      → P st
      → P (after_added new u raw image st)

  take_guid_inv {κ μ} :
      (P : Sync Store → Type κ) (Q : ℕ × Dict → Type μ)
      → OnKnown P Q
      → OnAdded P Q
      → (new : ℕ) (d : Dict) (u : String) (raw : Dict) (image : Option (List ℕ)) (st : Sync Store)
      → Q (new, d)
      → guid_of py (new, d) ≡ some u
      → P st
      → P (take_guid py env host scope tombstoned new u raw image st)
  unfolding take_guid
  take_guid_inv P Q known added new d u raw image st q e p =
      elim (Option-cases (find (is_known scope u) st.rows)) [
        | inr (v, f) ↦ rw (f, take_guid) (known new d u raw image v st q e f p)
        | inl f ↦ elim (Bool-cases (str_in u tombstoned)) [
          | inl t ↦ rw (f, t, take_guid) p
          | inr t ↦ rw (f, t, take_guid) (added new d u raw image st q e f t p)
        ]
      ]

  pub take_item_inv {κ μ} :
      (P : Sync Store → Type κ) (Q : ℕ × Dict → Type μ)
      → OnKnown P Q
      → OnAdded P Q
      → (item : ℕ × Dict) (st : Sync Store) → Q item
      → P st
      → P (take_item py env host scope tombstoned item st)
  unfolding take_item guid_of
  take_item_inv P Q known added (new, d) st q p =
      elim (Option-cases (normalize_vm py (pop_thumbnail py d).0).vm_uuid) [
        | inl e ↦ rw (e, take_item) p
        | inr (u, e) ↦
            rw (e, take_item)
              (take_guid_inv P Q known added new d u (pop_thumbnail py d).0 (pop_thumbnail py d).1
                st q e p)
      ]

  pub take_items_inv {κ μ} :
      (P : Sync Store → Type κ) (Q : ℕ × Dict → Type μ)
      → OnKnown P Q
      → OnAdded P Q
      → (items : List (ℕ × Dict)) (st : Sync Store) → All Q items
      → P st
      → P (take_items py env host scope tombstoned items st)
  unfolding take_items
  take_items_inv P Q known added [] st q p = p
  take_items_inv P Q known added (item ∷ items) st q p =
      take_items_inv P Q known added items (take_item py env host scope tombstoned item st) q.1
        (take_item_inv P Q known added item st q.0 p)
