-- ===== src/Inventory/Answers.antt =====
-- _response_vm_items and _apply_response_vm_status: the VM objects that an agent attaches to an answer.
use open_v_center_backend.Prelude.{
  ◌⊎◌, ℕ, String, ◌≡◌, refl, ap, ◌∙◌, Bool, true, false, ◌||◌, Option, none, some, List, [], ◌∷◌,
  ◌==◌, find, update_where, nonempty, if◌then◌else◌, Bool-cases, Option-cases, inl, inr, arith,
}
use open_v_center_backend.Json.{arr, Dict, get, as_dict}
use open_v_center_backend.Models.{Db, get_host}
use open_v_center_backend.Models.VmRows.{Vm}
use open_v_center_backend.Models.TaskRows.{AgentResponse}
use open_v_center_backend.Errors.{ok}
use open_v_center_backend.Worker.Response.{Refreshed, Refreshes, reported_here}
use open_v_center_backend.Inventory.Values.{Python, field, truth, dicts_in}
use open_v_center_backend.Inventory.Images.{upsert_template}
use open_v_center_backend.Inventory.Normalize.{normalize_vm}
use open_v_center_backend.Inventory.Row.{write_vm_row}

-- A source's VM objects: its list `vms`, or the source itself if it has an id.
unfoldable pub source_items : Dict → Option (List Dict)
unfolding field
source_items src = elim (get "vms" src) [
  | none ↦ bare src
  | some v ↦ elim v [ arr xs ↦ some (dicts_in xs) | _ ↦ bare src ]
]
  where
    bare : Dict → Option (List Dict)
    bare src = if truth (field "id" src) || truth (field "vmId" src) then some (src ∷ []) else none

abbrev items_of : Option Dict → Option (List Dict)
items_of none = none
items_of (some src) = source_items src

-- _response_vm_items
unfoldable pub response_vm_items : AgentResponse → List Dict
unfolding source_items
response_vm_items resp = elim (items_of resp.vm_status) [
  | some items ↦ items
  | none ↦ elim (items_of (as_dict resp.result)) [ some items ↦ items | none ↦ [] ]
]

-- The rows, the overlay in the order of the writes, and whether a row was written.
pub record Folded : Type 0 where
  pub rows : List Vm
  pub overlay : List (ℕ × String)
  pub updated : Bool

module _ (py : Python) (now : ℕ) (host_id : ℕ) (cluster_id : Option ℕ) where
  abbrev pub partial_write : Dict → Vm → Vm
  partial_write raw v = write_vm_row py now host_id cluster_id true raw (normalize_vm py raw) v

  abbrev pub note_item : Dict → Vm → Folded → Folded
  note_item raw v f = record {
    rows = f.rows;
    overlay = (v.id, (partial_write raw v).state) ∷ f.overlay;
    updated = true;
  }

  -- The loop over the items.
  unfoldable pub fold_items : List Dict → List Vm → Folded
  fold_items [] rows = record { rows = rows; overlay = []; updated = false }
  fold_items (raw ∷ items) rows =
      let rest = fold_items items rows in
      elim (nonempty (normalize_vm py raw).vm_uuid) [
        | none ↦ rest
        | some u ↦ elim (find (reported_here host_id u) rows) [
          | none ↦ rest
          | some v ↦
              note_item raw v
                (fold_items items (update_where (λ r. r.id == v.id) (partial_write raw) rows))
        ]
      ]

-- _apply_response_vm_status
unfoldable pub apply_response_vm_status : Python → ℕ → ℕ → AgentResponse → Db → Refreshed
unfolding fold_items response_vm_items
apply_response_vm_status py now host_id resp db = elim (get_host db host_id) [
  | none ↦ record { rows = ok (db.vms, false); overlay = [] }
  | some h ↦
      let f = fold_items py now host_id h.cluster_id (response_vm_items resp) db.vms in
      record { rows = ok (f.rows, f.updated); overlay = f.overlay }
]

-- The refreshes of apply_response; `new` is the id that new_id() would draw for a template.
unfoldable pub inventory_refreshes : Python → String → Refreshes
unfolding apply_response_vm_status upsert_template
inventory_refreshes py new = record {
  vm_status = apply_response_vm_status py;
  template = λ host_id item db. ok (upsert_template py new host_id item db.templates);
  show = py.show;
}

-- What identifies a row: its id and its GUID.
abbrev pub identity : Vm → ℕ × Option String
identity v = (v.id, v.vm_uuid)

unfoldable pub identities : List Vm → List (ℕ × Option String)
identities [] = []
identities (v ∷ vs) = identity v ∷ identities vs

identities-update_where :
    (p : Vm → Bool) (f : Vm → Vm) (vs : List Vm)
    → ((v : Vm) → identity (f v) ≡ identity v)
    → identities (update_where p f vs) ≡ identities vs
unfolding update_where identities
identities-update_where p f [] h = refl
identities-update_where p f (v ∷ vs) h = elim (Bool-cases (p v)) [
  | inl e ↦ rw e (both (h v) (identities-update_where p f vs h))
  | inr e ↦ rw e (ap (◌∷◌ (identity v)) (identities-update_where p f vs h))
]
  where
    both : {A : Type 0} {a b : A} {us ws : List A} → a ≡ b → us ≡ ws → (a ∷ us) ≡ (b ∷ ws)
    both p q = cc

identity-write :
    (py : Python) (now h : ℕ) (c : Option ℕ) (raw : Dict) (v : Vm)
    → identity (partial_write py now h c raw v) ≡ identity v
unfolding write_vm_row
identity-write py now h c raw v = refl

identity-fold_items :
    (py : Python) (now host_id : ℕ) (c : Option ℕ) (items : List Dict) (rows : List Vm)
    → identities (fold_items py now host_id c items rows).rows ≡ identities rows
unfolding fold_items
identity-fold_items py now host_id c [] rows = refl
identity-fold_items py now host_id c (raw ∷ items) rows =
    elim (Option-cases (nonempty (normalize_vm py raw).vm_uuid)) [
      | inl e ↦ rw (e, fold_items) (identity-fold_items py now host_id c items rows)
      | inr (u, e) ↦ elim (Option-cases (find (reported_here host_id u) rows)) [
        | inl f ↦ rw (e, f, fold_items) (identity-fold_items py now host_id c items rows)
        | inr (v, f) ↦
            rw (e, f, fold_items)
              (identity-fold_items py now host_id c items
                  (update_where (λ r. r.id == v.id) (partial_write py now host_id c raw) rows)
                ∙ identities-update_where (λ r. r.id == v.id) (partial_write py now host_id c raw)
                    rows (λ r. identity-write py now host_id c raw r))
      ]
    ]

-- Nothing was written unless the loop says so.
untouched-fold_items :
    (py : Python) (now host_id : ℕ) (c : Option ℕ) (items : List Dict) (rows : List Vm)
    → (fold_items py now host_id c items rows).updated ≡ false
    → ((fold_items py now host_id c items rows).rows ≡ rows)
      × ((fold_items py now host_id c items rows).overlay ≡ [])
unfolding fold_items
untouched-fold_items py now host_id c [] rows h = (refl, refl)
untouched-fold_items py now host_id c (raw ∷ items) rows h =
    ground (arith, untouched-fold_items py now host_id c items rows)

updated_or_not :
    (f : Folded) (vms : List Vm)
    → (f.updated ≡ false → (f.rows ≡ vms) × (f.overlay ≡ []))
    → (f.updated ≡ true) ⊎ ((f.rows ≡ vms) × (f.overlay ≡ []))
updated_or_not f vms h = elim (Bool-cases f.updated) [ inl e ↦ inl e | inr e ↦ inr (h e) ]

-- The VM objects of an answer give rows, never an error: they neither add nor remove a VM row nor
-- change an id or a GUID, and where no update is reported the rows are as they were and the overlay gets
-- nothing.
pub refresh_keeps_rows :
    (py : Python) (now host_id : ℕ) (resp : AgentResponse) (db : Db)
    → let r = apply_response_vm_status py now host_id resp db in
      (rows : List Vm) × (updated : Bool) × ((r.rows ≡ ok (rows, updated))
        × ((identities rows ≡ identities db.vms)
            × ((updated ≡ true) ⊎ ((rows ≡ db.vms) × (r.overlay ≡ [])))))
unfolding apply_response_vm_status
refresh_keeps_rows py now host_id resp db = elim (Option-cases (get_host db host_id)) [
  | inl e ↦ rw (e, apply_response_vm_status) (db.vms, false, (refl, (refl, inr (refl, refl))))
  | inr (h, e) ↦
      let items : List Dict = response_vm_items resp in
      let f : Folded = fold_items py now host_id h.cluster_id items db.vms in
      rw (e, apply_response_vm_status)
        (
          f.rows,
          f.updated,
          (
            refl,
            (
              identity-fold_items py now host_id h.cluster_id items db.vms,
              updated_or_not f db.vms
                  (untouched-fold_items py now host_id h.cluster_id items db.vms),
            ),
          ),
        )
]
