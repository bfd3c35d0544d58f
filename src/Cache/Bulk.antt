-- ===== src/Cache/Bulk.antt =====
-- The reads of app/cache.py for several VMs at once.
use open_v_center_backend.Prelude.{
  ℕ, String, ◌≡◌, refl, true, Option, none, some, List, [], ◌∷◌, ◌==◌, ==_refl, arith,
  if◌then◌else◌, nonempty, any, inl, inr, Bool-cases, Option-cases,
}
use open_v_center_backend.Valkey.{Lock, Valkey}
use open_v_center_backend.Cache.Defs.{get_vm_state, get_vm_lock}

-- `d.get(i)` in a dict by VM.
unfoldable pub lookup_id {ℓ} : {A : Type ℓ} → ℕ → List (ℕ × A) → Option A
lookup_id i [] = none
lookup_id i ((j, a) ∷ d) = if j == i then some a else lookup_id i d

abbrev pub add_some {ℓ} : {A : Type ℓ} → ℕ → Option A → List (ℕ × A) → List (ℕ × A)
add_some i none d = d
add_some i (some a) d = (i, a) ∷ d

-- One value for each id that has one.
unfoldable pub read_all {ℓ} : {A : Type ℓ} → (ℕ → Option A) → List ℕ → List (ℕ × A)
read_all f [] = []
read_all f (i ∷ ids) = add_some i (f i) (read_all f ids)

module _ {ℓ} {A : Type ℓ} (f : ℕ → Option A) where
  lookup_none : (i : ℕ) (ids : List ℕ) → f i ≡ none → lookup_id i (read_all f ids) ≡ none
  unfolding read_all lookup_id
  lookup_none i [] h = refl
  lookup_none i (j ∷ ids) h = elim (Bool-cases (j == i)) [
    | inl same ↦ let e : j ≡ i = ground (arith, same) in rw e (rw h (lookup_none i ids h))
    | inr other ↦ elim (Option-cases (f j)) [
      | inl missing ↦ rw missing (lookup_none i ids h)
      | inr (a, there) ↦ rw there (rw (other, if◌then◌else◌) (lookup_none i ids h))
    ]
  ]

  -- A dict that is read for several ids has for each of them what it is read to have.
  pub lookup-read_all :
      (i : ℕ) (ids : List ℕ) → any (λ j. j == i) ids ≡ true → lookup_id i (read_all f ids) ≡ f i
  unfolding read_all lookup_id any
  lookup-read_all i [] h = cc
  lookup-read_all i (j ∷ ids) h = elim (Bool-cases (j == i)) [
    | inl same ↦
        let e : j ≡ i = ground (arith, same) in
        rw e (elim (Option-cases (f i)) [
          | inl missing ↦ rw missing (lookup_none i ids missing)
          | inr (a, there) ↦ rw there (rw (==_refl i, if◌then◌else◌))
        ])
    | inr other ↦
        let rest = lookup-read_all i ids (rw (other, if◌then◌else◌) at h) in
        elim (Option-cases (f j)) [
          | inl missing ↦ rw missing rest
          | inr (a, there) ↦ rw there (rw (other, if◌then◌else◌) rest)
        ]
  ]

module _ ⦃kv : Valkey⦄ where
  open kv use {Store}

  -- get_vm_states: an empty text counts as none.
  unfoldable pub get_vm_states : ℕ → List ℕ → Store → List (ℕ × String)
  unfolding read_all
  get_vm_states now ids c = read_all (λ i. nonempty (get_vm_state now i c)) ids

  -- get_vm_locks
  unfoldable pub get_vm_locks : ℕ → List ℕ → Store → List (ℕ × Lock)
  unfolding read_all
  get_vm_locks now ids c = read_all (λ i. get_vm_lock now i c) ids

  pub lookup-get_vm_states :
      (now i : ℕ) (ids : List ℕ) (c : Store)
      → any (λ j. j == i) ids ≡ true
      → lookup_id i (get_vm_states now ids c) ≡ nonempty (get_vm_state now i c)
  unfolding get_vm_states
  lookup-get_vm_states now i ids c h =
      lookup-read_all (λ j. nonempty (get_vm_state now j c)) i ids h
