-- ===== src/Inventory/Sync/Guids.antt =====
-- The GUIDs that the items of a snapshot name, and searches in rows that are written.
use open_v_center_backend.Prelude.{
  ℕ, String, ◌≡◌, refl, sym, ◌∙◌, Bool, true, false, none, some, List, [], ◌∷◌, ◌++◌, All, any,
  find, update_where, any-append, str_in, str_eq, eq_iff, Bool-cases, Option-cases, inl, inr, arith,
}
use open_v_center_backend.Json.{Dict}
use open_v_center_backend.Inventory.Values.{Python}
use open_v_center_backend.Inventory.Sync.Loop.{guid_of}

pub later :
    (u x : String) (us : List String)
    → str_eq x u ≡ false
    → str_in u (x ∷ us) ≡ true
    → str_in u us ≡ true
unfolding str_in
later u x us e h = ground (arith, e, h)

pub empty : {P : Type 0} → false ≡ true → P
empty h = cc

-- The GUIDs that the items of a snapshot name.
unfoldable pub guids : Python → List (ℕ × Dict) → List String
guids py [] = []
guids py (item ∷ items) = elim (guid_of py item) [
  | none ↦ guids py items
  | some u ↦ u ∷ guids py items
]

-- What every item of a snapshot has: its GUID is among those of the snapshot.
abbrev pub Named : Python → List String → ℕ × Dict → Type 0
Named py us item = (u : String) → guid_of py item ≡ some u → str_in u us ≡ true

pub str_in-cons : (u x : String) (us : List String) → str_in u us ≡ true → str_in u (x ∷ us) ≡ true
unfolding str_in
str_in-cons u x us h = ground (arith, h)

pub str_in-head : (u : String) (us : List String) → str_in u (u ∷ us) ≡ true
unfolding str_in
str_in-head u us = ground (arith, eq_iff u u)

Named-cons :
    (py : Python) (x : String) (us : List String) (items : List (ℕ × Dict))
    → All (Named py us) items
    → All (Named py (x ∷ us)) items
Named-cons py x us [] h = tt
Named-cons py x us (item ∷ items) h =
    (λ u e. str_in-cons u x us (h.0 u e), Named-cons py x us items h.1)

pub guids-unnamed :
    (py : Python) (item : ℕ × Dict) (items : List (ℕ × Dict))
    → guid_of py item ≡ none
    → guids py (item ∷ items) ≡ guids py items
unfolding guids
guids-unnamed py item items e = rw (e, guids) refl

pub guids-named :
    (py : Python) (item : ℕ × Dict) (items : List (ℕ × Dict)) (x : String)
    → guid_of py item ≡ some x
    → guids py (item ∷ items) ≡ x ∷ guids py items
unfolding guids
guids-named py item items x e = rw (e, guids) refl

Named-head :
    (py : Python) (item : ℕ × Dict) (x : String) (us : List String)
    → guid_of py item ≡ some x
    → Named py (x ∷ us) item
Named-head py item x us e u e' = elim (Bool-cases (str_eq x u)) [
  | inl t ↦ rw ((eq_iff x u).0 t) (str_in-head u us)
  | inr t ↦ differ (sym e ∙ e') t
]
  where
    differ : {P : Type 0} → some x ≡ some u → str_eq x u ≡ false → P
    differ a b = cc (a, b, (eq_iff x x).1 refl)

Named-same :
    (py : Python) (us us' : List String) (items : List (ℕ × Dict))
    → us' ≡ us
    → All (Named py us) items
    → All (Named py us') items
Named-same py us us' items e h = rw e h

pub Named-guids : (py : Python) (items : List (ℕ × Dict)) → All (Named py (guids py items)) items
Named-guids py [] = tt
Named-guids py (item ∷ items) = elim (Option-cases (guid_of py item)) [
  | inl e ↦
      Named-same py (guids py items) (guids py (item ∷ items)) (item ∷ items)
        (guids-unnamed py item items e) (λ u e'. absurd (sym e ∙ e'), Named-guids py items)
  | inr (x, e) ↦
      Named-same py (x ∷ guids py items) (guids py (item ∷ items)) (item ∷ items)
        (guids-named py item items x e)
        (
          Named-head py item x (guids py items) e,
          Named-cons py x (guids py items) items (Named-guids py items),
        )
]
  where
    absurd : {P : Type 0} {u : String} → none ≡ some u → P
    absurd e = cc

pub any-last {ℓ} :
    {A : Type ℓ} (q : A → Bool) (xs : List A) (y : A) → q y ≡ true → any q (xs ++ y ∷ []) ≡ true
unfolding any
any-last q xs y h = any-append q xs (y ∷ []) ∙ ground (arith, h)

pub any-weaken {ℓ} :
    {A : Type ℓ} (q p : A → Bool) (xs : List A)
    → ((x : A) → q x ≡ true → p x ≡ true)
    → any p xs ≡ false
    → any q xs ≡ false
unfolding any
any-weaken q p [] d h = refl
any-weaken q p (x ∷ xs) d h = ground (arith, d x, any-weaken q p xs d)

-- An update that keeps a condition.
pub any-update_where_kept {ℓ} :
    {A : Type ℓ} (q p : A → Bool) (f : A → A) (xs : List A)
    → ((x : A) → q x ≡ true → q (f x) ≡ true)
    → any q xs ≡ true
    → any q (update_where p f xs) ≡ true
unfolding any update_where
any-update_where_kept q p f [] d h = h
any-update_where_kept q p f (x ∷ xs) d h = ground (arith, d x, any-update_where_kept q p f xs d)

-- An update of the row that a search finds.
pub any-update_where_found {ℓ} :
    {A : Type ℓ} (k q p : A → Bool) (f : A → A) (xs : List A) (v : A)
    → find k xs ≡ some v
    → p v ≡ true
    → (k v ≡ true → q (f v) ≡ true)
    → any q (update_where p f xs) ≡ true
unfolding any update_where find
any-update_where_found k q p f [] v e m d = cc
any-update_where_found k q p f (x ∷ xs) v e m d =
    ground (arith, any-update_where_found k q p f xs v)
