-- ===== src/Prelude/Lists.antt =====
-- Tables as lists of rows: the queries that the services build, over any row type.
use Prim.Native.Nat.{ℕ, suc}
use Prim.Native.Nat.{◌+◌, ◌≤◌}
use Prim.Native.String.{String}
use mathlib.Core.Path.{◌≡◌, refl}
use mathlib.Core.Logic.{inl, inr}
use mathlib.Core.Bool.{Bool, true, false}
use mathlib.Core.Option.{Option, none, some}
use mathlib.Core.List.{List, [], ◌∷◌, ◌++◌}
use native.Mathlib.Omega.{arith}
use text.Mathlib.Text.{◌==◌ as str_eq}
use open_v_center_backend.Prelude.Tests.{if◌then◌else◌, Bool-cases, is_some}

-- `k in (…)` on texts.
unfoldable pub str_in : String → List String → Bool
str_in k [] = false
str_in k (x ∷ xs) = if str_eq x k then true else str_in k xs

module _ {ℓ} {A : Type ℓ} where
  abbrev pub length : List A → ℕ
  length [] = 0
  length (x ∷ xs) = suc (length xs)

  -- The first row that a `where` clause keeps.
  unfoldable pub find : (A → Bool) → List A → Option A
  find p [] = none
  find p (x ∷ xs) = if p x then some x else find p xs

  -- The rows that a `where` clause keeps.
  unfoldable pub rows_where : (A → Bool) → List A → List A
  rows_where p [] = []
  rows_where p (x ∷ xs) = let rest = rows_where p xs in if p x then x ∷ rest else rest

  -- `update(T).where(p).values(…)`, and an assignment to a loaded row.
  unfoldable pub update_where : (A → Bool) → (A → A) → List A → List A
  update_where p f [] = []
  update_where p f (x ∷ xs) = (if p x then f x else x) ∷ update_where p f xs

  -- `delete(T).where(p)`
  unfoldable pub delete_where : (A → Bool) → List A → List A
  delete_where p [] = []
  delete_where p (x ∷ xs) = let rest = delete_where p xs in if p x then rest else x ∷ rest

  unfoldable pub any : (A → Bool) → List A → Bool
  any p [] = false
  any p (x ∷ xs) = if p x then true else any p xs

  -- How many rows a `where` clause keeps.
  unfoldable pub count : (A → Bool) → List A → ℕ
  count p [] = 0
  count p (x ∷ xs) = if p x then suc (count p xs) else count p xs

  -- Every row satisfies a predicate.
  abbrev pub All {κ} : (A → Type κ) → List A → Type κ
  All P [] = Unit
  All P (x ∷ xs) = P x × All P xs

module _ {ℓ κ} {A : Type ℓ} (P : A → Type κ) where
  -- What an update must show of the rows it touches, to keep a predicate of all rows.
  pub All-update_where :
      (p : A → Bool) (f : A → A) (xs : List A)
      → ((x : A) → p x ≡ true → P x → P (f x))
      → All P xs
      → All P (update_where p f xs)
  unfolding update_where
  All-update_where p f [] step h = tt
  All-update_where p f (x ∷ xs) step h = elim (Bool-cases (p x)) [
    | inl e ↦ rw e (step x e h.0, All-update_where p f xs step h.1)
    | inr e ↦ rw e (h.0, All-update_where p f xs step h.1)
  ]

  pub All-delete_where : (p : A → Bool) (xs : List A) → All P xs → All P (delete_where p xs)
  unfolding delete_where
  All-delete_where p [] h = tt
  All-delete_where p (x ∷ xs) h = elim (Bool-cases (p x)) [
    | inl e ↦ rw e (All-delete_where p xs h.1)
    | inr e ↦ rw e (h.0, All-delete_where p xs h.1)
  ]

  pub All-append : (xs ys : List A) → All P xs → All P ys → All P (xs ++ ys)
  All-append [] ys hx hy = hy
  All-append (x ∷ xs) ys hx hy = (hx.0, All-append xs ys hx.1 hy)

module _ {ℓ} {A : Type ℓ} where
  -- After a delete no row of the condition is left.
  pub any-delete_where : (p : A → Bool) (xs : List A) → any p (delete_where p xs) ≡ false
  unfolding any delete_where
  any-delete_where p [] = refl
  any-delete_where p (x ∷ xs) = elim (Bool-cases (p x)) [
    | inl e ↦ rw e (any-delete_where p xs)
    | inr e ↦ rw e (rw e (any-delete_where p xs))
  ]

  pub find-any : (p : A → Bool) (xs : List A) → any p xs ≡ false → find p xs ≡ none
  unfolding any find
  find-any p [] h = refl
  find-any p (x ∷ xs) h = ground (arith, find-any p xs)

  pub count-append :
      (p : A → Bool) (xs : List A) (y : A)
      → count p (xs ++ y ∷ []) ≡ count p xs + (if p y then 1 else 0)
  unfolding count
  count-append p [] y = ground arith
  count-append p (x ∷ xs) y = ground (arith, count-append p xs y)

  pub count_of_find : (p : A → Bool) (xs : List A) → find p xs ≡ none → count p xs ≡ 0
  unfolding count find
  count_of_find p [] h = refl
  count_of_find p (x ∷ xs) h = ground (arith, count_of_find p xs)

  -- An update that a test does not see.
  pub any-update_where :
      (q p : A → Bool) (f : A → A) (xs : List A)
      → ((x : A) → q (f x) ≡ q x)
      → any q (update_where p f xs) ≡ any q xs
  unfolding any update_where
  any-update_where q p f [] h = refl
  any-update_where q p f (x ∷ xs) h = ground (arith, h x, any-update_where q p f xs h)

  pub any-append :
      (q : A → Bool) (xs ys : List A) → any q (xs ++ ys) ≡ (if any q xs then true else any q ys)
  unfolding any
  any-append q [] ys = refl
  any-append q (x ∷ xs) ys = ground (arith, any-append q xs ys)

  pub any-find : (q : A → Bool) (xs : List A) → any q xs ≡ is_some (find q xs)
  unfolding any find
  any-find q [] = refl
  any-find q (x ∷ xs) = ground (arith, any-find q xs)

  -- An update that only takes rows out of a condition does not raise its count.
  pub count-update_where :
      (q p : A → Bool) (f : A → A) (xs : List A)
      → ((x : A) → p x ≡ true → q (f x) ≡ true → q x ≡ true)
      → count q (update_where p f xs) ≤ count q xs
  unfolding count update_where
  count-update_where q p f [] h = omega arith
  count-update_where q p f (x ∷ xs) h = ground (arith, count-update_where q p f xs h, h x)

  pub find-append :
      (p : A → Bool) (xs ys : List A)
      → find p (xs ++ ys) ≡ (if any p xs then find p xs else find p ys)
  unfolding find any
  find-append p [] ys = refl
  find-append p (x ∷ xs) ys = ground (arith, find-append p xs ys)

  -- Reading back an updated row, where the update keeps it in the condition.
  pub find-update_where :
      (p : A → Bool) (f : A → A) (xs : List A) (x : A)
      → ((y : A) → p y ≡ true → p (f y) ≡ true)
      → find p xs ≡ some x
      → find p (update_where p f xs) ≡ some (f x)
  unfolding find update_where
  find-update_where p f [] y keep h = cc
  find-update_where p f (x ∷ xs) y keep h = ground (arith, find-update_where p f xs y keep, keep x)

  pub find_sound : (p : A → Bool) (xs : List A) (x : A) → find p xs ≡ some x → p x ≡ true
  unfolding find
  find_sound p [] x h = cc
  find_sound p (y ∷ xs) x h = ground (arith, find_sound p xs x)

  -- A row outlives a delete that does not name it.
  pub find-delete_where :
      (q p : A → Bool) (xs : List A) (x : A)
      → find q xs ≡ some x
      → p x ≡ false
      → find q (delete_where p xs) ≡ some x
  unfolding find delete_where
  find-delete_where q p [] x h k = cc
  find-delete_where q p (y ∷ xs) x h k = ground (arith, find-delete_where q p xs x)

  -- An update of other rows is not seen by a query.
  pub find-update_where_ne :
      (q p : A → Bool) (f : A → A) (xs : List A)
      → ((y : A) → p y ≡ true → (q y ≡ false) × (q (f y) ≡ false))
      → find q (update_where p f xs) ≡ find q xs
  unfolding find update_where
  find-update_where_ne q p f [] h = refl
  find-update_where_ne q p f (y ∷ xs) h = ground (arith, find-update_where_ne q p f xs h, h y)

module _ {ℓ κ} {A : Type ℓ} (P Q : A → Type κ) where
  -- All rows satisfy `Q` after an update, if the changed rows do and the others did satisfy `P`.
  pub All-update :
      (p : A → Bool) (f : A → A) (xs : List A)
      → ((x : A) → p x ≡ true → P x → Q (f x))
      → ((x : A) → p x ≡ false → P x → Q x)
      → All P xs
      → All Q (update_where p f xs)
  unfolding update_where
  All-update p f [] changed kept h = tt
  All-update p f (x ∷ xs) changed kept h = elim (Bool-cases (p x)) [
    | inl e ↦ rw e (changed x e h.0, All-update p f xs changed kept h.1)
    | inr e ↦ rw e (kept x e h.0, All-update p f xs changed kept h.1)
  ]

  pub All-delete :
      (p : A → Bool) (xs : List A)
      → ((x : A) → p x ≡ false → P x → Q x)
      → All P xs
      → All Q (delete_where p xs)
  unfolding delete_where
  All-delete p [] kept h = tt
  All-delete p (x ∷ xs) kept h = elim (Bool-cases (p x)) [
    | inl e ↦ rw e (All-delete p xs kept h.1)
    | inr e ↦ rw e (kept x e h.0, All-delete p xs kept h.1)
  ]

  pub All-map : (xs : List A) → ((x : A) → P x → Q x) → All P xs → All Q xs
  All-map [] f h = tt
  All-map (x ∷ xs) f h = (f x h.0, All-map xs f h.1)

-- What a found row satisfies.
pub All-find {ℓ κ} :
    {A : Type ℓ} (P : A → Type κ) (q : A → Bool) (xs : List A) (x : A)
    → All P xs
    → find q xs ≡ some x
    → (y : A) × (y ≡ x) × P y
unfolding find
All-find P q [] x h e = cc
All-find P q (y ∷ xs) x h e = elim (Bool-cases (q y)) [
  | inl hit ↦ (y, ground (arith, hit), h.0)
  | inr miss ↦ All-find P q xs x h.1 (ground (arith, miss))
]

module _ {ℓ} {A : Type ℓ} where
  -- A row that is found is found as updated, where the update keeps every row's condition.
  pub find-updated :
      (p q : A → Bool) (f : A → A) (xs : List A) (x : A)
      → ((y : A) → p (f y) ≡ p y)
      → find p xs ≡ some x
      → q x ≡ true
      → find p (update_where q f xs) ≡ some (f x)
  unfolding find update_where
  find-updated p q f [] x keep h hit = cc
  find-updated p q f (y ∷ xs) x keep h hit = ground (arith, keep y, find-updated p q f xs x keep)
