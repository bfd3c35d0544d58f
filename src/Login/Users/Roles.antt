-- ===== src/Login/Users/Roles.antt =====
-- How roles come back from the column that joins them.
use Prim.Native.Char.{code}
use Prim.Native.String.{◌++◌ as str_append}
use text.Mathlib.TextLemmas.{nil-append, cons-append, append-eq-nil_iff}
use open_v_center_backend.Prelude.{
  ℕ, String, ◌≡◌, ◌≢◌, refl, ap, ◌∙◌, false, List, [], ◌∷◌, ◌==◌, arith, All, All-map, inl, inr,
  Bool-cases, if◌then◌else◌, str_eq, eq_iff,
}
use open_v_center_backend.Text.Words.{split_first, parts_of, split, join_commas}
use open_v_center_backend.Login.Users.{stored_roles}

-- A text without a character.
abbrev pub Lacks : ℕ → String → Type 0
Lacks c String.[] = Unit
Lacks c (String.◌∷◌ d s) = ((code d == c) ≡ false) × Lacks c s

split_first-Lacks : (c : ℕ) (s : String) → Lacks c s → split_first c s ≡ (s, [])
unfolding split_first
split_first-Lacks c String.[] h = refl
split_first-Lacks c (String.◌∷◌ d s) h = rw (h.0, if◌then◌else◌) (rw (split_first-Lacks c s h.1))

split_first-append :
    (s t : String)
    → Lacks b',' s
    → split_first b',' (str_append s (str_append "," t)) ≡ (s, parts_of (split_first b',' t))
unfolding split_first
split_first-append String.[] t h = rw (nil-append (str_append "," t)) (
    let e : str_append "," t ≡ String.◌∷◌ "," t =
      cons-append "," "" t ∙ ap (String.◌∷◌ ",") (nil-append t) in
    rw e)
split_first-append (String.◌∷◌ d s) t h =
    rw (cons-append d s (str_append "," t))
      (rw (h.0, if◌then◌else◌) (rw (split_first-append s t h.1)))

split-join :
    (r : String) (rs : List String)
    → All (Lacks b',') (r ∷ rs)
    → split b',' (join_commas (r ∷ rs)) ≡ r ∷ rs
unfolding split join_commas
split-join r [] h = rw (split_first-Lacks b',' r h.0)
split-join r (q ∷ rs) h =
    rw (split_first-append r (join_commas (q ∷ rs)) h.0) (ap (λ l. r ∷ l) (split-join q rs h.1))

join_nonempty :
    (r : String) (rs : List String) → r ≢ "" → (str_eq (join_commas (r ∷ rs)) "") ≡ false
unfolding join_commas
join_nonempty r [] h = ground (arith, eq_iff r "", h)
join_nonempty r (q ∷ rs) h =
    let tail = str_append "," (join_commas (q ∷ rs)) in
    elim (Bool-cases (str_eq (str_append r tail) "")) [
      | inr e ↦ e
      | inl e ↦ absurd (h (append-eq-nil_iff.0 ((eq_iff (str_append r tail) "").0 e)).0)
    ]

-- A role that the column can hold: not empty, and without a comma.
abbrev pub Plain : String → Type 0
Plain r = (r ≢ "") × Lacks b',' r

-- Plain roles are stored as they are.
pub stored_roles-Plain : (rs : List String) → All Plain rs → stored_roles rs ≡ rs
unfolding stored_roles
stored_roles-Plain [] h = unfold join_commas in refl
stored_roles-Plain (r ∷ rs) h =
    rw (join_nonempty r rs h.0.0)
      (split-join r rs (h.0.1, All-map Plain (Lacks b',') rs (λ x p. p.1) h.1))
