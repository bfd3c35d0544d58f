-- ===== src/Text/Laws.antt =====
-- Equality of texts, and where the digits behind the last dot of a text begin.
use open_v_center_backend.Prelude.{ℕ, ◌≡◌, ◌≢◌, refl, ◌↔◌, true, [], ◌∷◌, ◌++◌, arith, All}
use open_v_center_backend.Text.{Text, text_eq}

pub text_eq_sound : (s t : Text) → text_eq s t ≡ true → s ≡ t
unfolding text_eq
text_eq_sound [] [] h = refl
text_eq_sound [] (d ∷ t) h = cc
text_eq_sound (c ∷ s) [] h = cc
text_eq_sound (c ∷ s) (d ∷ t) h = ground (arith, text_eq_sound s t)

pub text_eq_refl : (s : Text) → text_eq s s ≡ true
unfolding text_eq
text_eq_refl [] = refl
text_eq_refl (c ∷ s) = ground (arith, text_eq_refl s)

pub text_eq_iff : (s t : Text) → (text_eq s t ≡ true) ↔ (s ≡ t)
text_eq_iff s t = (text_eq_sound s t, λ e. rw e (text_eq_refl t))

pub append_cancel : (p s t : Text) → p ++ s ≡ p ++ t → s ≡ t
append_cancel [] s t h = h
append_cancel (c ∷ p) s t h = append_cancel p s t (cc)

-- A text of characters that are not `c` has no `c` in it.
no_separator : (c : ℕ) (s u v : Text) → All (λ x. x ≢ c) s → s ≢ u ++ (c ∷ v)
no_separator c [] [] v h e = cc
no_separator c [] (y ∷ u) v h e = cc
no_separator c (x ∷ s) [] v h e = h.0 (cc)
no_separator c (x ∷ s) (y ∷ u) v h e = no_separator c s u v h.1 (cc)

-- What stands before and behind the last separator of a text.
pub last_separator :
    (c : ℕ) (s t u v : Text)
    → All (λ x. x ≢ c) u
    → All (λ x. x ≢ c) v
    → s ++ (c ∷ u) ≡ t ++ (c ∷ v)
    → (s ≡ t) × (u ≡ v)
last_separator c [] [] u v hu hv e = (refl, cc)
last_separator c [] (y ∷ t) u v hu hv e = absurd (no_separator c u t v hu (cc))
last_separator c (x ∷ s) [] u v hu hv e = absurd (no_separator c v s u hv (cc))
last_separator c (x ∷ s) (y ∷ t) u v hu hv e =
    let ih = last_separator c s t u v hu hv (cc) in (cc ih.0, ih.1)
