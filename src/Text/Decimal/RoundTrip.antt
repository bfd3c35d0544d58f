-- ===== src/Text/Decimal/RoundTrip.antt =====
-- `int` reads what `str` prints.
use Prim.Native.Nat.{◌%◌}
use mathlib.Core.List.{reverse, reverse-append, reverse-reverse}
use open_v_center_backend.Prelude.{
  ℕ, zero, suc, ◌+◌, ◌-◌, ◌*◌, ◌/◌, ◌≤◌, ◌<◌, ◌≡◌, refl, ap, ◌∙◌, Bool, true, false, some, inl, inr,
  [], ◌∷◌, arith, ◌==◌, Bool-cases, All, All-append, All-map, if◌then◌else◌,
}
use open_v_center_backend.Text.{Text}
use open_v_center_backend.Text.Decimal.{pos, emit, str_of, is_digit, scan, signed, int_of}
use open_v_center_backend.Vms.Paths.{is_space, drop_while, rstrip, strip}

scan_digit :
    (bare : Bool) (d n : ℕ) (s : Text)
    → d < 10
    → scan bare ((b'0' + d) ∷ s) n ≡ scan false s (n * 10 + d)
unfolding scan
scan_digit true d n s h =
    let e : b'0' + d - b'0' ≡ d = omega arith in
    let y : is_digit (b'0' + d) ≡ true = ground arith in rw (y, if◌then◌else◌) (rw e)
scan_digit false d n s h =
    let e : b'0' + d - b'0' ≡ d = omega arith in
    let y : is_digit (b'0' + d) ≡ true = ground arith in rw (y, if◌then◌else◌) (rw e)

emit_step :
    (f n : ℕ) (out : Text) → 0 < n → emit (suc f) n out ≡ emit f (n / 10) ((b'0' + n % 10) ∷ out)
unfolding emit
emit_step f n out h = let e : (n == 0) ≡ false = ground arith in rw (e, if◌then◌else◌)

emit_none : (f : ℕ) (out : Text) → emit f 0 out ≡ out
unfolding emit
emit_none zero out = refl
emit_none (suc f) out = refl

scan-emit : (f n : ℕ) (out : Text) → 0 < n → n ≤ f → scan true (emit f n out) 0 ≡ scan false out n
scan-emit zero n out h k = absurd (omega arith)
scan-emit (suc f) n out h k = rw (emit_step f n out h) (elim (Bool-cases (n / 10 == 0)) [
  | inl last ↦
      let e : n / 10 ≡ 0 = ground arith in
      rw e (
        rw (emit_none f ((b'0' + n % 10) ∷ out))
          (scan_digit true (n % 10) 0 out (omega arith) ∙ ap (scan false out) (omega arith)))
  | inr more ↦
      scan-emit f (n / 10) ((b'0' + n % 10) ∷ out) (ground arith) (omega arith)
      ∙ scan_digit false (n % 10) (n / 10) out (omega arith)
      ∙ ap (scan false out) (omega arith)
])

emit-IsDigit :
    (f n : ℕ) (out : Text)
    → All (λ c. is_digit c ≡ true) out
    → All (λ c. is_digit c ≡ true) (emit f n out)
emit-IsDigit zero n out h = unfold emit in h
emit-IsDigit (suc f) n out h = elim (Bool-cases (n == 0)) [
  | inl done ↦ unfold emit in rw (done, if◌then◌else◌) h
  | inr more ↦
      rw (emit_step f n out (ground arith))
        (emit-IsDigit f (n / 10) ((b'0' + n % 10) ∷ out) (ground arith, h))
]

-- Every character of a printed number is a digit.
pub str_of_digits : (n : ℕ) → All (λ c. is_digit c ≡ true) (str_of n)
unfolding str_of
str_of_digits n = elim (Bool-cases (n == 0)) [
  | inl e ↦ rw (e, if◌then◌else◌) (refl, tt)
  | inr e ↦ rw (e, if◌then◌else◌) (emit-IsDigit n n [] tt)
]

pub scan-str_of : (n : ℕ) → scan true (str_of n) 0 ≡ some n
unfolding str_of
scan-str_of n = elim (Bool-cases (n == 0)) [
  | inl e ↦ let z : n ≡ 0 = ground arith in unfold scan in rw z
  | inr e ↦
      rw (e, if◌then◌else◌) (scan-emit n n [] (ground arith) (omega arith) ∙ (unfold scan in refl))
]

drop_while_kept : (p : ℕ → Bool) (s : Text) → All (λ c. p c ≡ false) s → drop_while p s ≡ s
unfolding drop_while
drop_while_kept p [] h = refl
drop_while_kept p (c ∷ s) h = rw (h.0, if◌then◌else◌)

All-reverse {κ} : (P : ℕ → Type κ) (s : Text) → All P s → All P (reverse s)
All-reverse P [] h = tt
All-reverse P (c ∷ s) h =
    rw (reverse-append (c ∷ []) s)
      (All-append P (reverse s) (c ∷ []) (All-reverse P s h.1) (h.0, tt))

-- A text without white space is stripped of nothing.
pub strip_kept : (p : ℕ → Bool) (s : Text) → All (λ c. p c ≡ false) s → strip p s ≡ s
unfolding strip rstrip
strip_kept p s h =
    rw (drop_while_kept p s h)
      (rw (drop_while_kept p (reverse s) (All-reverse (λ c. p c ≡ false) s h)) (reverse-reverse s))

digit_not_space : (c : ℕ) → is_digit c ≡ true → is_space c ≡ false
unfolding is_space
digit_not_space c h = ground arith

signed_digits :
    (s : Text)
    → All (λ c. is_digit c ≡ true) s
    → (n : ℕ) → scan true s 0 ≡ some n
    → signed s ≡ some (pos n)
unfolding signed
signed_digits [] h n e = unfold scan in cc
signed_digits (c ∷ s) h n e =
    let minus : (c == b'-') ≡ false = ground (arith, h.0) in
    let plus : (c == b'+') ≡ false = ground (arith, h.0) in
    rw (minus, if◌then◌else◌) (rw (plus, if◌then◌else◌) (rw e))

pub int_of-str_of : (n : ℕ) → int_of (str_of n) ≡ some (pos n)
unfolding int_of
int_of-str_of n =
    rw
      (strip_kept is_space (str_of n) (
        All-map (λ c. is_digit c ≡ true) (λ c. is_space c ≡ false) (str_of n) digit_not_space
          (str_of_digits n)))
      (signed_digits (str_of n) (str_of_digits n) n (scan-str_of n))

pub str_of_injective : (m n : ℕ) → str_of m ≡ str_of n → m ≡ n
str_of_injective m n e = ground (arith, scan-str_of m, scan-str_of n, e)
