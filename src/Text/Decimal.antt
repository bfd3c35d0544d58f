-- ===== src/Text/Decimal.antt =====
-- `str(n)` of a natural number, and `int(s)` of a text. Of the decimal digits beyond ASCII and of the
-- limit of 4300 digits nothing is modelled.
pub mod RoundTrip
use Prim.Native.Nat.{◌%◌}
use open_v_center_backend.Prelude.{
  ℕ, zero, suc, ◌+◌, ◌-◌, ◌*◌, ◌/◌, ◌≡◌, refl, Bool, true, false, not, ◌&&◌, Option, none, some,
  List, [], ◌∷◌, leb, ◌==◌, if◌then◌else◌,
}
use open_v_center_backend.Text.{Text}
use open_v_center_backend.Vms.Paths.{codes, is_space, strip}

-- `negsuc n` is -(n + 1).
pub data ℤ : Type 0 where
  pos : ℕ → ℤ
  negsuc : ℕ → ℤ

-- The digits of `n` before `out`; `n` rounds are enough.
unfoldable pub emit : ℕ → ℕ → Text → Text
emit zero n out = out
emit (suc f) n out =
    let rest = emit f (n / 10) ((b'0' + n % 10) ∷ out) in if n == 0 then out else rest

-- `str(n)`
unfoldable pub str_of : ℕ → Text
unfolding emit
str_of n = if n == 0 then b'0' ∷ [] else emit n n []

abbrev pub is_digit : ℕ → Bool
is_digit c = leb b'0' c && leb c b'9'

-- The digits of a number behind `n`; `bare` at the start and behind an underscore, where a digit must
-- follow.
unfoldable pub scan : Bool → Text → ℕ → Option ℕ
scan true [] n = none
scan false [] n = some n
scan bare (c ∷ s) n =
    let digit = scan false s (n * 10 + (c - b'0')) in
    let underscore = scan true s n in
    if is_digit c then digit else if (c == b'_') && not bare then underscore else none

abbrev positive : Option ℕ → Option ℤ
positive none = none
positive (some n) = some (pos n)

abbrev negative : Option ℕ → Option ℤ
negative none = none
negative (some zero) = some (pos 0)
negative (some (suc n)) = some (negsuc n)

unfoldable pub signed : Text → Option ℤ
unfolding scan
signed [] = none
signed (c ∷ s) =
    if c == b'-'
    then negative (scan true s 0)
    else if c == b'+'
    then positive (scan true s 0)
    else positive (scan true (c ∷ s) 0)

-- `int(s)`; none is a ValueError.
unfoldable pub int_of : Text → Option ℤ
unfolding signed
int_of s = signed (strip is_space s)

str_of_now : str_of 1764200000 ≡ codes "1764200000"
unfolding str_of
str_of_now = refl

int_of_spaced : int_of (codes " 1_0 ") ≡ some (pos 10)
unfolding int_of strip is_space
int_of_spaced = refl

int_of_signed : int_of (codes "-7") ≡ some (negsuc 6)
unfolding int_of strip is_space
int_of_signed = refl

int_of_word : int_of (codes "1__0") ≡ none
unfolding int_of strip is_space
int_of_word = refl
