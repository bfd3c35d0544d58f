-- ===== src/Vms/Paths.antt =====
-- The path helpers of app/services/vms.py. A path is the list of its code points.
use Prim.Native.Char.{code}
use mathlib.Core.List.{reverse}
use open_v_center_backend.Prelude.{
  ℕ, ◌+◌, String, ◌≡◌, refl, Bool, true, false, not, ◌&&◌, ◌||◌, Option, none, some, List, [], ◌∷◌,
  map, leb, ◌==◌, if◌then◌else◌,
}

abbrev pub codes : String → List ℕ
codes String.[] = []
codes (String.◌∷◌ c s) = code c ∷ codes s

-- `str.isspace` of one character
unfoldable pub is_space : ℕ → Bool
is_space c =
    (leb 9 c && leb c 13)
    || (leb 28 c && leb c 32)
    || c == 0x85
    || c == 0xa0
    || c == 0x1680
    || (leb 0x2000 c && leb c 0x200a)
    || c == 0x2028
    || c == 0x2029
    || c == 0x202f
    || c == 0x205f
    || c == 0x3000

-- `s.lstrip()` for the characters of a test
unfoldable pub drop_while : (ℕ → Bool) → List ℕ → List ℕ
drop_while p [] = []
drop_while p (c ∷ s) = let rest = drop_while p s in if p c then rest else c ∷ s

unfoldable pub rstrip : (ℕ → Bool) → List ℕ → List ℕ
unfolding drop_while
rstrip p s = reverse (drop_while p (reverse s))

unfoldable pub strip : (ℕ → Bool) → List ℕ → List ℕ
unfolding rstrip
strip p s = rstrip p (drop_while p s)

abbrev pub is_backslash : ℕ → Bool
is_backslash c = c == 92

abbrev slash_to_backslash : ℕ → ℕ
slash_to_backslash c = if c == 47 then 92 else c

-- _norm_path
unfoldable pub norm_path : List ℕ → List ℕ
unfolding strip is_space
norm_path path = rstrip is_backslash (map slash_to_backslash (strip is_space path))

-- What `[a-z]` matches in a text pattern under IGNORECASE: the ASCII letters and four others.
unfoldable pub is_letter : ℕ → Bool
is_letter c =
    (leb b'a' c && leb c b'z')
    || (leb b'A' c && leb c b'Z')
    || c == 0x130
    || c == 0x131
    || c == 0x17f
    || c == 0x212a

-- A letter of the pattern `l`, given in lower case, under IGNORECASE: the long s counts as an s.
unfoldable pub same_letter : ℕ → ℕ → Bool
same_letter l c = c == l || (leb b'a' l && leb l b'z' && c + 32 == l) || (l == b's' && c == 0x17f)

-- The rest after a literal that the text begins with.
unfoldable pub after_literal : List ℕ → List ℕ → Option (List ℕ)
after_literal [] s = some s
after_literal (l ∷ ls) [] = none
after_literal (l ∷ ls) (c ∷ s) =
    let rest = after_literal ls s in if same_letter l c then rest else none

-- `[^\\]+` at the head of the rest.
abbrev has_component : Option (List ℕ) → Bool
has_component none = false
has_component (some []) = false
has_component (some (c ∷ s)) = not (is_backslash c)

-- _is_csv_path: `^[a-z]:\\clusterstorage\\[^\\]+`
unfoldable pub is_csv_path : List ℕ → Bool
unfolding is_letter same_letter after_literal
is_csv_path [] = false
is_csv_path (c ∷ s) = is_letter c && has_component (after_literal (codes ":\\clusterstorage\\") s)

-- _is_system_drive
unfoldable pub is_system_drive : List ℕ → Bool
unfolding is_csv_path
is_system_drive (c ∷ d ∷ s) = (c == b'c' || c == b'C') && d == 58 && not (is_csv_path (c ∷ d ∷ s))
is_system_drive _ = false

csv_accepted : is_csv_path (codes "C:\\ClusterStorage\\Volume2") ≡ true
unfolding is_csv_path
csv_accepted = refl

csv_needs_volume : is_csv_path (codes "C:\\ClusterStorage\\") ≡ false
unfolding is_csv_path
csv_needs_volume = refl

norm_path_strips : norm_path (codes " c:/vms/ ") ≡ codes "c:\\vms"
unfolding norm_path
norm_path_strips = refl
