-- ===== src/Text/Words.antt =====
-- What app/api/deps.py and app/services use of Python's `str` on whole texts.
use Prim.Native.Char.{code}
use Prim.Native.String.{◌++◌ as str_append}
use open_v_center_backend.Prelude.{
  ℕ, zero, suc, ◌+◌, leb, ◌&&◌, Option, none, some, String, ◌≡◌, refl, List, [], ◌∷◌, ◌==◌,
  if◌then◌else◌, str_eq,
}
use text.Mathlib.Text.{starts_with}
use open_v_center_backend.Vms.Paths.{is_space}

-- The parts of `s.split(c)`: the first one, and those behind the separators.
unfoldable pub split_first : ℕ → String → String × List String
split_first c String.[] = ("", [])
split_first c (String.◌∷◌ d s) =
    let (part, parts) = split_first c s in
    if code d == c then ("", part ∷ parts) else (String.◌∷◌ d part, parts)

abbrev pub parts_of : String × List String → List String
parts_of (part, parts) = part ∷ parts

unfoldable pub split : ℕ → String → List String
unfolding split_first
split c s = parts_of (split_first c s)

abbrev cons_word : String → List String → List String
cons_word w ws = if str_eq w "" then ws else w ∷ ws

unfoldable first_word : String → String × List String
unfolding is_space
first_word String.[] = ("", [])
first_word (String.◌∷◌ d s) =
    let (w, ws) = first_word s in
    if is_space (code d) then ("", cons_word w ws) else (String.◌∷◌ d w, ws)

abbrev words_of : String × List String → List String
words_of (w, ws) = cons_word w ws

-- `s.split()`
unfoldable pub words : String → List String
unfolding first_word
words s = words_of (first_word s)

-- `",".join(parts)`
unfoldable pub join_commas : List String → String
join_commas [] = ""
join_commas (p ∷ []) = p
join_commas (p ∷ (q ∷ ps)) = str_append p (str_append "," (join_commas (q ∷ ps)))

-- `s.replace(pattern, by)` for a pattern of `suc more` characters; the first argument counts the
-- characters of a match that are still to be passed over.
unfoldable pub replace : ℕ → ℕ → String → String → String → String
replace skip more pattern by String.[] = ""
replace (suc skip) more pattern by (String.◌∷◌ d s) = replace skip more pattern by s
replace zero more pattern by (String.◌∷◌ d s) =
    let found = str_append by (replace more more pattern by s) in
    let kept = String.◌∷◌ d (replace zero more pattern by s) in
    if starts_with (String.◌∷◌ d s) pattern then found else kept

unfoldable lstrip : String → String
unfolding is_space
lstrip String.[] = ""
lstrip (String.◌∷◌ d s) = if is_space (code d) then lstrip s else String.◌∷◌ d s

unfoldable rstrip : String → String
unfolding is_space
rstrip String.[] = ""
rstrip (String.◌∷◌ d s) =
    let rest = rstrip s in if is_space (code d) && str_eq rest "" then "" else String.◌∷◌ d rest

-- `s.strip()`
unfoldable pub strip : String → String
unfolding lstrip rstrip
strip s = rstrip (lstrip s)

abbrev lower : ℕ → ℕ
lower c = if leb b'A' c && leb c b'Z' then c + 32 else c

-- What follows a prefix of lower-case ASCII, found in the text's lower case.
unfoldable pub after_prefix : List ℕ → String → Option String
after_prefix [] s = some s
after_prefix (c ∷ p) String.[] = none
after_prefix (c ∷ p) (String.◌∷◌ d s) =
    let rest = after_prefix p s in if lower (code d) == c then rest else none

split_claim : split b'.' "a.b" ≡ "a" ∷ ("b" ∷ [])
unfolding split
split_claim = refl

two_words : words " ops  view" ≡ "ops" ∷ ("view" ∷ [])
unfolding words
two_words = refl

replaced_client : replace 0 2 "${c" "x" "a.${c.r" ≡ "a.x.r"
unfolding replace
replaced_client = refl
