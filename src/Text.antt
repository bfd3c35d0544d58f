-- ===== src/Text.antt =====
-- Texts by their code points, for the code that takes them apart: what app/services/agent_store.py,
-- app/services/hosts.py and app/api/deps.py use of Python's `str` and `int`.
pub mod Decimal
pub mod Laws
pub mod Words
use open_v_center_backend.Prelude.{
  ℕ, ◌+◌, ◌-◌, Bool, true, false, Option, none, some, List, [], ◌∷◌, ◌++◌, map, leb, ◌==◌, ◌&&◌,
  if◌then◌else◌,
}

abbrev pub Text : Type 0
Text = List ℕ

-- `a == b`
unfoldable pub text_eq : Text → Text → Bool
text_eq [] [] = true
text_eq [] (d ∷ t) = false
text_eq (c ∷ s) [] = false
text_eq (c ∷ s) (d ∷ t) = if c == d then text_eq s t else false

-- `s.startswith(p)`
unfoldable pub starts_with : Text → Text → Bool
starts_with s [] = true
starts_with [] (d ∷ p) = false
starts_with (c ∷ s) (d ∷ p) = if c == d then starts_with s p else false

-- `not s`
abbrev pub is_empty : Text → Bool
is_empty [] = true
is_empty (c ∷ s) = false

-- `s.isascii()`
unfoldable pub is_ascii : Text → Bool
is_ascii [] = true
is_ascii (c ∷ s) = if leb c 127 then is_ascii s else false
