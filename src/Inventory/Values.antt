-- ===== src/Inventory/Values.antt =====
-- The value helpers of app/services/inventory.py (_first, _as_int, _mib_to_bytes, _split_ips, …), and
-- what they take from Python's library.
use open_v_center_backend.Prelude.{
  ℕ, ◌+◌, String, Bool, false, not, Option, none, some, List, [], ◌∷◌, length, leb, str_eq,
  rows_where, nonempty, if◌then◌else◌, ◌==◌, ◌&&◌,
}
use open_v_center_backend.Json.{
  Json, null, bool, num, str, arr, obj, Items, nil, cons, Dict, get, pop, truthy, as_text,
}
use open_v_center_backend.Models.VmRows.{Float}

-- Functions of Python's library.
pub record Python : Type 0 where
  -- `int(round(float(v) * k))`, or None where that raises a TypeError or a ValueError
  pub rounded : ℕ → Json → Option ℕ
  pub float : Json → Option Float
  -- `int(float(v))`, or None where that raises, and `float(v)` or 0.0 as a JSON number
  pub truncated : Json → Option ℕ
  pub percent : Option Json → Json
  -- `str(v)` of a value that is no text
  pub show : Json → String
  -- `datetime.fromisoformat(s.replace("Z", "+00:00"))`, or None for its ValueError
  pub fromisoformat : String → Option ℕ
  pub upper : String → String
  pub lower : String → String
  pub strip : String → String
  -- `s[:255]`
  pub first_255 : String → String
  -- `re.split(r"[,;\s]+", s)`
  pub split : String → List String
  -- `base64.b64decode(s, validate=True)`, or None for its ValueError
  pub b64decode : String → Option (List ℕ)

abbrev pub mib : ℕ
mib = 1048576

abbrev pub gib : ℕ
gib = 1073741824

-- `d.get(k)`, with None for a null as for a missing key.
abbrev pub present : Option Json → Option Json
present none = none
present (some null) = none
present (some (bool b)) = some (bool b)
present (some (num n)) = some (num n)
present (some (str s)) = some (str s)
present (some (arr l)) = some (arr l)
present (some (obj d)) = some (obj d)

unfoldable pub field : String → Dict → Option Json
field k d = present (get k d)

-- `a or b`
abbrev pub or_json : Option Json → Option Json → Option Json
or_json none b = b
or_json (some v) b = if truthy v then some v else b

abbrev pub truth : Option Json → Bool
truth none = false
truth (some v) = truthy v

abbrev pub or_zero : Option ℕ → ℕ
or_zero none = 0
or_zero (some n) = n

-- _first
unfoldable pub first : Dict → List String → Option Json
unfolding field
first d [] = none
first d (k ∷ ks) = let rest = first d ks in elim (field k d) [ none ↦ rest | some v ↦ some v ]

-- A value for a numeric, a Boolean, or a text column.
unfoldable pub number : Option Json → Option ℕ
number (some (num n)) = some n
number _ = none

unfoldable pub flag : Option Json → Option Bool
flag (some (bool b)) = some b
flag _ = none

-- `x or ""`, `x or None` on a text
abbrev pub text_or_empty : Option Json → String
text_or_empty o = elim (as_text o) [ none ↦ "" | some s ↦ s ]

abbrev pub text_or_none : Option Json → Option String
text_or_none o = nonempty (as_text o)

-- The elements of a list that are dicts.
unfoldable pub dicts_in : Items → List Dict
dicts_in nil = []
dicts_in (cons (obj d) xs) = d ∷ dicts_in xs
dicts_in (cons x xs) = dicts_in xs

unfoldable pub dict_list : Option Json → List Dict
unfolding dicts_in
dict_list (some (arr xs)) = dicts_in xs
dict_list _ = []

module _ (py : Python) where
  -- _as_int, _as_float, _mib_to_bytes
  abbrev pub as_int : Option Json → Option ℕ
  as_int none = none
  as_int (some v) = py.rounded 1 v

  abbrev pub as_float : Option Json → Option Float
  as_float none = none
  as_float (some v) = py.float v

  abbrev pub mib_to_bytes : Option Json → Option ℕ
  mib_to_bytes none = none
  mib_to_bytes (some v) = py.rounded mib v

  -- `str(v)`
  abbrev pub text_of : Json → String
  text_of (str s) = s
  text_of v = py.show v

  -- _parse_dt
  unfoldable pub parse_dt : Option Json → Option ℕ
  parse_dt none = none
  parse_dt (some v) = if truthy v then py.fromisoformat (text_of v) else none

  -- _split_ips
  unfoldable texts_in : Items → List String
  texts_in nil = []
  texts_in (cons v xs) = let rest = texts_in xs in if truthy v then text_of v ∷ rest else rest

  unfoldable pub split_ips : Option Json → List String
  unfolding texts_in
  split_ips (some (arr xs)) = texts_in xs
  split_ips (some (str s)) = rows_where (λ p. not (str_eq p "")) (py.split s)
  split_ips _ = []

  -- _firmware_of
  unfoldable pub firmware_of : Dict → String
  unfolding field
  firmware_of item =
      let fw =
        py.upper (elim (or_json (field "firmware" item) none) [ none ↦ "" | some v ↦ text_of v ]) in
      if str_eq fw "BIOS"
      then "BIOS"
      else if str_eq fw "UEFI"
      then "UEFI"
      else if is_one (field "generation" item)
      then "BIOS"
      else "UEFI"
    where
      is_one : Option Json → Bool
      is_one (some (num n)) = n == 1
      is_one (some (bool b)) = b
      is_one _ = false

  -- A decoded image that is a JPEG of at most MAX_THUMBNAIL_BYTES.
  abbrev pub is_jpeg : List ℕ → Bool
  is_jpeg (a ∷ b ∷ c ∷ s) = (a == 255) && ((b == 216) && ((c == 255) && leb (length s + 3) 262144))
  is_jpeg _ = false

  abbrev pub kept_image : Option (List ℕ) → Option (List ℕ)
  kept_image none = none
  kept_image (some image) = if is_jpeg image then some image else none

  -- _pop_thumbnail: the item without the image, and the image.
  unfoldable pub pop_thumbnail : Dict → Dict × Option (List ℕ)
  pop_thumbnail raw = (
    pop "thumbnail" raw,
    elim (text_or_none (get "thumbnail" raw)) [
      | none ↦ none
      | some s ↦ kept_image (py.b64decode s)
    ],
  )
