-- ===== src/Json.antt =====
-- JSON values as `json.loads` gives them: the agent's envelopes, the JSONB columns, and request
-- parameters. A dict is the list of its entries in insertion order. Numbers are the naturals that
-- the modelled fields carry.
use open_v_center_backend.Prelude.{
  ℕ, String, ◌≡◌, refl, Bool, true, false, Option, none, some, arith, str_eq, eq_iff, ◌==◌,
  if◌then◌else◌,
}

mutual
  pub data Json : Type 0 where
    null : Json
    bool : Bool → Json
    num : ℕ → Json
    str : String → Json
    arr : Items → Json
    obj : Dict → Json

  pub data Items : Type 0 where
    nil : Items
    cons : Json → Items → Items

  pub data Dict : Type 0 where
    end : Dict
    entry : String → Json → Dict → Dict

-- `d.get(k)`; None where the key is missing.
unfoldable pub get : String → Dict → Option Json
get k end = none
get k (entry j v d) = if str_eq j k then some v else get k d

-- `d[k] = v`: an existing key keeps its place.
unfoldable pub put : String → Json → Dict → Dict
put k v end = entry k v end
put k v (entry j w d) = if str_eq j k then entry j v d else entry j w (put k v d)

-- `k in d`
unfoldable pub has_key : String → Dict → Bool
has_key k end = false
has_key k (entry j v d) = if str_eq j k then true else has_key k d

-- `d.pop(k, None)`
unfoldable pub pop : String → Dict → Dict
pop k end = end
pop k (entry j v d) = let rest = pop k d in if str_eq j k then rest else entry j v rest

-- `bool(x)`: None, False, 0, the empty text and the empty containers are false.
unfoldable pub truthy : Json → Bool
truthy null = false
truthy (bool b) = b
truthy (num n) = if n == 0 then false else true
truthy (str s) = if str_eq s "" then false else true
truthy (arr nil) = false
truthy (arr (cons x xs)) = true
truthy (obj end) = false
truthy (obj (entry k v d)) = true

-- A value that is a dict, as `isinstance(x, dict)` tests.
unfoldable pub as_dict : Option Json → Option Dict
as_dict (some (obj d)) = some d
as_dict _ = none

-- A value that is a text.
unfoldable pub as_text : Option Json → Option String
as_text (some (str s)) = some s
as_text _ = none

-- `(x or {})` where `x` is a dict or None.
unfoldable pub dict_or_empty : Option Json → Dict
dict_or_empty (some (obj d)) = d
dict_or_empty _ = end

pub get-put :
    (j k : String) (v : Json) (d : Dict)
    → get j (put k v d) ≡ (if str_eq k j then some v else get j d)
unfolding get put
get-put j k v end = refl
get-put j k v (entry i w d) = ground (arith, eq_iff k j, eq_iff i k, eq_iff i j, get-put j k v d)

-- After a pop the key is gone, and every other key is as it was.
pub get-pop : (j k : String) (d : Dict) → get j (pop k d) ≡ (if str_eq k j then none else get j d)
unfolding get pop
get-pop j k end = ground arith
get-pop j k (entry i w d) = ground (arith, eq_iff k j, eq_iff i k, eq_iff i j, get-pop j k d)
