-- ===== src/Audit/Changes.antt =====
-- `changes` of app/services/audit.py: what an edit has changed. The values that it compares are built with
-- their keys in one order.
use Prim.Native.String.{compare as text_compare}
use Prim.Native.Nat.{Ordering}
use open_v_center_backend.Prelude.{
  String, ◌≡◌, refl, Bool, true, false, not, ◌&&◌, Option, none, some, List, [], ◌∷◌, ◌==◌, str_eq,
  if◌then◌else◌,
}
use open_v_center_backend.Json.{
  Json, null, bool, num, str, arr, obj, Items, nil, cons, Dict, end, entry, get,
}

abbrev same_bool : Bool → Bool → Bool
same_bool true b = b
same_bool false b = not b

-- `a == b` on values
unfoldable mutual
  pub same_json : Json → Json → Bool
  same_json null null = true
  same_json (bool a) (bool b) = same_bool a b
  same_json (num a) (num b) = a == b
  same_json (str a) (str b) = str_eq a b
  same_json (arr a) (arr b) = same_items a b
  same_json (obj a) (obj b) = same_dict a b
  same_json _ _ = false

  pub same_items : Items → Items → Bool
  same_items nil nil = true
  same_items (cons a as') (cons b bs) = same_json a b && same_items as' bs
  same_items _ _ = false

  pub same_dict : Dict → Dict → Bool
  same_dict end end = true
  same_dict (entry k v d) (entry j w e) = str_eq k j && (same_json v w && same_dict d e)
  same_dict _ _ = false

-- `d.get(k)`
abbrev or_null : Option Json → Json
or_null none = null
or_null (some v) = v

-- The entries of `after` that differ, as they were and as they are.
unfoldable pub differing : Dict → Dict → Dict × Dict
unfolding get
differing before end = (end, end)
differing before (entry k v d) =
    let (old, new) = differing before d in
    let was = or_null (get k before) in
    if same_json was v then (old, new) else (entry k was old, entry k v new)

abbrev diff_of : Dict × Dict → Option Dict
diff_of (old, end) = none
diff_of (old, entry k v new) =
    some (entry "before" (obj old) (entry "after" (obj (entry k v new)) end))

-- changes
unfoldable pub changes : Dict → Dict → Option Dict
unfolding differing
changes before after = diff_of (differing before after)

-- `sorted(names)`, by code points.
abbrev text_le : String → String → Bool
text_le a b = elim (text_compare a b) [ Ordering.gt ↦ false | _ ↦ true ]

unfoldable insert_text : String → List String → List String
insert_text a [] = a ∷ []
insert_text a (b ∷ bs) = if text_le a b then a ∷ (b ∷ bs) else b ∷ insert_text a bs

unfoldable pub sorted_texts : List String → List String
unfolding insert_text
sorted_texts [] = []
sorted_texts (a ∷ as') = insert_text a (sorted_texts as')

unfoldable pub text_items : List String → Items
text_items [] = nil
text_items (a ∷ as') = cons (str a) (text_items as')

renamed :
    changes (entry "name" (str "a") end) (entry "name" (str "b") end)
    ≡ some (
        entry "before"
          (obj (entry "name" (str "a") end))
          (entry "after" (obj (entry "name" (str "b") end)) end))
unfolding changes same_json
renamed = refl
