-- ===== src/Tags.antt =====
-- app/services/tags.py and the constants of app/models/tag.py: tag categories, tags, and the tags
-- of a VM. A name comes in stripped; names that pass the check are ASCII, and so is their `lower`.
pub mod OnePerCategory
use open_v_center_backend.Prelude.{
  ℕ, ◌+◌, String, Bool, true, false, not, ◌&&◌, ◌||◌, Option, none, some, List, [], ◌∷◌, ◌++◌, ◌==◌,
  map, ltb, leb, length, has_id, same_id, is_some, any, count, find, rows_where, update_where,
  delete_where, str_in, if◌then◌else◌,
}
use open_v_center_backend.Models.{Db, get_category}
use open_v_center_backend.Models.VmRows.{Vm}
use open_v_center_backend.Models.Records.{TagCategory, Tag, VmTag}
use open_v_center_backend.Models.Cascade.{delete_category_row, delete_tags}
use open_v_center_backend.Errors.{
  Result, ok, err, api, api_error, not_found, invalid, duplicate, tag_conflict, raise_if, or_raise,
  ◌>>=◌, ◌>>◌,
}
use open_v_center_backend.Rbac.{VisibleScope, vm_visible_clause}
use open_v_center_backend.Vms.Paths.{codes}

abbrev pub tag_colors : List String
tag_colors =
    "gray" ∷ "red" ∷ "orange" ∷ "yellow" ∷ "green" ∷ "teal" ∷ "blue" ∷ "navy" ∷ "purple" ∷ "pink"
    ∷ []

-- TAG_NAME_PATTERN
abbrev pub is_name_char : ℕ → Bool
is_name_char c =
    (leb b'A' c && leb c b'Z')
    || (leb b'a' c && leb c b'z')
    || (leb b'0' c && leb c b'9')
    || c == 95
    || c == 45

abbrev pub is_name : List ℕ → Bool
is_name [] = false
is_name (c ∷ s) = not (ltb 64 (length (c ∷ s))) && not (any (λ x. not (is_name_char x)) (c ∷ s))

unfoldable pub check_tag_name : String → Result String
check_tag_name name = raise_if (not (is_name (codes name))) (api_error invalid 400) >> ok name

unfoldable pub check_tag_color : String → Result String
check_tag_color color = raise_if (not (str_in color tag_colors)) (api_error invalid 400) >> ok color

-- `lower(a) = lower(b)`
abbrev lower : ℕ → ℕ
lower c = if leb b'A' c && leb c b'Z' then c + 32 else c

unfoldable same_codes : List ℕ → List ℕ → Bool
same_codes [] [] = true
same_codes [] (c ∷ s) = false
same_codes (c ∷ s) [] = false
same_codes (c ∷ s) (d ∷ t) = let rest = same_codes s t in (lower c == lower d) && rest

unfoldable pub same_name : String → String → Bool
unfolding same_codes
same_name a b = same_codes (codes a) (codes b)

-- `id != exclude_id`, where one is given
abbrev pub is_other : Option ℕ → ℕ → Bool
is_other none i = true
is_other (some e) i = not (i == e)

unfoldable pub require_unique_category : String → Option ℕ → Db → Result (Unit {0})
require_unique_category name exclude_id db =
    raise_if (any (λ c. same_name c.name name && is_other exclude_id c.id) db.categories)
      (api_error duplicate 409)

unfoldable pub create_category : ℕ → String → Db → Result (TagCategory × Db)
create_category id name db =
    let c : TagCategory = record { id = id; name = name } in
    do
      check_tag_name name >>= λ n. require_unique_category n none db
      ok (c, record db { categories = db.categories ++ c ∷ [] })

unfoldable pub rename_category : TagCategory → String → Db → Result Db
rename_category c name db = do
  check_tag_name name >>= λ n. require_unique_category n (some c.id) db
  ok (record db {
    categories = update_where (λ r. r.id == c.id) (λ r. record r { name = name }) db.categories;
  })

unfoldable pub delete_category : TagCategory → Db → Result Db
unfolding delete_category_row
delete_category c db = ok (delete_category_row c.id db)

-- A tag of the category, or of the standalone tags.
abbrev pub in_category : Option TagCategory → Tag → Bool
in_category none t = not (is_some t.category_id)
in_category (some c) t = has_id t.category_id c.id

unfoldable pub require_unique_tag : String → Option TagCategory → Option ℕ → Db → Result (Unit {0})
require_unique_tag name category exclude_id db =
    raise_if
      (any (λ t. same_name t.name name && in_category category t && is_other exclude_id t.id)
        db.tags)
      (api_error duplicate 409)

-- `_get_category(…) if category_id else None`
abbrev pub category_or_none : Option ℕ → Db → Result (Option TagCategory)
category_or_none none db = ok none
category_or_none (some i) db = or_raise (get_category db i) (api not_found) >>= λ c. ok (some c)

abbrev pub id_of : Option TagCategory → Option ℕ
id_of none = none
id_of (some c) = some c.id

unfoldable pub create_tag : ℕ → String → Option ℕ → String → Db → Result (Tag × Db)
create_tag id name category_id color db = do
  n ← check_tag_name name
  c ← check_tag_color color
  category ← category_or_none category_id db
  require_unique_tag n category none db
  let t : Tag = record { id = id; category_id = id_of category; name = n; color = c }
  ok (t, record db { tags = db.tags ++ t ∷ [] })

abbrev checked : (String → Result String) → Option String → String → Result String
checked check none old = ok old
checked check (some x) old = check x

-- Whether a VM with the tag has another tag of the category.
abbrev pub clashes : Tag → ℕ → Db → Bool
clashes tag c db =
    any
      (λ mine.
        mine.tag_id == tag.id
        && any
            (λ other.
              other.vm_id == mine.vm_id
              && any (λ t. t.id == other.tag_id && has_id t.category_id c && not (t.id == tag.id))
                  db.tags)
            db.vm_tags)
      db.vm_tags

abbrev pub moves_to_clash : Tag → Option TagCategory → Db → Bool
moves_to_clash tag none db = false
moves_to_clash tag (some c) db = not (has_id tag.category_id c.id) && clashes tag c.id db

-- `category_given` chooses between the argument and the tag's own category.
unfoldable pub update_tag : Tag → Option String → Option ℕ → Bool → Option String → Db → Result Db
update_tag tag name category_id category_given color db = do
  n ← checked check_tag_name name tag.name
  c ← checked check_tag_color color tag.color
  category ← category_or_none (if category_given then category_id else tag.category_id) db
  require_unique_tag n category (some tag.id) db
  raise_if (moves_to_clash tag category db) (api_error tag_conflict 409)
  ok (record db {
    tags =
        update_where (λ t. t.id == tag.id)
          (λ t. record t { name = n; color = c; category_id = id_of category }) db.tags;
  })

unfoldable pub delete_tag : Tag → Db → Result Db
unfolding delete_tags
delete_tag tag db = ok (delete_tags (λ t. t.id == tag.id) db)

-- How many of the VMs that the scope sees carry the tag.
unfoldable pub tag_vm_count : VisibleScope → ℕ → Db → ℕ
tag_vm_count scope tag_id db =
    count
      (λ l. l.tag_id == tag_id && any (λ v. v.id == l.vm_id && vm_visible_clause scope v) db.vms)
      db.vm_tags

-- `i in ids`
abbrev pub wanted : List ℕ → ℕ → Bool
wanted ids i = any (λ x. x == i) ids

-- `dict.fromkeys(ids)`: the ids without repeats.
unfoldable pub distinct : List ℕ → List ℕ
distinct [] = []
distinct (i ∷ is) = i ∷ delete_where (λ x. x == i) (distinct is)

abbrev pub of_category : ℕ → Tag → Bool
of_category c t = has_id t.category_id c

-- A category that has two of the tags, from one of them.
abbrev pub doubled : List Tag → Option ℕ → Bool
doubled tags none = false
doubled tags (some c) = ltb 1 (count (of_category c) tags)

abbrev pub refuse_doubled : Option Tag → Db → Result (Unit {0})
refuse_doubled none db = ok tt
refuse_doubled (some t) db = elim t.category_id [
  | none ↦ ok tt
  | some c ↦
      or_raise (get_category db c) (api not_found) >>= λ r. err (api (api_error tag_conflict 409))
]

unfoldable pub set_vm_tags : Vm → List ℕ → Db → Result Db
set_vm_tags v tag_ids db =
    let ids = distinct tag_ids in
    let tags = rows_where (λ t. wanted ids t.id) db.tags in
    do
      raise_if (not (length tags == length ids)) not_found
      refuse_doubled (find (λ t. doubled tags t.category_id) tags) db
      ok (record db {
        vm_tags =
            delete_where (λ l. l.vm_id == v.id) db.vm_tags
            ++ map (λ t. record { vm_id = v.id; tag_id = t.id }) tags;
      })
