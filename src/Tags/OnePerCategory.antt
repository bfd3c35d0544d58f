-- ===== src/Tags/OnePerCategory.antt =====
-- The rule that set_vm_tags enforces: a VM carries at most one tag of a category.
use open_v_center_backend.Prelude.{
  ℕ, ◌≤◌, ◌≡◌, refl, sym, ◌∙◌, ==_iff, ◌⊎◌, inl, inr, Bool, true, false, not, ◌&&◌, Option, none,
  some, List, [], ◌∷◌, ◌++◌, ◌==◌, map, arith, length, any, count, find, find_sound, rows_where,
  delete_where, Bool-cases, Option-cases,
}
use open_v_center_backend.Models.{Db, get_category}
use open_v_center_backend.Models.VmRows.{Vm}
use open_v_center_backend.Models.Records.{Tag, VmTag}
use open_v_center_backend.Errors.{After, After-raise, After-bind, ok, not_found}
use open_v_center_backend.Tags.{wanted, distinct, of_category, doubled, refuse_doubled, set_vm_tags}

-- Whether a VM has a tag.
abbrev pub carries : ℕ → List VmTag → Tag → Bool
carries i links t = any (λ l. (l.vm_id == i) && (l.tag_id == t.id)) links

abbrev pub OnePerCategory : ℕ → Db → Type 0
OnePerCategory i db = (c : ℕ) → count (λ t. of_category c t && carries i db.vm_tags t) db.tags ≤ 1

-- What the search for a doubled category shows of every category.
no_doubled :
    (tags ts : List Tag) (c : ℕ)
    → find (λ t. doubled tags t.category_id) ts ≡ none
    → (count (of_category c) ts ≡ 0) ⊎ (count (of_category c) tags ≤ 1)
unfolding find count
no_doubled tags [] c e = inl refl
no_doubled tags (t ∷ ts) c e = elim (Option-cases t.category_id) [
  | inl k ↦ ground (arith, e, k, no_doubled tags ts c)
  | inr (d, k) ↦ ground (arith, e, k, no_doubled tags ts c)
]

-- The new links carry only tags that were asked for, and links of other VMs none for this one.
carries-links :
    (i : ℕ) (ids : List ℕ) (t : Tag) (tags : List Tag)
    → carries i
        (map (λ s. record { vm_id = i; tag_id = s.id }) (rows_where (λ s. wanted ids s.id) tags))
        t
      ≡ true
    → wanted ids t.id ≡ true
unfolding any rows_where
carries-links i ids t [] e = cc
carries-links i ids t (s ∷ tags) e = elim (Bool-cases (wanted ids s.id)) [
  | inl w ↦ elim (Bool-cases (s.id == t.id)) [
    | inl q ↦ rw (sym ((==_iff s.id t.id).0 q)) w
    | inr n ↦ carries-links i ids t tags (ground (arith, w, n, e))
  ]
  | inr w ↦ carries-links i ids t tags (ground (arith, w, e))
]

carries-cleared :
    (i : ℕ) (t : Tag) (links : List VmTag)
    → carries i (delete_where (λ l. l.vm_id == i) links) t ≡ false
unfolding any delete_where
carries-cleared i t [] = refl
carries-cleared i t (l ∷ links) = ground (arith, carries-cleared i t links)

carries-append :
    (i : ℕ) (t : Tag) (xs ys : List VmTag)
    → carries i xs t ≡ false
    → carries i (xs ++ ys) t ≡ carries i ys t
unfolding any
carries-append i t [] ys e = refl
carries-append i t (l ∷ xs) ys e = ground (arith, e, carries-append i t xs ys)

-- Counting the tags of a condition among those asked for.
count-wanted :
    (c : ℕ) (ids : List ℕ) (carried : Tag → Bool) (tags : List Tag)
    → ((t : Tag) → carried t ≡ true → wanted ids t.id ≡ true)
    → count (λ t. of_category c t && carried t) tags
      ≤ count (of_category c) (rows_where (λ t. wanted ids t.id) tags)
unfolding count rows_where
count-wanted c ids carried [] h = omega arith
count-wanted c ids carried (t ∷ tags) h = ground (arith, h t, count-wanted c ids carried tags h)

-- The check passes only where no category is doubled.
nothing_doubled :
    (tags : List Tag) (db : Db) (o : Option Tag) (u : Unit {0})
    → ((t : Tag) → o ≡ some t → doubled tags t.category_id ≡ true)
    → refuse_doubled o db ≡ ok u
    → o ≡ none
nothing_doubled tags db none u h e = refl
nothing_doubled tags db (some t) u h e = elim (Option-cases t.category_id) [
  | inl k ↦ ground (arith, k, h t refl)
  | inr (c, k) ↦ elim (Option-cases (get_category db c)) [
    | inl g ↦ ground (arith, k, g, e)
    | inr (r, g) ↦ ground (arith, k, g, e)
  ]
]

-- Setting the tags of a VM, where it is not refused, leaves it at most one tag of each category.
pub set_vm_tags-OnePerCategory :
    (v : Vm) (tag_ids : List ℕ) (db : Db) → After (OnePerCategory v.id) (set_vm_tags v tag_ids db)
unfolding set_vm_tags
set_vm_tags-OnePerCategory v tag_ids db =
    let ids : List ℕ = distinct tag_ids in
    let tags : List Tag = rows_where (λ t. wanted ids t.id) db.tags in
    let links : List VmTag = map (λ t. record { vm_id = v.id; tag_id = t.id }) tags in
    let first : Option Tag = find (λ t. doubled tags t.category_id) tags in
    After-raise (OnePerCategory v.id) (not (length tags == length ids)) not_found _ (λ known.
      After-bind (OnePerCategory v.id) (refuse_doubled first db) _ (λ u passed c.
        at_most_one c tags
          (no_doubled tags tags c (
            nothing_doubled tags db first u (find_sound (λ t. doubled tags t.category_id) tags)
              passed))
          _
          (count-wanted c ids
            (carries v.id (delete_where (λ l. l.vm_id == v.id) db.vm_tags ++ links)) db.tags
            (λ t carried. carries-links v.id ids t db.tags (
              sym (carries-append v.id t _ links (carries-cleared v.id t db.vm_tags)) ∙ carried)))))
  where
    at_most_one :
        (c : ℕ) (tags : List Tag)
        → (count (of_category c) tags ≡ 0) ⊎ (count (of_category c) tags ≤ 1)
        → (n : ℕ) → n ≤ count (of_category c) tags
        → n ≤ 1
    at_most_one c tags (inl z) n le = omega arith
    at_most_one c tags (inr z) n le = omega arith
