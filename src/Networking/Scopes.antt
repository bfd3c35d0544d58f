-- ===== src/Networking/Scopes.antt =====
-- What the VLANs of one scope keep: at most one default, and no number twice.
use open_v_center_backend.Prelude.{
  ℕ, String, ◌≡◌, refl, ap, ◌∙◌, ==_iff, Bool, true, false, not, ◌&&◌, Option, none, some, List, [],
  ◌∷◌, ◌++◌, ◌==◌, ◌+◌, ◌≤◌, arith, has_id, is_some, find, count, count-append, count_of_find,
  count-update_where, update_where, Bool-cases, Option-cases, inl, inr, if◌then◌else◌,
}
use open_v_center_backend.Models.{Db}
use open_v_center_backend.Models.Topology.{Vlan}
use open_v_center_backend.Errors.{After, After-raise, After-bind, ok, api_error, invalid}
use open_v_center_backend.Organization.{not_exactly_one, require_scope}
use open_v_center_backend.Networking.{in_scope_of, not_default, clear_default, create_vlan}

-- The VLANs of a scope that are its default, and those of a number.
abbrev pub default_of : Option ℕ → Option ℕ → Vlan → Bool
default_of c h l = in_scope_of c h l && l.is_default

abbrev pub numbered : ℕ → Option ℕ → Option ℕ → Vlan → Bool
numbered tag c h l = (l.vlan_id == tag) && in_scope_of c h l

-- Every scope, a cluster or a host, has at most one default and each number at most once.
abbrev pub ScopesSound : Db → Type 0
ScopesSound db =
    (c h : Option ℕ)
    → not_exactly_one c h ≡ false
    → (count (default_of c h) db.vlans ≤ 1) × ((tag : ℕ) → count (numbered tag c h) db.vlans ≤ 1)

same_owner : (o : Option ℕ) (a b : ℕ) → o ≡ some a → has_id o b ≡ true → a ≡ b
same_owner none a b e m = cc
same_owner (some x) a b e m = ground (arith, e, m)

no_owner {ℓ} : {P : Type ℓ} (o : Option ℕ) (b : ℕ) → o ≡ none → has_id o b ≡ true → P
no_owner none b e m = cc
no_owner (some x) b e m = cc

-- A VLAN of the scope (c, h) that is also in the scope (c', h') makes them one.
meets :
    (c h c' h' : Option ℕ) (l r : Vlan)
    → l.cluster_id ≡ c
    → l.host_id ≡ h
    → not_exactly_one c h ≡ false
    → not_exactly_one c' h' ≡ false
    → in_scope_of c' h' l ≡ true
    → in_scope_of c h r ≡ in_scope_of c' h' r
meets none none c' h' l r ec eh v v' m = cc
meets (some a) (some b) c' h' l r ec eh v v' m = cc
meets (some a) none none none l r ec eh v v' m = cc
meets (some a) none (some a') (some b') l r ec eh v v' m = cc
meets none (some a) none none l r ec eh v v' m = cc
meets none (some a) (some a') (some b') l r ec eh v v' m = cc
meets (some a) none (some a') none l r ec eh v v' m =
    ap (has_id r.cluster_id) (same_owner l.cluster_id a a' ec m)
meets (some a) none none (some b') l r ec eh v v' m = no_owner l.host_id b' eh m
meets none (some b) (some a') none l r ec eh v v' m = no_owner l.cluster_id a' ec m
meets none (some b) none (some b') l r ec eh v v' m =
    ap (has_id r.host_id) (same_owner l.host_id b b' eh m)

-- After the clearing of a scope, it has no default.
count-clear_default :
    (c h c' h' : Option ℕ) (ls : List Vlan)
    → ((r : Vlan) → in_scope_of c h r ≡ in_scope_of c' h' r)
    → count (default_of c' h') (clear_default c h ls) ≡ 0
unfolding count clear_default update_where
count-clear_default c h c' h' [] same = refl
count-clear_default c h c' h' (l ∷ ls) same =
    ground (arith, same l, count-clear_default c h c' h' ls same)

-- An update of one row raises a count by one at most.
count-update_one {ℓ} :
    {A : Type ℓ} (q p : A → Bool) (f : A → A) (xs : List A)
    → count q (update_where p f xs) ≤ count q xs + count p xs
unfolding count update_where
count-update_one q p f [] = omega arith
count-update_one q p f (x ∷ xs) = ground (arith, count-update_one q p f xs)

same_scope :
    (c h : Option ℕ) (x y : Vlan)
    → x.cluster_id ≡ y.cluster_id
    → x.host_id ≡ y.host_id
    → in_scope_of c h x ≡ in_scope_of c h y
same_scope (some c) h x y ec eh = ap (λ o. has_id o c) ec
same_scope none (some h) x y ec eh = ap (λ o. has_id o h) eh
same_scope none none x y ec eh = ap (λ o. not (is_some o)) eh

-- A row that is no default does not count as one.
not_counted {ℓ} : {P : Type ℓ} (b : Bool) → (b && false) ≡ true → P
not_counted true e = cc
not_counted false e = cc

count-clear_le :
    (c h c' h' : Option ℕ) (ls : List Vlan)
    → count (default_of c' h') (clear_default c h ls) ≤ count (default_of c' h') ls
unfolding clear_default
count-clear_le c h c' h' ls =
    count-update_where (default_of c' h') (in_scope_of c h) not_default ls
      (λ x e k. not_counted _ k)

count-clear_numbered :
    (c h c' h' : Option ℕ) (tag : ℕ) (ls : List Vlan)
    → count (numbered tag c' h') (clear_default c h ls) ≤ count (numbered tag c' h') ls
unfolding clear_default
count-clear_numbered c h c' h' tag ls =
    count-update_where (numbered tag c' h') (in_scope_of c h) not_default ls (λ x e k.
      ap (λ b. (x.vlan_id == tag) && b) (same_scope c' h' x (not_default x) refl refl) ∙ k)

abbrev cleared_if : Bool → Option ℕ → Option ℕ → List Vlan → List Vlan
cleared_if b c h ls = if b then clear_default c h ls else ls

count-cleared_if :
    (b : Bool) (c h c' h' : Option ℕ) (ls : List Vlan)
    → count (default_of c' h') (cleared_if b c h ls) ≤ count (default_of c' h') ls
count-cleared_if true c h c' h' ls = count-clear_le c h c' h' ls
count-cleared_if false c h c' h' ls = omega arith

numbered-cleared_if :
    (b : Bool) (c h c' h' : Option ℕ) (tag : ℕ) (ls : List Vlan)
    → count (numbered tag c' h') (cleared_if b c h ls) ≤ count (numbered tag c' h') ls
numbered-cleared_if true c h c' h' tag ls = count-clear_numbered c h c' h' tag ls
numbered-cleared_if false c h c' h' tag ls = omega arith

added_default :
    (l : Vlan) (c h c' h' : Option ℕ) (ls : List Vlan)
    → l.cluster_id ≡ c
    → l.host_id ≡ h
    → not_exactly_one c h ≡ false
    → not_exactly_one c' h' ≡ false
    → count (default_of c' h') ls ≤ 1
    → count (default_of c' h') (cleared_if l.is_default c h ls ++ l ∷ []) ≤ 1
added_default l c h c' h' ls ec eh v v' before = elim (Bool-cases (in_scope_of c' h' l)) [
  | inl hit ↦ elim (Bool-cases l.is_default) [
    | inl d ↦ rw d (
        ground (
          arith,
          count-append (default_of c' h') (clear_default c h ls) l,
          count-clear_default c h c' h' ls (λ r. meets c h c' h' l r ec eh v v' hit),
        ))
    | inr d ↦ rw d (ground (arith, count-append (default_of c' h') ls l, d))
  ]
  | inr miss ↦ ground (
    arith,
    miss,
    count-append (default_of c' h') (cleared_if l.is_default c h ls) l,
    count-cleared_if l.is_default c h c' h' ls,
  )
]

count-same {ℓ} :
    {A : Type ℓ} (q q' : A → Bool) (xs : List A) → ((x : A) → q x ≡ q' x) → count q xs ≡ count q' xs
unfolding count
count-same q q' [] h = refl
count-same q q' (x ∷ xs) h = ground (arith, h x, count-same q q' xs h)

and_parts : (a b : Bool) → (a && b) ≡ true → (a ≡ true) × (b ≡ true)
and_parts true b e = (refl, e)
and_parts false b e = cc

same_number :
    (a b : ℕ) (r : Vlan) (x y : Bool)
    → a ≡ b
    → x ≡ y
    → ((r.vlan_id == a) && x) ≡ ((r.vlan_id == b) && y)
same_number a b r x y e k = rw (e, k) refl

-- A number that the scope does not have yet may be added to it.
added_number :
    (l : Vlan) (c h c' h' : Option ℕ) (tag : ℕ) (ls : List Vlan)
    → l.cluster_id ≡ c
    → l.host_id ≡ h
    → not_exactly_one c h ≡ false
    → not_exactly_one c' h' ≡ false
    → count (numbered l.vlan_id c h) ls ≡ 0
    → count (numbered tag c' h') ls ≤ 1
    → count (numbered tag c' h') (cleared_if l.is_default c h ls ++ l ∷ []) ≤ 1
added_number l c h c' h' tag ls ec eh v v' fresh before = elim (Bool-cases (numbered tag c' h' l)) [
  | inl hit ↦
      let (tagged, inside) = and_parts (l.vlan_id == tag) (in_scope_of c' h' l) hit in
      ground (
        arith,
        hit,
        count-append (numbered tag c' h') (cleared_if l.is_default c h ls) l,
        numbered-cleared_if l.is_default c h c' h' tag ls,
        count-same (numbered l.vlan_id c h) (numbered tag c' h') ls (λ r.
            same_number l.vlan_id tag r _ _ ((==_iff l.vlan_id tag).0 tagged)
              (meets c h c' h' l r ec eh v v' inside)),
        fresh,
      )
  | inr miss ↦ ground (
    arith,
    miss,
    count-append (numbered tag c' h') (cleared_if l.is_default c h ls) l,
    numbered-cleared_if l.is_default c h c' h' tag ls,
  )
]

not_some : {A : Type 0} (o : Option A) (x : A) → o ≡ some x → is_some o ≡ false → o ≡ none
not_some none x k e = refl
not_some (some y) x k e = cc

-- Where every cluster and host has at most one default VLAN and each number at most once, creating
-- a VLAN, if it is not refused, keeps that so.
pub create_vlan-ScopesSound :
    (id : ℕ) (name : String) (vlan_id : ℕ) (description : Option String) (is_default : Bool)
    (cluster_id host_id : Option ℕ) (db : Db)
    → ScopesSound db
    → After
        (λ r. ScopesSound r.1)
        (create_vlan id name vlan_id description is_default cluster_id host_id db)
unfolding create_vlan
create_vlan-ScopesSound id name vlan_id description is_default cluster_id host_id db sound =
    let l : Vlan = record {
      id = id;
      cluster_id = cluster_id;
      host_id = host_id;
      name = name;
      vlan_id = vlan_id;
      description = description;
      is_default = is_default;
    } in
    After-raise _ (not_exactly_one cluster_id host_id) (api_error invalid 400) _ (λ v.
      After-bind _ (require_scope cluster_id host_id db) _ (λ u k.
        After-raise {A = Vlan × Db} (λ r. ScopesSound r.1)
          (is_some (find (numbered vlan_id cluster_id host_id) db.vlans)) (api_error invalid 400)
          (ok
            (l, record db { vlans = cleared_if is_default cluster_id host_id db.vlans ++ l ∷ [] }))
          (λ fresh c' h' v'. (
            added_default l cluster_id host_id c' h' db.vlans refl refl v v' (sound c' h' v').0,
            λ tag.
                added_number l cluster_id host_id c' h' tag db.vlans refl refl v v' (unused fresh)
                  ((sound c' h' v').1 tag),
          ))))
  where
    unused :
        is_some (find (numbered vlan_id cluster_id host_id) db.vlans) ≡ false
        → count (numbered vlan_id cluster_id host_id) db.vlans ≡ 0
    unused e =
        count_of_find (numbered vlan_id cluster_id host_id) db.vlans
          (elim (Option-cases (find (numbered vlan_id cluster_id host_id) db.vlans)) [
            | inl k ↦ k
            | inr (x, k) ↦ not_some _ x k e
          ])
