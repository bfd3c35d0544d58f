-- ===== src/Login/Users/OneRow.antt =====
-- One row for each email, whatever other logins do meanwhile.
use open_v_center_backend.Prelude.{
  ℕ, ◌+◌, ◌≤◌, String, ◌≡◌, refl, ap, ◌∙◌, Bool, true, false, Option, some, List, [], ◌∷◌, ◌++◌,
  ◌==◌, ==_refl, arith, inl, inr, Bool-cases, Option-cases, str_eq, eq_iff, find, any, count,
  count_of_find, find_sound, any-find, find-any, find-append, find-updated, count-update_where,
  if◌then◌else◌,
}
use open_v_center_backend.Models.{Db}
use open_v_center_backend.Models.Records.{User, ScopeGrant}
use open_v_center_backend.Login.Users.{
  has_email, lookup, stored_roles, insert_grant, insert_user, with_users, inserted, find_or_insert,
  set_roles, grant_once, candidate, get_or_create_user,
}

-- The unique index on the email.
abbrev pub UniqueEmails : List User → Type 0
UniqueEmails users = (email : String) → count (has_email email) users ≤ 1

module _ {A : Type 0} where
  count_append : (p : A → Bool) (xs ys : List A) → count p (xs ++ ys) ≡ count p xs + count p ys
  unfolding count
  count_append p [] ys = omega arith
  count_append p (x ∷ xs) ys = ground (arith, count_append p xs ys)

-- What the first part of a login comes to: a row of the email, which is the one that a lookup finds.
pub record IsFound (email : String) (r : User × Db) : Type 0 where
  pub named : r.0.email ≡ email
  pub found : lookup email r.1 ≡ some r.0
  pub unique : UniqueEmails r.1.users

found_email : (email : String) (db : Db) (v : User) → lookup email db ≡ some v → v.email ≡ email
found_email email db v h = (eq_iff v.email email).0 (find_sound (has_email email) db.users v h)

new_found :
    (u : User) (db : Db)
    → any (has_email u.email) db.users ≡ false
    → find (has_email u.email) (db.users ++ u ∷ []) ≡ some u
unfolding find
new_found u db free =
    ground (arith, find-append (has_email u.email) db.users (u ∷ []), eq_iff u.email u.email, free)

alone : (m : String) (u : User) → count (has_email m) (u ∷ []) ≤ 1
unfolding count
alone m u = ground arith

new_unique :
    (u : User) (db : Db) (m : String)
    → any (has_email u.email) db.users ≡ false
    → count (has_email m) db.users ≤ 1
    → count (has_email m) (db.users ++ u ∷ []) ≤ 1
unfolding count
new_unique u db m free one = elim (Bool-cases (str_eq u.email m)) [
  | inl same ↦
      let e : u.email ≡ m = (eq_iff u.email m).0 same in
      let none_yet : count (has_email m) db.users ≡ 0 =
        count_of_find (has_email m) db.users (find-any (has_email m) db.users (rw e at free)) in
      omega (arith, count_append (has_email m) db.users (u ∷ []), none_yet, alone m u)
  | inr other ↦ ground (arith, count_append (has_email m) db.users (u ∷ []), other)
]

-- A new row, or the one of the request that was faster.
inserted_lem :
    (u : User) (db : Db)
    → UniqueEmails db.users
    → (r : User × Db) × (inserted u db (insert_user u db) ≡ some r) × IsFound u.email r
unfolding insert_user
inserted_lem u db one = elim (Bool-cases (any (has_email u.email) db.users)) [
  | inl taken ↦ elim (Option-cases (lookup u.email db)) [
    | inl missing ↦ cc (any-find (has_email u.email) db.users)
    | inr (v, e) ↦ (
      (v, db),
      rw (taken, if◌then◌else◌) (rw e),
      record { named = found_email u.email db v e; found = e; unique = one },
    )
  ]
  | inr free ↦ (
    (u, record db { users = db.users ++ u ∷ [] }),
    rw free,
    record {
      named = refl;
      found = new_found u db free;
      unique = λ m. new_unique u db m free (one m);
    },
  )
]

find_or_insert_lem :
    (u : User) (others : List User) (db : Db)
    → UniqueEmails (db.users ++ others)
    → (r : User × Db) × (find_or_insert u others db ≡ some r) × IsFound u.email r
unfolding find_or_insert
find_or_insert_lem u others db one = elim (Option-cases (lookup u.email db)) [
  | inr (v, e) ↦ (
    (v, db),
    rw e,
    record {
      named = found_email u.email db v e;
      found = e;
      unique = λ m. omega (arith, one m, count_append (has_email m) db.users others);
    },
  )
  | inl missing ↦ rw missing (inserted_lem u (with_users others db) one)
]

set_roles-IsFound :
    (email : String) (roles : List String) (r : User × Db)
    → IsFound email r
    → IsFound email (set_roles (some roles) r)
unfolding set_roles
set_roles-IsFound email roles (u, db) f = record {
  named = f.named;
  found =
      find-updated (has_email email) (λ r. r.id == u.id)
        (λ r. record r { roles = stored_roles roles }) db.users u (λ y. refl) f.found
        (==_refl u.id);
  unique = λ m. omega (
    arith,
    f.unique m,
    count-update_where (has_email m) (λ r. r.id == u.id)
        (λ r. record r { roles = stored_roles roles }) db.users (λ x hit h. h),
  );
}

set_roles_roles :
    (roles : List String) (r : User × Db) → (set_roles (some roles) r).0.roles ≡ stored_roles roles
unfolding set_roles
set_roles_roles roles (u, db) = refl

-- A grant leaves the users alone.
granted_same :
    (everything : Bool) (grants : List ScopeGrant) (r : User × Db)
    → ((grant_once everything grants r).0 ≡ r.0)
      × ((grant_once everything grants r).1.users ≡ r.1.users)
unfolding grant_once insert_grant
granted_same false grants (u, db) = (refl, refl)
granted_same true grants (u, db) = (ground arith, ground arith)

granted :
    {email : String} (everything : Bool) (grants : List ScopeGrant) (r : User × Db)
    → IsFound email r
    → IsFound email (grant_once everything grants r)
granted everything grants r f =
    let (user, users) = granted_same everything grants r in
    record {
      named = rw user f.named;
      found = rw user (rw users f.found);
      unique = λ m. rw users (f.unique m);
    }

-- A login of a token with roles always gets a user, whatever rows other requests commit meanwhile, where
-- the emails of all those are unique: the one row of the email, with the roles of the token as the
-- column gives them back; and emails stay unique.
pub login_one_row :
    (id : ℕ) (email : String) (name : Option String) (roles : List String) (everything : Bool)
    (others : List User) (grants : List ScopeGrant) (db : Db)
    → UniqueEmails (db.users ++ others)
    → (r : User × Db) × (get_or_create_user id email name (some roles) everything others grants db
        ≡ some r)
      × IsFound email r
      × (r.0.roles ≡ stored_roles roles)
unfolding get_or_create_user
login_one_row id email name roles everything others grants db one =
    let u = candidate id email name (some roles) in
    let (r, same, found) = find_or_insert_lem u others db one in
    let r' = set_roles (some roles) r in
    (
      grant_once everything grants r',
      rw same,
      granted everything grants r' (set_roles-IsFound email roles r found),
      ap (λ v. v.roles) (granted_same everything grants r').0 ∙ set_roles_roles roles r,
    )
