-- ===== src/Login/Users.antt =====
-- app/services/auth.py: the row of a user, made at the first login. What other requests commit between a
-- read and the insert that follows it is an argument.
pub mod Roles
pub mod OneRow
use open_v_center_backend.Prelude.{
  ℕ, String, ◌≡◌, refl, Bool, true, false, not, ◌&&◌, Option, none, some, List, [], ◌∷◌, ◌++◌, ◌==◌,
  str_eq, find, any, update_where, or_text, if◌then◌else◌,
}
use open_v_center_backend.Settings.{Settings}
use open_v_center_backend.Models.{Db}
use open_v_center_backend.Models.Records.{User, ScopeGrant, Level, global, cluster, host, folder}
use open_v_center_backend.Rbac.{is_global}
use open_v_center_backend.Text.Words.{split, join_commas}

abbrev pub has_email : String → User → Bool
has_email email u = str_eq u.email email

-- _lookup
abbrev pub lookup : String → Db → Option User
lookup email db = find (has_email email) db.users

-- The column of roles, joined with commas, as resolve_scope splits it.
unfoldable pub stored_roles : List String → List String
unfolding join_commas split
stored_roles roles =
    let column = join_commas roles in if str_eq column "" then [] else split b',' column

-- A flush of a new user; none is the IntegrityError of the unique index on the email.
unfoldable pub insert_user : User → Db → Option Db
insert_user u db =
    if any (has_email u.email) db.users
    then none
    else some (record db { users = db.users ++ u ∷ [] })

abbrev same_level : Level → Level → Bool
same_level global global = true
same_level cluster cluster = true
same_level host host = true
same_level folder folder = true
same_level _ _ = false

-- Rows that the unique index of the grants takes for the same: a NULL is the same as nothing.
abbrev clash_ids : Option ℕ → Option ℕ → Bool
clash_ids (some a) (some b) = a == b
clash_ids none b = false
clash_ids (some a) none = false

abbrev pub same_grant : ScopeGrant → ScopeGrant → Bool
same_grant g h =
    g.user_id == h.user_id && same_level g.level h.level && clash_ids g.scope_id h.scope_id

unfoldable pub insert_grant : ScopeGrant → Db → Option Db
insert_grant g db =
    if any (same_grant g) db.grants then none else some (record db { grants = db.grants ++ g ∷ [] })

abbrev pub global_grant : ℕ → ScopeGrant
global_grant user_id = record { user_id = user_id; level = global; scope_id = none }

abbrev pub is_global_of : ℕ → ScopeGrant → Bool
is_global_of user_id g = g.user_id == user_id && is_global g.level

-- The part of an email before "@".
abbrev first_part : List String → String
first_part [] = ""
first_part (p ∷ ps) = p

abbrev pub candidate : ℕ → String → Option String → Option (List String) → User
candidate id email display_name roles = record {
  id = id;
  email = email;
  display_name = some (or_text display_name (first_part (split b'@' email)));
  roles = elim roles [ none ↦ [] | some rs ↦ stored_roles rs ];
}

abbrev pub with_users : List User → Db → Db
with_users others db = record db { users = db.users ++ others }

-- The second look at the table, after an IntegrityError.
abbrev pub or_lookup : Db → Option User → Option (User × Db)
or_lookup db none = none
or_lookup db (some found) = some (found, db)

abbrev pub inserted : User → Db → Option Db → Option (User × Db)
inserted u db none = or_lookup db (lookup u.email db)
inserted u db (some db') = some (u, db')

abbrev pub found_or_insert : User → List User → Db → Option User → Option (User × Db)
found_or_insert u others db (some found) = some (found, db)
found_or_insert u others db none =
    inserted u (with_users others db) (insert_user u (with_users others db))

-- The row of the email, found or made; none is the RuntimeError.
unfoldable pub find_or_insert : User → List User → Db → Option (User × Db)
unfolding insert_user
find_or_insert u others db = found_or_insert u others db (lookup u.email db)

-- `user.roles = ",".join(roles)`
unfoldable pub set_roles : Option (List String) → User × Db → User × Db
unfolding stored_roles
set_roles none (u, db) = (u, db)
set_roles (some rs) (u, db) = (
  record u { roles = stored_roles rs },
  record db {
    users = update_where (λ r. r.id == u.id) (λ r. record r { roles = stored_roles rs }) db.users;
  },
)

abbrev with_grants : List ScopeGrant → Db → Db
with_grants others db = record db { grants = db.grants ++ others }

abbrev or_same : Option Db → Db → Db
or_same none db = db
or_same (some db') db = db'

unfoldable pub grant_once : Bool → List ScopeGrant → User × Db → User × Db
unfolding insert_grant
grant_once false others (u, db) = (u, db)
grant_once true others (u, db) = if any (is_global_of u.id) db.grants then (u, db) else (
  u,
  or_same (insert_grant (global_grant u.id) (with_grants others db)) (with_grants others db),
)

abbrev pub finish_login :
    Option (List String) → Bool → List ScopeGrant → Option (User × Db) → Option (User × Db)
finish_login roles grant_global grants none = none
finish_login roles grant_global grants (some r) =
    some (grant_once grant_global grants (set_roles roles r))

-- get_or_create_user
unfoldable pub get_or_create_user :
    ℕ
    → String
    → Option String
    → Option (List String)
    → Bool
    → List User
    → List ScopeGrant
    → Db
    → Option (User × Db)
unfolding find_or_insert set_roles grant_once
get_or_create_user id email display_name roles grant_global users grants db =
    finish_login roles grant_global grants
      (find_or_insert (candidate id email display_name roles) users db)

-- resolve_stub_user
unfoldable pub resolve_stub_user :
    Settings → String → ℕ → List User → List ScopeGrant → Db → Option (User × Db)
unfolding get_or_create_user
resolve_stub_user s stub_user_email id users grants db =
    get_or_create_user id stub_user_email none (some (s.admin_role ∷ [])) true users grants db
