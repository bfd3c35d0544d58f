-- ===== src/Examples/Login.antt =====
-- Logins on the installation, and the provider's keys.
use open_v_center_backend.Prelude.{
  find, String, ◌≡◌, refl, sym, arith, true, false, none, some, List, [], ◌∷◌, ◌++◌, count, str_eq,
  eq_iff, inl, inr, Bool-cases,
}
use open_v_center_backend.Json.{end}
use open_v_center_backend.Models.{Db}
use open_v_center_backend.Models.Records.{User}
use open_v_center_backend.Login.Users.{stored_roles, get_or_create_user}
use open_v_center_backend.Login.Users.OneRow.{UniqueEmails, IsFound, login_one_row}
use open_v_center_backend.Login.Jwks.{Jwt, JwksCache, empty_cache, find_key}
use open_v_center_backend.Login.Principal.{AuthSettings, decoded, verify_oidc}
use open_v_center_backend.Login.Principal.Rotation.{answered, rotated}
use open_v_center_backend.Examples.{db_with}

abbrev db : Db
db = db_with []

-- A login of the same new user, committed while this one runs.
abbrev racer : User
racer = record { id = 8; email = "new@x"; display_name = none; roles = [] }

unique_emails : UniqueEmails (db.users ++ racer ∷ [])
unfolding count
unique_emails m = elim (Bool-cases (str_eq "v@x" m)) [
  | inl same ↦
      let e : "v@x" ≡ m = (eq_iff "v@x" m).0 same in
      let other : str_eq "new@x" m ≡ false = rw (sym e) refl in ground (arith, other)
  | inr differ ↦ ground (arith, differ)
]

login_one_row_example :
    (r : User × Db) × (get_or_create_user 9 "new@x" none
        (some ("VIEWER" ∷ []))
        true
        (racer ∷ [])
        []
        db
      ≡ some r)
    × IsFound "new@x" r
    × (r.0.roles ≡ stored_roles ("VIEWER" ∷ []))
login_one_row_example =
    login_one_row 9 "new@x" none ("VIEWER" ∷ []) true (racer ∷ []) [] db unique_emails

-- A provider whose documents are the ids of its keys.
abbrev jwt : Jwt
jwt = record {
  Document = List String;
  Key = String;
  keys = λ d. some d;
  key_id = λ k. some k;
  kid_of = λ token. some (some token);
  decode = λ token k. some end;
}

abbrev settings : AuthSettings
settings = record {
  is_stub = false;
  stub_user_email = "operator@ovc.local";
  oidc_jwks_url = "https://provider/jwks";
  oidc_client_id = "ovc-frontend";
  oidc_roles_claim = "roles";
  oidc_jwks_ttl_seconds = 3600;
}

-- The keys of ten minutes ago, and a request that empties the cache meanwhile.
abbrev cached : JwksCache jwt
cached = record { fetched_at = 400; doc = some ("k1" ∷ []) }

abbrev emptied : JwksCache jwt → JwksCache jwt
emptied c = empty_cache jwt

named_url : str_eq settings.oidc_jwks_url "" ≡ false
named_url = refl

second_key_found : find_key jwt ("k1" ∷ "k2" ∷ []) (some "k2") ≡ some "k2"
unfolding find_key find
second_key_found = refl

rotated_example :
    (key : String) × (some key ≡ some "k2")
    × ((verify_oidc jwt settings 1000
          (answered jwt ("k1" ∷ "k2" ∷ []) emptied)
          (answered jwt ("k1" ∷ "k2" ∷ []) emptied)
          "k2"
          cached).0
        ≡ decoded jwt (some end))
rotated_example =
    rotated jwt settings 1000 "k2" "k2" cached ("k1" ∷ []) ("k1" ∷ "k2" ∷ []) ("k1" ∷ [])
      ("k1" ∷ "k2" ∷ []) "k2" emptied emptied named_url refl refl refl refl second_key_found
      (omega arith)
