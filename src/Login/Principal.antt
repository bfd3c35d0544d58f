-- ===== src/Login/Principal.antt =====
-- The user of a request: _verify_oidc, _token_roles and get_current_user of app/api/deps.py.
pub mod Rotation
use open_v_center_backend.Prelude.{
  ℕ, String, ◌≡◌, Bool, true, false, Option, none, some, List, [], ◌∷◌, str_eq, if◌then◌else◌,
  is_some,
}
use open_v_center_backend.Json.{
  Json, null, bool, num, str, arr, obj, Items, nil, cons, Dict, get, truthy, as_text,
}
use open_v_center_backend.Settings.{Settings}
use open_v_center_backend.Models.{Db}
use open_v_center_backend.Models.Records.{User, ScopeGrant}
use open_v_center_backend.Vms.Paths.{codes}
use open_v_center_backend.Text.Words.{split, words, replace, strip, after_prefix}
use open_v_center_backend.Login.Users.{get_or_create_user, resolve_stub_user}
use open_v_center_backend.Login.Jwks.{Jwt, JwksCache, Fetch, get_jwks, find_key}

-- The settings of app/config.py under "auth".
pub record AuthSettings : Type 0 where
  pub is_stub : Bool
  pub stub_user_email : String
  pub oidc_jwks_url : String
  pub oidc_client_id : String
  pub oidc_roles_claim : String
  pub oidc_jwks_ttl_seconds : ℕ

-- What a check of a request comes to: a value, a response 401, or another exception.
pub data Checked {ℓ} (A : Type ℓ) : Type ℓ where
  passed : A → Checked A
  unauthorized raised : Checked A

-- _bearer_token
unfoldable pub bearer_token : String → Option String
unfolding strip after_prefix
bearer_token header = elim (after_prefix (codes "bearer ") header) [
  | none ↦ none
  | some rest ↦ some (strip rest)
]

abbrev pub step_into : Option Json → String → Option Json
step_into (some (obj d)) part = get part d
step_into _ part = none

-- _claim_by_path, on the parts of the path
unfoldable pub claim_by_path : Option Json → List String → Option Json
claim_by_path node [] = node
claim_by_path node (part ∷ parts) = claim_by_path (step_into node part) parts

abbrev show_or : (Json → String) → Json → String
show_or show (str s) = s
show_or show v = show v

-- `[str(v) for v in value]`; `show` is `str` of a value that is no text.
unfoldable pub texts_of : (Json → String) → Items → List String
texts_of show nil = []
texts_of show (cons v vs) = show_or show v ∷ texts_of show vs

abbrev pub roles_in : (Json → String) → Option Json → List String
roles_in show (some (arr vs)) = texts_of show vs
roles_in show (some (str s)) = words s
roles_in show _ = []

-- _token_roles: "${client_id}" has twelve characters.
unfoldable pub token_roles : AuthSettings → (Json → String) → Dict → List String
unfolding claim_by_path texts_of words replace split
token_roles s show claims = roles_in show (
    claim_by_path (some (obj claims))
      (split b'.' (replace 0 11 "${client_id}" s.oidc_client_id s.oidc_roles_claim)))

abbrev or_get : Option Json → Dict → Option Json
or_get none claims = get "sub" claims
or_get (some v) claims = if truthy v then some v else get "sub" claims

-- `claims.get("email") or claims["sub"]`, which are texts by OpenID Connect; none is an exception.
unfoldable pub email_of : Dict → Option String
email_of claims = as_text (or_get (get "email" claims) claims)

module _ (jwt : Jwt) where
  open jwt use {Document, Key, keys, kid_of, decode}

  abbrev pub decoded : Option Dict → Checked Dict
  decoded none = unauthorized
  decoded (some claims) = passed claims

  abbrev pub decoded_with : String → Option Key → Checked Dict
  decoded_with token none = unauthorized
  decoded_with token (some k) = decoded (decode token k)

  -- The key from the document of the forced refresh.
  abbrev pub second_key : String → Option String → Option (List Key) → Checked Dict
  second_key token kid none = unauthorized
  second_key token kid (some ks) = decoded_with token (find_key jwt ks kid)

  abbrev pub second_try :
      String → Option String → Option Document × JwksCache jwt → Checked Dict × JwksCache jwt
  second_try token kid (none, c) = (raised, c)
  second_try token kid (some d, c) = (second_key token kid (keys d), c)

  abbrev pub first_key :
      ℕ
      → ℕ
      → Fetch jwt
      → String
      → Option String
      → JwksCache jwt
      → Option Key
      → Checked Dict × JwksCache jwt
  first_key ttl now again token kid c none =
      second_try token kid (get_jwks jwt ttl true now again c)
  first_key ttl now again token kid c (some k) = (decoded (decode token k), c)

  abbrev pub first_keys :
      ℕ
      → ℕ
      → Fetch jwt
      → String
      → Option String
      → JwksCache jwt
      → Option (List Key)
      → Checked Dict × JwksCache jwt
  first_keys ttl now again token kid c none = (unauthorized, c)
  first_keys ttl now again token kid c (some ks) =
      first_key ttl now again token kid c (find_key jwt ks kid)

  abbrev pub first_try :
      ℕ
      → ℕ
      → Fetch jwt
      → String
      → Option String
      → Option Document × JwksCache jwt
      → Checked Dict × JwksCache jwt
  first_try ttl now again token kid (none, c) = (raised, c)
  first_try ttl now again token kid (some d, c) = first_keys ttl now again token kid c (keys d)

  abbrev pub with_kid :
      ℕ
      → ℕ
      → Fetch jwt
      → Fetch jwt
      → String
      → JwksCache jwt
      → Option (Option String)
      → Checked Dict × JwksCache jwt
  with_kid ttl now answer again token c none = (unauthorized, c)
  with_kid ttl now answer again token c (some kid) =
      first_try ttl now again token kid (get_jwks jwt ttl false now answer c)

  -- _verify_oidc: the provider's answers to the first download and to the forced one, where they are made.
  unfoldable pub verify_oidc :
      AuthSettings
      → ℕ
      → Fetch jwt
      → Fetch jwt
      → String
      → JwksCache jwt
      → Checked Dict × JwksCache jwt
  unfolding get_jwks find_key
  verify_oidc s now answer again token c =
      if str_eq s.oidc_jwks_url ""
      then (unauthorized, c)
      else with_kid s.oidc_jwks_ttl_seconds now answer again token c (kid_of token)

  abbrev as_checked : Option (User × Db) → Checked (User × Db)
  as_checked none = raised
  as_checked (some r) = passed r

  abbrev named_user :
      AuthSettings
      → (Json → String)
      → ℕ
      → List User
      → Dict
      → Db
      → Option String
      → Checked (User × Db)
  named_user s show id others claims db none = raised
  named_user s show id others claims db (some email) = as_checked (
      get_or_create_user id email (as_text (get "name" claims)) (some (token_roles s show claims))
        false others [] db)

  abbrev user_of :
      AuthSettings → (Json → String) → ℕ → List User → Db → Checked Dict → Checked (User × Db)
  user_of s show id others db (passed claims) =
      named_user s show id others claims db (email_of claims)
  user_of s show id others db unauthorized = unauthorized
  user_of s show id others db raised = raised

  abbrev with_token :
      AuthSettings
      → (Json → String)
      → ℕ
      → Fetch jwt
      → Fetch jwt
      → ℕ
      → List User
      → JwksCache jwt
      → Db
      → Option String
      → Checked (User × Db) × JwksCache jwt
  with_token s show now answer again id others c db none = (unauthorized, c)
  with_token s show now answer again id others c db (some token) =
      let (claims, c') = verify_oidc s now answer again token c in
      if str_eq token "" then (unauthorized, c) else (user_of s show id others db claims, c')

  -- get_current_user; `others` and `grants` are what other requests commit meanwhile.
  unfoldable pub get_current_user :
      Settings
      → AuthSettings
      → (Json → String)
      → ℕ
      → Fetch jwt
      → Fetch jwt
      → ℕ
      → List User
      → List ScopeGrant
      → String
      → JwksCache jwt
      → Db
      → Checked (User × Db) × JwksCache jwt
  unfolding verify_oidc token_roles email_of get_or_create_user resolve_stub_user bearer_token
  get_current_user settings s show now answer again id others grants header c db =
      if s.is_stub
      then (as_checked (resolve_stub_user settings s.stub_user_email id others grants db), c)
      else with_token s show now answer again id others c db (bearer_token header)
