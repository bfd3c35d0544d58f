-- ===== src/Login/Jwks.antt =====
-- The provider's signing keys in app/api/deps.py: their cache, and the key of a token. Times are whole
-- seconds of a clock that does not go back; an answer of the provider is none where the request raised.
use open_v_center_backend.Prelude.{
  ℕ, ◌-◌, String, Bool, false, ◌&&◌, Option, none, some, List, [], ◌∷◌, ltb, str_eq, is_some, find,
  if◌then◌else◌,
}
use open_v_center_backend.Json.{Dict}

-- What the code uses of PyJWT. None is a PyJWTError.
pub record Jwt : Type 1 where
  pub Document : Type 0
  pub Key : Type 0
  -- `PyJWKSet.from_dict(jwks).keys`
  pub keys : Document → Option (List Key)
  pub key_id : Key → Option String
  -- `jwt.get_unverified_header(token).get("kid")`
  pub kid_of : String → Option (Option String)
  -- `jwt.decode(token, key, …)` under the configured audience and issuer
  pub decode : String → Key → Option Dict

-- _JWKS_MIN_REFRESH_SECONDS
abbrev pub min_refresh_seconds : ℕ
min_refresh_seconds = 60

module _ (jwt : Jwt) where
  open jwt use {Document, Key, keys, key_id}

  -- _jwks_cache
  pub record JwksCache : Type 0 where
    pub fetched_at : ℕ
    pub doc : Option Document

  abbrev pub empty_cache : JwksCache
  empty_cache = record { fetched_at = 0; doc = none }

  abbrev pub age_limit : Bool → ℕ → ℕ
  age_limit force ttl = if force then min_refresh_seconds else ttl

  -- The answer of the provider goes into the cache, over what it holds by then; an error leaves that.
  abbrev pub download : ℕ → Option Document → JwksCache → Option Document × JwksCache
  download now none c = (none, c)
  download now (some d) c = (some d, record { fetched_at = now; doc = some d })

  -- A document that need not be downloaded again.
  unfoldable pub is_fresh : ℕ → Bool → ℕ → JwksCache → Bool
  is_fresh ttl force now c = is_some c.doc && ltb (now - c.fetched_at) (age_limit force ttl)

  -- A download that is awaited: the answer, and what other requests do to the cache meanwhile, which no
  -- lock keeps from downloading too.
  pub record Fetch : Type 0 where
    pub answer : Option Document
    pub others : JwksCache → JwksCache

  -- _get_jwks: the clock is read before the download.
  unfoldable pub get_jwks : ℕ → Bool → ℕ → Fetch → JwksCache → Option Document × JwksCache
  unfolding is_fresh
  get_jwks ttl force now f c =
      if is_fresh ttl force now c then (c.doc, c) else download now f.answer (f.others c)

  abbrev pub kid_is : String → Option String → Bool
  kid_is kid none = false
  kid_is kid (some i) = str_eq i kid

  abbrev pub has_kid : String → Key → Bool
  has_kid kid k = kid_is kid (key_id k)

  abbrev only : List Key → Option Key
  only (k ∷ []) = some k
  only _ = none

  -- _find_key, on the keys of a document
  unfoldable pub find_key : List Key → Option String → Option Key
  find_key ks none = only ks
  find_key ks (some kid) = find (has_kid kid) ks
