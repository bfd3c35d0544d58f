-- ===== src/Login/Principal/Rotation.antt =====
-- The key of a token while the provider rotates its keys.
use open_v_center_backend.Prelude.{
  ℕ, ◌+◌, ◌≤◌, String, ◌≡◌, refl, Bool, true, false, Option, none, some, List, arith, inl, inr,
  Bool-cases, Option-cases, str_eq, eq_iff, find_sound, if◌then◌else◌,
}
use open_v_center_backend.Login.Jwks.{
  Jwt, JwksCache, Fetch, get_jwks, is_fresh, find_key, has_kid, min_refresh_seconds,
}
use open_v_center_backend.Login.Principal.{
  AuthSettings, decoded, second_key, first_key, verify_oidc,
}

module _ (jwt : Jwt) where
  open jwt use {Document, Key, keys, key_id, kid_of, decode}

  has_kid_sound : (kid : String) (k : Key) → has_kid jwt kid k ≡ true → key_id k ≡ some kid
  has_kid_sound kid k h = elim (Option-cases (key_id k)) [
    | inl e ↦ cc
    | inr (i, e) ↦ ground (arith, e, h, eq_iff i kid)
  ]

  find_key_id :
      (ks : List Key) (kid : String) (k : Key)
      → find_key jwt ks (some kid) ≡ some k
      → key_id k ≡ some kid
  unfolding find_key
  find_key_id ks kid k h = has_kid_sound kid k (find_sound (has_kid jwt kid) ks k h)

  -- A download that the provider answers.
  abbrev pub answered : Document → (JwksCache jwt → JwksCache jwt) → Fetch jwt
  answered new others = record { answer = some new; others = others }

  get_fresh :
      (ttl now : ℕ) (force : Bool) (f : Fetch jwt) (old : Document) (c : JwksCache jwt)
      → c.doc ≡ some old
      → is_fresh jwt ttl force now c ≡ true
      → get_jwks jwt ttl force now f c ≡ (some old, c)
  unfolding get_jwks
  get_fresh ttl now force f old c was fresh = ground (arith, fresh, was)

  get_stale :
      (ttl now : ℕ) (force : Bool) (new : Document) (others : JwksCache jwt → JwksCache jwt)
      (c : JwksCache jwt)
      → is_fresh jwt ttl force now c ≡ false
      → get_jwks jwt ttl force now (answered new others) c
        ≡ (some new, record { fetched_at = now; doc = some new })
  unfolding get_jwks
  get_stale ttl now force new others c stale = rw (stale, if◌then◌else◌)

  forced_stale :
      (ttl now : ℕ) (c : JwksCache jwt) (old : Document)
      → c.doc ≡ some old
      → c.fetched_at + min_refresh_seconds ≤ now
      → is_fresh jwt ttl true now c ≡ false
  unfolding is_fresh
  forced_stale ttl now c old was age = ground (arith, was)

  -- The key of the first document, or of the one that is downloaded for want of it.
  second_lem :
      (ttl now : ℕ) (token kid : String) (c : JwksCache jwt) (new : Document) (new_keys : List Key)
      (k : Key) (others : JwksCache jwt → JwksCache jwt) (first : Option Key)
      → ((k' : Key) → first ≡ some k' → key_id k' ≡ some kid)
      → key_id k ≡ some kid
      → is_fresh jwt ttl true now c ≡ false
      → keys new ≡ some new_keys
      → find_key jwt new_keys (some kid) ≡ some k
      → (key : Key) × (key_id key ≡ some kid)
        × ((first_key jwt ttl now (answered new others) token (some kid) c first).0
            ≡ decoded jwt (decode token key))
  second_lem ttl now token kid c new new_keys k others (some k') ids id stale news there =
      (k', ids k' refl, refl)
  second_lem ttl now token kid c new new_keys k others none ids id stale news there =
      (k, id, rw (get_stale ttl now true new others c stale) (rw news (rw (there, second_key))))

  -- A token that names a key of the provider's present document is decoded with a key of that id, where
  -- the document in the cache is a minute old at least, whatever other requests do to the cache while one
  -- of its downloads is awaited.
  pub rotated :
      (s : AuthSettings) (now : ℕ) (token kid : String) (c : JwksCache jwt) (old new : Document)
      (old_keys new_keys : List Key) (k : Key) (others later : JwksCache jwt → JwksCache jwt)
      → (str_eq s.oidc_jwks_url "") ≡ false
      → kid_of token ≡ some (some kid)
      → c.doc ≡ some old
      → keys old ≡ some old_keys
      → keys new ≡ some new_keys
      → find_key jwt new_keys (some kid) ≡ some k
      → c.fetched_at + min_refresh_seconds ≤ now
      → (key : Key) × (key_id key ≡ some kid)
        × ((verify_oidc jwt s now (answered new others) (answered new later) token c).0
            ≡ decoded jwt (decode token key))
  unfolding verify_oidc
  rotated s now token kid c old new old_keys new_keys k others later url named was olds news there
        age =
      let ttl = s.oidc_jwks_ttl_seconds in
      let id = find_key_id new_keys kid k there in
      rw (url, if◌then◌else◌)
        (rw named (elim (Bool-cases (is_fresh jwt ttl false now c)) [
          | inr stale ↦
              (k, id, rw (get_stale ttl now false new others c stale) (rw news (rw there)))
          | inl fresh ↦ rw (get_fresh ttl now false (answered new others) old c was fresh) (
              rw olds (
                second_lem ttl now token kid c new new_keys k later
                  (find_key jwt old_keys (some kid)) (find_key_id old_keys kid) id
                  (forced_stale ttl now c old was age) news there))
        ]))
