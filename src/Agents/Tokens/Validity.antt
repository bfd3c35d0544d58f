-- ===== src/Agents/Tokens/Validity.antt =====
-- For how long a token is good, and for what.
use open_v_center_backend.Prelude.{
  ℕ, ◌+◌, ◌≤◌, ◌≡◌, ◌≢◌, refl, sym, ◌∙◌, Bool, true, false, Option, none, some, [], ◌∷◌, ◌++◌,
  arith, ltb, inl, inr, ap, Bool-cases, All, All-map, ◌||◌, if◌then◌else◌,
}
use open_v_center_backend.Text.{Text, is_empty, is_ascii}
use open_v_center_backend.Text.Laws.{text_eq_refl, text_eq_sound, last_separator, append_cancel}
use open_v_center_backend.Text.Decimal.{ℤ, pos, negsuc, str_of, int_of, is_digit, scan, signed}
use open_v_center_backend.Text.Decimal.RoundTrip.{
  int_of-str_of, str_of_digits, str_of_injective, scan-str_of,
}
use open_v_center_backend.Agents.Tokens.{
  Mac, accepted, refused, type_error, compare_digest, download_message, scope_message, ttl_or,
  sign_download, sign_scope, check_expiry, verify, verify_download, verify_scope,
}
use open_v_center_backend.Vms.Paths.{codes, strip, rstrip, drop_while}

no_dot : (n : ℕ) → All (λ c. c ≢ b'.') (str_of n)
no_dot n =
    All-map (λ c. is_digit c ≡ true) (λ c. c ≢ b'.') (str_of n) (λ c h e. ground (arith, h, e))
      (str_of_digits n)

message_injective :
    (s t : Text) (m n : ℕ) → s ++ (b'.' ∷ str_of m) ≡ t ++ (b'.' ∷ str_of n) → (s ≡ t) × (m ≡ n)
message_injective s t m n e =
    let (same, digits) = last_separator b'.' s t (str_of m) (str_of n) (no_dot m) (no_dot n) e in
    (same, str_of_injective m n digits)

not_empty_of_scan : (s : Text) (n : ℕ) → scan true s 0 ≡ some n → is_empty s ≡ false
unfolding scan
not_empty_of_scan [] n h = cc
not_empty_of_scan (c ∷ s) n h = refl

str_of_nonempty : (n : ℕ) → is_empty (str_of n) ≡ false
str_of_nonempty n = not_empty_of_scan (str_of n) n (scan-str_of n)

ascii_nonempty : (s : Text) → is_ascii s ≡ false → is_empty s ≡ false
unfolding is_ascii
ascii_nonempty [] h = cc
ascii_nonempty (c ∷ s) h = refl

int_of_nonempty : (s : Text) (z : ℤ) → int_of s ≡ some z → is_empty s ≡ false
unfolding int_of signed strip rstrip drop_while
int_of_nonempty [] z h = cc
int_of_nonempty (c ∷ s) z h = refl

module _ (mac : Mac) where
  open mac use {hmac_hex, not_empty, ascii}

  compare_own : (m : Text) → compare_digest (hmac_hex m) (hmac_hex m) ≡ accepted
  unfolding compare_digest
  compare_own m = ground (arith, ascii m, text_eq_refl (hmac_hex m))

  compare_sound : (a b : Text) → compare_digest a b ≡ accepted → a ≡ b
  unfolding compare_digest
  compare_sound a b h = text_eq_sound a b (ground (arith, h))

  -- A token is checked against its own message as long as it has not expired.
  verify_own :
      (now exp : ℕ) (message : ℕ → Text)
      → verify mac now message (some (str_of exp)) (some (hmac_hex (message exp)))
        ≡ (if ltb exp now then refused else accepted)
  unfolding verify check_expiry
  verify_own now exp message =
      rw (str_of_nonempty exp)
        (rw (not_empty (message exp)) (rw (int_of-str_of exp) (rw (compare_own (message exp)))))

  check_sound :
      (now : ℕ) (message : ℕ → Text) (token : Text) (o : Option ℤ)
      → check_expiry mac now message token o ≡ accepted
      → (e : ℕ) × (o ≡ some (pos e)) × (token ≡ hmac_hex (message e)) × (now ≤ e)
  unfolding check_expiry
  check_sound now message token none h = cc
  check_sound now message token (some (negsuc e)) h = cc
  check_sound now message token (some (pos e)) h = elim (Bool-cases (ltb e now)) [
    | inl late ↦ cc (
        ap {A = Bool} (λ b. if b then refused else compare_digest token (hmac_hex (message e)))
          late)
    | inr good ↦ (
      e,
      refl,
      compare_sound token (hmac_hex (message e)) (ground (arith, h, good)),
      ground arith,
    )
  ]

  verify_sound :
      (now : ℕ) (message : ℕ → Text) (exp token : Text)
      → verify mac now message (some exp) (some token) ≡ accepted
      → (e : ℕ) × (int_of exp ≡ some (pos e)) × (token ≡ hmac_hex (message e)) × (now ≤ e)
  unfolding verify
  verify_sound now message exp token h = elim (Bool-cases (is_empty exp || is_empty token)) [
    | inl e ↦ cc (rw e at h)
    | inr e ↦ check_sound now message token (int_of exp) (rw (e, if◌then◌else◌) at h)
  ]

  verify_raises :
      (now e : ℕ) (message : ℕ → Text) (exp token : Text)
      → int_of exp ≡ some (pos e)
      → now ≤ e
      → is_ascii token ≡ false
      → verify mac now message (some exp) (some token) ≡ type_error
  unfolding verify check_expiry compare_digest
  verify_raises now e message exp token read good odd =
      let late : ltb e now ≡ false = ground arith in
      rw (int_of_nonempty exp (pos e) read)
        (rw (ascii_nonempty token odd) (rw read (rw (late, if◌then◌else◌) (rw odd))))

  -- The tokens of a scope and of a download are accepted for what they were signed for until their time
  -- to live has passed, and refused from then on.
  pub signed_until :
      (now issued ttl setting : ℕ) (scope binary_id : Text) (given : Option ℕ)
      → (verify_scope mac now scope
            (some (sign_scope mac issued scope ttl).exp)
            (some (sign_scope mac issued scope ttl).token)
          ≡ (if ltb (issued + ttl) now then refused else accepted))
        × (verify_download mac now binary_id
              (some (sign_download mac issued setting binary_id given).exp)
              (some (sign_download mac issued setting binary_id given).token)
            ≡ (if ltb (issued + ttl_or given setting) now then refused else accepted))
  unfolding sign_scope verify_scope sign_download verify_download
  signed_until now issued ttl setting scope binary_id given = (
    verify_own now (issued + ttl) (scope_message scope),
    verify_own now (issued + ttl_or given setting) (download_message binary_id),
  )

  -- A token of a scope is accepted for no other scope, with no other expiry and not after it, where no
  -- message of the scope that is asked for has the MAC of another message.
  pub token_bound :
      (now issued ttl : ℕ) (scope other exp : Text)
      → ((e : ℕ)
          → hmac_hex (scope_message other e) ≡ hmac_hex (scope_message scope (issued + ttl))
          → scope_message other e ≡ scope_message scope (issued + ttl))
      → verify_scope mac now other (some exp) (some (sign_scope mac issued scope ttl).token)
        ≡ accepted
      → (other ≡ scope) × (int_of exp ≡ some (pos (issued + ttl))) × (now ≤ issued + ttl)
  unfolding verify_scope sign_scope
  token_bound now issued ttl scope other exp free h =
      let (e, read, made, good) = verify_sound now (scope_message other) exp _ h in
      let same : scope_message other e ≡ scope_message scope (issued + ttl) = free e (sym made) in
      let (s, n) : (other ≡ scope) × (e ≡ issued + ttl) =
        message_injective other scope e (issued + ttl)
          (append_cancel (codes "scope:") _ _ (unfold scope_message in same)) in
      (s, read ∙ ap (λ x. some (pos x)) n, omega (arith, n, good))

  -- A token of a scope passes for a download only of an id that begins with "scope:".
  pub token_not_download :
      (now issued ttl : ℕ) (scope binary_id exp : Text)
      → ((e : ℕ)
          → hmac_hex (download_message binary_id e) ≡ hmac_hex (scope_message scope (issued + ttl))
          → download_message binary_id e ≡ scope_message scope (issued + ttl))
      → verify_download mac now binary_id (some exp) (some (sign_scope mac issued scope ttl).token)
        ≡ accepted
      → binary_id ≡ codes "scope:" ++ scope
  unfolding verify_download sign_scope
  token_not_download now issued ttl scope binary_id exp free h =
      let (e, read, made, good) = verify_sound now (download_message binary_id) exp _ h in
      (message_injective binary_id (codes "scope:" ++ scope) e (issued + ttl)
        (unfold download_message scope_message in free e (sym made))).0

  -- A token with a character beyond ASCII, with an expiry that has not passed, makes both checks raise a
  -- TypeError.
  pub nonascii_raises :
      (now e : ℕ) (scope binary_id exp token : Text)
      → int_of exp ≡ some (pos e)
      → now ≤ e
      → is_ascii token ≡ false
      → (verify_scope mac now scope (some exp) (some token) ≡ type_error)
        × (verify_download mac now binary_id (some exp) (some token) ≡ type_error)
  unfolding verify_scope verify_download
  nonascii_raises now e scope binary_id exp token read good odd =
      (raised (scope_message scope), raised (download_message binary_id))
    where
      raised : (message : ℕ → Text) → verify mac now message (some exp) (some token) ≡ type_error
      raised message = verify_raises now e message exp token read good odd
