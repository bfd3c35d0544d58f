-- ===== src/Agents/Tokens.antt =====
-- The tokens of URLs in app/services/agent_store.py: what stands in for a login on a download of a build
-- and on an installation script.
pub mod Validity
use open_v_center_backend.Prelude.{
  ℕ, ◌+◌, Bool, true, false, not, ◌≡◌, ◌||◌, Option, none, some, [], ◌∷◌, ◌++◌, ltb, ◌==◌,
  if◌then◌else◌,
}
use open_v_center_backend.Text.{Text, text_eq, is_empty, is_ascii}
use open_v_center_backend.Text.Decimal.{ℤ, pos, negsuc, str_of, int_of}
use open_v_center_backend.Vms.Paths.{codes}

-- `_hmac_hex` under the session secret: HMAC-SHA256 in hexadecimal, by the digits of which a token is
-- not empty and is ASCII.
pub record Mac : Type 0 where
  pub hmac_hex : Text → Text
  pub not_empty : (m : Text) → is_empty (hmac_hex m) ≡ false
  pub ascii : (m : Text) → is_ascii (hmac_hex m) ≡ true

pub record Signed : Type 0 where
  pub exp : Text
  pub token : Text

-- What a check comes to; `compare_digest` raises a TypeError where one of its texts is not ASCII.
pub data Verdict : Type 0 where
  accepted refused type_error : Verdict

unfoldable pub compare_digest : Text → Text → Verdict
compare_digest a b =
    if not (is_ascii a) || not (is_ascii b)
    then type_error
    else if text_eq a b
    then accepted
    else refused

unfoldable pub download_message : Text → ℕ → Text
download_message binary_id exp = binary_id ++ (b'.' ∷ str_of exp)

unfoldable pub scope_message : Text → ℕ → Text
scope_message scope exp = codes "scope:" ++ (scope ++ (b'.' ∷ str_of exp))

-- `ttl_seconds or settings.agent_download_url_ttl_seconds`
unfoldable pub ttl_or : Option ℕ → ℕ → ℕ
ttl_or none d = d
ttl_or (some t) d = if t == 0 then d else t

module _ (mac : Mac) where
  open mac use {hmac_hex}

  -- sign_download
  unfoldable pub sign_download : ℕ → ℕ → Text → Option ℕ → Signed
  unfolding ttl_or download_message
  sign_download now setting binary_id ttl_seconds =
      let exp = now + ttl_or ttl_seconds setting in
      record { exp = str_of exp; token = hmac_hex (download_message binary_id exp) }

  -- sign_scope
  unfoldable pub sign_scope : ℕ → Text → ℕ → Signed
  unfolding scope_message
  sign_scope now scope ttl_seconds =
      let exp = now + ttl_seconds in
      record { exp = str_of exp; token = hmac_hex (scope_message scope exp) }

  -- The checks from `exp_i = int(exp)` on; a negative time has passed.
  unfoldable pub check_expiry : ℕ → (ℕ → Text) → Text → Option ℤ → Verdict
  unfolding compare_digest
  check_expiry now message token none = refused
  check_expiry now message token (some (negsuc e)) = refused
  check_expiry now message token (some (pos e)) =
      if ltb e now then refused else compare_digest token (hmac_hex (message e))

  -- The body that verify_download and verify_scope share; a parameter that is missing is None.
  unfoldable pub verify : ℕ → (ℕ → Text) → Option Text → Option Text → Verdict
  unfolding check_expiry
  verify now message none token = refused
  verify now message (some exp) none = refused
  verify now message (some exp) (some token) =
      if is_empty exp || is_empty token
      then refused
      else check_expiry now message token (int_of exp)

  -- verify_download
  unfoldable pub verify_download : ℕ → Text → Option Text → Option Text → Verdict
  unfolding verify
  verify_download now binary_id exp token = verify now (download_message binary_id) exp token

  -- verify_scope
  unfoldable pub verify_scope : ℕ → Text → Option Text → Option Text → Verdict
  unfolding verify
  verify_scope now scope exp token = verify now (scope_message scope) exp token
