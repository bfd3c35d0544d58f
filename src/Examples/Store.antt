-- ===== src/Examples/Store.antt =====
-- A build on a disk of files, and the tokens of its URLs.
use open_v_center_backend.Prelude.{
  ℕ, ◌+◌, ◌≤◌, ◌≡◌, refl, arith, true, false, none, some, List, [], ◌∷◌, All, if◌then◌else◌, ltb,
}
use open_v_center_backend.Text.{Text, text_eq, starts_with, is_empty, is_ascii}
use open_v_center_backend.Text.Laws.{text_eq_sound, text_eq_refl}
use open_v_center_backend.Text.Decimal.{pos, str_of, emit, int_of, scan, signed}
use open_v_center_backend.Vms.Paths.{codes, strip, rstrip, drop_while, is_space}
use open_v_center_backend.Agents.Tokens.{
  Mac, refused, accepted, type_error, ttl_or, scope_message, compare_digest, sign_scope,
  sign_download, check_expiry, verify, verify_scope, verify_download,
}
use open_v_center_backend.Agents.Tokens.Validity.{signed_until, token_bound, nonascii_raises}
use open_v_center_backend.Agents.Store.Chunks.{Bytes, read, copy, stream, stream_ends, joined, Fits}
use open_v_center_backend.Agents.Store.Memory.{memory_disk}
use open_v_center_backend.Agents.Store.Local.{
  chunk_size, path_of, temporary, put_file, open_stream, move_in, copy_to,
}
use open_v_center_backend.Agents.Store.Contents.{put_file-open_stream}

abbrev root : Text
root = codes "/var/agents"

abbrev key : Text
key = codes "b1/agent.exe"

abbrev target : Text
target = codes "/var/agents/b1/agent.exe"

abbrev upload : Text
upload = codes "/tmp/upload"

unfoldable files : memory_disk.State
unfolding memory_disk
files p = if text_eq upload p then some (77 ∷ 90 ∷ []) else none

key_path : path_of memory_disk root key ≡ some target
unfolding path_of memory_disk starts_with
key_path = refl

uploaded : memory_disk.contents files upload ≡ some (77 ∷ 90 ∷ [])
unfolding memory_disk files text_eq
uploaded = refl

stored : (put_file memory_disk root 7 key upload files).0 ≡ true
unfolding put_file path_of memory_disk starts_with files text_eq copy_to move_in copy read temporary
    str_of
stored = refl

put_file-open_stream_example :
    (chunks : List Bytes) × (open_stream memory_disk root key
        (put_file memory_disk root 7 key upload files).1
      ≡ some chunks)
    × (joined chunks ≡ 77 ∷ 90 ∷ [])
    × All (Fits chunk_size) chunks
put_file-open_stream_example =
    put_file-open_stream memory_disk root 7 key upload target (77 ∷ 90 ∷ []) files key_path uploaded
      stored

stream_ends_example :
    (chunks : List Bytes) × (stream 4 2 (1 ∷ 2 ∷ 3 ∷ []) ≡ some chunks)
    × (joined chunks ≡ 1 ∷ 2 ∷ 3 ∷ [])
    × All (Fits 2) chunks
stream_ends_example = stream_ends 4 2 (1 ∷ 2 ∷ 3 ∷ []) (omega arith) (omega arith)

-- The message whose MAC is told apart from all others.
abbrev install_message : Text
install_message = scope_message (codes "install") 1600

abbrev digest : Text → Text
digest m = if text_eq m install_message then codes "5f" else codes "e1"

digest_nonempty : (m : Text) → is_empty (digest m) ≡ false
digest_nonempty m = ground arith

digest_ascii : (m : Text) → is_ascii (digest m) ≡ true
unfolding is_ascii
digest_ascii m = ground arith

unfoldable mac : Mac
mac = record { hmac_hex = digest; not_empty = digest_nonempty; ascii = digest_ascii }

signed_until_example :
    (verify_scope mac 1200
        (codes "install")
        (some (sign_scope mac 1000 (codes "install") 600).exp)
        (some (sign_scope mac 1000 (codes "install") 600).token)
      ≡ (if ltb (1000 + 600) 1200 then refused else accepted))
    × (verify_download mac 1200
          (codes "b1")
          (some (sign_download mac 1000 900 (codes "b1") none).exp)
          (some (sign_download mac 1000 900 (codes "b1") none).token)
        ≡ (if ltb (1000 + ttl_or none 900) 1200 then refused else accepted))
signed_until_example = signed_until mac 1200 1000 600 900 (codes "install") (codes "b1") none

no_clash :
    (e : ℕ)
    → mac.hmac_hex (scope_message (codes "install") e)
      ≡ mac.hmac_hex (scope_message (codes "install") (1000 + 600))
    → scope_message (codes "install") e ≡ scope_message (codes "install") (1000 + 600)
unfolding mac
no_clash e h =
    text_eq_sound (scope_message (codes "install") e) install_message
      (ground (arith, h, text_eq_refl install_message))

accepted_now :
    verify_scope mac 1200
      (codes "install")
      (some (codes "1600"))
      (some (sign_scope mac 1000 (codes "install") 600).token)
    ≡ accepted
unfolding mac verify_scope sign_scope verify check_expiry compare_digest scope_message text_eq
    is_ascii int_of strip rstrip drop_while is_space signed scan str_of emit
accepted_now = refl

token_bound_example :
    (codes "install" ≡ codes "install")
    × (int_of (codes "1600") ≡ some (pos (1000 + 600)))
    × (1200 ≤ 1000 + 600)
token_bound_example =
    token_bound mac 1200 1000 600 (codes "install") (codes "install") (codes "1600") no_clash
      accepted_now

read_expiry : int_of (codes "1600") ≡ some (pos 1600)
unfolding int_of strip rstrip drop_while is_space signed scan
read_expiry = refl

accented : is_ascii (233 ∷ []) ≡ false
unfolding is_ascii
accented = refl

nonascii_raises_example :
    (verify_scope mac 1200 (codes "install") (some (codes "1600")) (some (233 ∷ [])) ≡ type_error)
    × (verify_download mac 1200 (codes "b1") (some (codes "1600")) (some (233 ∷ [])) ≡ type_error)
nonascii_raises_example =
    nonascii_raises mac 1200 1600 (codes "install") (codes "b1") (codes "1600") (233 ∷ [])
      read_expiry (omega arith) accented
