-- ===== src/Agents/Store/Local.antt =====
-- LocalAgentStore. Its root is a resolved path, and stands as a text. The source of put_file is another
-- file than the temporary one.
use open_v_center_backend.Prelude.{
  ℕ, suc, Bool, true, false, not, Option, none, some, List, [], ◌∷◌, ◌++◌, length, ◌==◌,
  if◌then◌else◌,
}
use mathlib.Core.List.{reverse}
use open_v_center_backend.Text.{Text, text_eq, starts_with, is_empty}
use open_v_center_backend.Text.Decimal.{str_of}
use open_v_center_backend.Vms.Paths.{codes, drop_while, rstrip}
use open_v_center_backend.Agents.Tokens.{Mac, sign_download}
use open_v_center_backend.Agents.Store.Chunks.{Bytes, copy, stream}
use open_v_center_backend.Agents.Store.Disk.{Disk, Done, done, missing, os_error, state_of, is_done}

-- _CHUNK
abbrev pub chunk_size : ℕ
chunk_size = 1048576

-- object_key
unfoldable pub object_key : Text → Text → Text
object_key binary_id filename = binary_id ++ (b'/' ∷ filename)

-- `dst.with_suffix(dst.suffix + f".{os.getpid()}.tmp")`
unfoldable pub temporary : ℕ → Text → Text
temporary pid dst = dst ++ (b'.' ∷ (str_of pid ++ codes ".tmp"))

-- `path.parent`
unfoldable pub parent : Text → Text
unfolding drop_while
parent p = above (drop_while (λ c. not (c == b'/')) (reverse p))
  where
    above : Text → Text
    above [] = codes "/"
    above (c ∷ []) = codes "/"
    above (c ∷ (d ∷ s)) = reverse (d ∷ s)

-- `{base}{api_prefix}/agent-binaries/{id}/download?exp=…&token=…`, None without a base; digits and
-- hexadecimal digits are not quoted.
unfoldable pub download_url : Mac → ℕ → ℕ → Text → Text → Text → Option Text
unfolding rstrip sign_download
download_url mac now setting public_base_url api_prefix binary_id =
    let base = rstrip (λ c. c == b'/') public_base_url in
    let s = sign_download mac now setting binary_id none in
    if is_empty base
    then none
    else some (
        base
        ++ (api_prefix
            ++ (codes "/agent-binaries/"
                ++ (binary_id
                    ++ (codes "/download?exp=" ++ (s.exp ++ (codes "&token=" ++ s.token)))))))

module _ (disk : Disk) (root : Text) where
  open disk use {State, resolve, contents, mkdir, write, replace, unlink, rmdir}

  -- _path; none is an AgentStoreError.
  unfoldable pub path_of : Text → Option Text
  unfolding starts_with
  path_of key = let p = resolve root key in if starts_with p root then some p else none

  -- The temporary file with the bytes that were copied, and its move to the target; the flag says that no
  -- error was raised.
  unfoldable pub move_in : Text → Text → Option Bytes → State → Bool × State
  move_in tmp dst none d = (false, d)
  move_in tmp dst (some copied) d =
      let w = write tmp copied d in
      let r = replace tmp dst (state_of w) in
      if is_done w then (is_done r, state_of r) else (false, state_of w)

  -- The copy of the source, if it is there; the loop gets the rounds that it needs.
  unfoldable pub copy_to : Text → Text → Option Bytes → State → Bool × State
  unfolding move_in
  copy_to tmp dst none d = (false, d)
  copy_to tmp dst (some b) d = move_in tmp dst (copy (suc (length b)) chunk_size b []) d

  abbrev pub put_at : ℕ → Text → State → Option Text → Bool × State
  put_at pid source d none = (false, d)
  put_at pid source d (some dst) =
      let m = mkdir (parent dst) d in
      if is_done m
      then copy_to (temporary pid dst) dst (contents (state_of m) source) (state_of m)
      else (false, state_of m)

  -- put_file, with the process id; false is an AgentStoreError.
  unfoldable pub put_file : ℕ → Text → Text → State → Bool × State
  unfolding path_of copy_to
  put_file pid key source d = put_at pid source d (path_of key)

  abbrev pub stream_of : Option Bytes → Option (List Bytes)
  stream_of none = none
  stream_of (some b) = stream (suc (length b)) chunk_size b

  abbrev pub open_at : State → Option Text → Option (List Bytes)
  open_at d none = none
  open_at d (some p) = stream_of (contents d p)

  -- open_stream: the chunks in their order; none is an AgentStoreError.
  unfoldable pub open_stream : Text → State → Option (List Bytes)
  unfolding path_of
  open_stream key d = open_at d (path_of key)

  -- The directory of the build goes too, if it can.
  abbrev pub drop_parent : Text → State → State
  drop_parent p d = if text_eq (parent p) root then d else state_of (rmdir (parent p) d)

  abbrev pub unlinked : Text → Done State → Bool × State
  unlinked p (done d) = (true, drop_parent p d)
  unlinked p (missing d) = (true, drop_parent p d)
  unlinked p (os_error d) = (false, d)

  abbrev pub delete_at : State → Option Text → Bool × State
  delete_at d none = (false, d)
  delete_at d (some p) = unlinked p (unlink p d)

  -- delete; false is an AgentStoreError.
  unfoldable pub delete : Text → State → Bool × State
  unfolding path_of
  delete key d = delete_at d (path_of key)
