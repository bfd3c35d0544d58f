-- ===== src/Agents/Store/Disk.antt =====
-- What app/services/agent_store.py uses of the file system.
use open_v_center_backend.Prelude.{◌≡◌, Bool, true, false, Option, none, some, if◌then◌else◌}
use open_v_center_backend.Text.{Text, text_eq}
use open_v_center_backend.Agents.Store.Chunks.{Bytes}

-- A call that is done, that finds no such file, or that raises another OSError. A call that raises leaves
-- a state too: a write may have got half way.
pub data Done (D : Type 0) : Type 0 where
  done missing os_error : D → Done D

abbrev pub state_of : {D : Type 0} → Done D → D
state_of (done d) = d
state_of (missing d) = d
state_of (os_error d) = d

abbrev pub is_done : {D : Type 0} → Done D → Bool
is_done (done d) = true
is_done (missing d) = false
is_done (os_error d) = false

-- The files of `Path`, `os` and aiofiles by their resolved paths, with POSIX's laws: directories are made
-- and removed beside the files, a write that fails harms no other file, and a rename is done in full or
-- not at all.
pub record Disk : Type 1 where
  pub State : Type 0
  -- `(root / key).resolve()`
  pub resolve : Text → Text → Text
  -- `path.is_file()`, and what the file holds
  pub contents : State → Text → Option Bytes
  -- `path.mkdir(parents=True, exist_ok=True)`
  pub mkdir : Text → State → Done State
  -- A file opened for writing, written and closed.
  pub write : Text → Bytes → State → Done State
  -- `os.replace(source, path)`
  pub replace : Text → Text → State → Done State
  -- `path.unlink()`
  pub unlink : Text → State → Done State
  -- `path.rmdir()`
  pub rmdir : Text → State → Done State
  pub contents-mkdir : (p q : Text) (d : State) → contents (state_of (mkdir p d)) q ≡ contents d q
  pub contents-write :
      (p q : Text) (b : Bytes) (d : State)
      → is_done (write p b d) ≡ true
      → contents (state_of (write p b d)) q ≡ (if text_eq p q then some b else contents d q)
  pub write_other :
      (p q : Text) (b : Bytes) (d : State)
      → text_eq p q ≡ false
      → contents (state_of (write p b d)) q ≡ contents d q
  pub contents-replace :
      (a p q : Text) (d : State)
      → contents (state_of (replace a p d)) q ≡ (
          if is_done (replace a p d)
          then (if text_eq p q then contents d a else if text_eq a q then none else contents d q)
          else contents d q)
  pub contents-unlink :
      (p q : Text) (d : State)
      → contents (state_of (unlink p d)) q ≡ (
          if is_done (unlink p d)
          then (if text_eq p q then none else contents d q)
          else contents d q)
  pub unlink_missing : (p : Text) (d e : State) → unlink p d ≡ missing e → contents d p ≡ none
  pub contents-rmdir : (p q : Text) (d : State) → contents (state_of (rmdir p d)) q ≡ contents d q
