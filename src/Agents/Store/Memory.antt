-- ===== src/Agents/Store/Memory.antt =====
-- Files as a function of their paths: it meets the laws of the disk, so they can be met.
use open_v_center_backend.Prelude.{◌≡◌, refl, Option, none, some, ◌∷◌, ◌++◌, if◌then◌else◌}
use open_v_center_backend.Text.{Text, text_eq}
use open_v_center_backend.Agents.Store.Chunks.{Bytes}
use open_v_center_backend.Agents.Store.Disk.{Disk, Done, done, missing, state_of, is_done}

abbrev pub Files : Type 0
Files = Text → Option Bytes

abbrev pub set_file : Text → Option Bytes → Files → Files
set_file p b d q = if text_eq p q then b else d q

abbrev pub renamed : Text → Text → Files → Option Bytes → Done Files
renamed a p d none = missing d
renamed a p d (some b) = done (set_file p (some b) (set_file a none d))

abbrev pub removed : Text → Files → Option Bytes → Done Files
removed p d none = missing d
removed p d (some b) = done (set_file p none d)

pub contents-renamed :
    (a p q : Text) (d : Files) (o : Option Bytes)
    → d a ≡ o
    → state_of (renamed a p d o) q ≡ (
        if is_done (renamed a p d o)
        then (if text_eq p q then d a else if text_eq a q then none else d q)
        else d q)
contents-renamed a p q d none h = refl
contents-renamed a p q d (some b) h = rw h

pub contents-removed :
    (p q : Text) (d : Files) (o : Option Bytes)
    → state_of (removed p d o) q
      ≡ (if is_done (removed p d o) then (if text_eq p q then none else d q) else d q)
contents-removed p q d none = refl
contents-removed p q d (some b) = refl

pub removed_missing :
    (p : Text) (d e : Files) (o : Option Bytes) → removed p d o ≡ missing e → o ≡ none
removed_missing p d e none h = refl
removed_missing p d e (some b) h = cc

unfoldable pub memory_disk : Disk
memory_disk = record {
  State = Files;
  resolve = λ root key. root ++ (b'/' ∷ key);
  contents = λ d q. d q;
  mkdir = λ p d. done d;
  write = λ p b d. done (set_file p (some b) d);
  replace = λ a p d. renamed a p d (d a);
  unlink = λ p d. removed p d (d p);
  rmdir = λ p d. done d;
  contents-mkdir = λ p q d. refl;
  contents-write = λ p q b d h. refl;
  write_other = λ p q b d h. rw h;
  contents-replace = λ a p q d. contents-renamed a p q d (d a) refl;
  contents-unlink = λ p q d. contents-removed p q d (d p);
  unlink_missing = λ p d e h. removed_missing p d e (d p) h;
  contents-rmdir = λ p q d. refl;
}
