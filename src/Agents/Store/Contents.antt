-- ===== src/Agents/Store/Contents.antt =====
-- What the disk holds after the calls of LocalAgentStore.
use open_v_center_backend.Prelude.{
  ℕ, suc, ◌≡◌, refl, sym, ◌∙◌, Bool, true, false, Option, none, some, List, [], ◌∷◌, ◌++◌, arith,
  length, All, inl, inr, Bool-cases, if◌then◌else◌,
}
use open_v_center_backend.Text.{Text, text_eq}
use open_v_center_backend.Text.Laws.{text_eq_refl, text_eq_sound}
use open_v_center_backend.Agents.Store.Chunks.{Bytes, copy_ends, stream_ends, joined, Fits}
use open_v_center_backend.Agents.Store.Disk.{Disk, Done, done, missing, os_error, state_of}
use open_v_center_backend.Agents.Store.Local.{
  chunk_size, temporary, parent, path_of, move_in, copy_to, put_at, put_file, open_stream,
  drop_parent, unlinked, delete,
}

text_eq_longer : (s : Text) (c : ℕ) (t : Text) → text_eq (s ++ (c ∷ t)) s ≡ false
unfolding text_eq
text_eq_longer [] c t = refl
text_eq_longer (x ∷ s) c t = ground (arith, text_eq_longer s c t)

module _ (disk : Disk) (root : Text) where
  open disk use {
    State, contents, mkdir, write, replace, unlink, rmdir, contents-mkdir, contents-write,
    write_other, contents-replace, contents-unlink, unlink_missing, contents-rmdir,
  }

  -- What a file holds after a put: the target has the source's bytes if no error was raised.
  abbrev AfterPut : Text → Option Bytes → State → Bool × State → Text → Type 0
  AfterPut dst source d r q =
      contents r.1 q
      ≡ (if r.0 then (if text_eq dst q then source else contents d q) else contents d q)

  move_in-AfterPut :
      (tmp dst q : Text) (b : Bytes) (d : State)
      → text_eq tmp q ≡ false
      → AfterPut dst (some b) d (move_in disk root tmp dst (some b) d) q
  unfolding move_in
  move_in-AfterPut tmp dst q b d other =
      let w = state_of (write tmp b d) in
      ground (
        arith,
        contents-write tmp tmp b d,
        write_other tmp q b d other,
        contents-replace tmp dst q w,
        text_eq_refl tmp,
        other,
      )

  copy_to-AfterPut :
      (tmp dst q : Text) (source : Option Bytes) (d : State)
      → text_eq tmp q ≡ false
      → AfterPut dst source d (copy_to disk root tmp dst source d) q
  unfolding copy_to
  copy_to-AfterPut tmp dst q none d other = refl
  copy_to-AfterPut tmp dst q (some b) d other =
      rw (copy_ends (suc (length b)) chunk_size b [] (omega arith) (omega arith))
        (move_in-AfterPut tmp dst q b d other)

  put_at-AfterPut :
      (pid : ℕ) (source dst q : Text) (d : State)
      → text_eq (temporary pid dst) q ≡ false
      → AfterPut dst (contents d source) d (put_at disk root pid source d (some dst)) q
  put_at-AfterPut pid source dst q d other =
      let m = state_of (mkdir (parent dst) d) in
      ground (
        arith,
        contents-mkdir (parent dst) q d,
        contents-mkdir (parent dst) source d,
        copy_to-AfterPut (temporary pid dst) dst q (contents m source) m other,
      )

  -- After a put of a file whose key has a path, whether it raised or not, each file but the temporary one
  -- holds what it held, except that a put that raised nothing leaves the source's bytes at the path.
  pub contents-put_file :
      (pid : ℕ) (key source dst q : Text) (d : State)
      → path_of disk root key ≡ some dst
      → text_eq (temporary pid dst) q ≡ false
      → contents (put_file disk root pid key source d).1 q ≡ (
          if (put_file disk root pid key source d).0
          then (if text_eq dst q then contents d source else contents d q)
          else contents d q)
  unfolding put_file
  contents-put_file pid key source dst q d path other =
      rw path (put_at-AfterPut pid source dst q d other)

  temporary_other : (pid : ℕ) (dst : Text) → text_eq (temporary pid dst) dst ≡ false
  unfolding temporary
  temporary_other pid dst = text_eq_longer dst b'.' _

  -- What was put comes back: after a put that raised nothing, a download of the key ends with chunks of 1
  -- to 2 ^ 20 bytes that make up the source.
  pub put_file-open_stream :
      (pid : ℕ) (key source dst : Text) (b : Bytes) (d : State)
      → path_of disk root key ≡ some dst
      → contents d source ≡ some b
      → (put_file disk root pid key source d).0 ≡ true
      → (chunks : List Bytes) × (open_stream disk root key (put_file disk root pid key source d).1
          ≡ some chunks)
        × (joined chunks ≡ b)
        × All (Fits chunk_size) chunks
  unfolding open_stream
  put_file-open_stream pid key source dst b d path there good =
      let d' = (put_file disk root pid key source d).1 in
      let stored : contents d' dst ≡ some b =
        contents-put_file pid key source dst dst d path (temporary_other pid dst)
        ∙ rw good (rw (text_eq_refl dst) there) in
      let (chunks, same, whole, each) =
        stream_ends (suc (length b)) chunk_size b (omega arith) (omega arith) in
      (chunks, rw path (rw stored same), whole, each)

  drop_parent_kept :
      (p q : Text) (d : State) → contents (drop_parent disk root p d) q ≡ contents d q
  drop_parent_kept p q d = ground (arith, contents-rmdir (parent p) q d)

  contents-unlinked :
      (p q : Text) (d : State) (r : Done State)
      → unlink p d ≡ r
      → contents (unlinked disk root p r).1 q ≡ (
          if (unlinked disk root p r).0
          then (if text_eq p q then none else contents d q)
          else contents d q)
  contents-unlinked p q d (done e) h =
      drop_parent_kept p q e ∙ (let law = contents-unlink p q d in rw h at law)
  contents-unlinked p q d (missing e) h =
      let same : contents e q ≡ contents d q = let law = contents-unlink p q d in rw h at law in
      drop_parent_kept p q e ∙ same ∙ (elim (Bool-cases (text_eq p q)) [
        | inl y ↦ rw (y, if◌then◌else◌) (rw (sym (text_eq_sound p q y)) (unlink_missing p d e h))
        | inr n ↦ rw n
      ])
  contents-unlinked p q d (os_error e) h = let law = contents-unlink p q d in rw h at law

  -- After a delete of a key that has a path, the file is gone, also where it was not there before, unless
  -- the call raised; every other file is as it was.
  pub contents-delete :
      (key p q : Text) (d : State)
      → path_of disk root key ≡ some p
      → contents (delete disk root key d).1 q ≡ (
          if (delete disk root key d).0
          then (if text_eq p q then none else contents d q)
          else contents d q)
  unfolding delete
  contents-delete key p q d path = rw path (contents-unlinked p q d (unlink p d) refl)
