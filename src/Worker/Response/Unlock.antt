-- ===== src/Worker/Response/Unlock.antt =====
-- The VM lock across a task's terminal answer.
use open_v_center_backend.Prelude.{
  ℕ, String, ◌≡◌, refl, ◌∙◌, Bool, true, false, Option, none, some, List, [], ◌∷◌, arith, ==_iff,
  Bool-cases, Option-cases, inl, inr, nonempty, or_text, find, str_eq,
}
use open_v_center_backend.Models.{get_vm, put_vm}
use open_v_center_backend.Models.VmRows.{Vm}
use open_v_center_backend.Models.TaskRows.{Task, vm, AgentResponse}
use open_v_center_backend.Valkey.{vm_state, vm_lock, vm_deleted, Entry, Valkey}
use open_v_center_backend.Errors.{Result, ok, err}
use open_v_center_backend.World.{World, Env}
use open_v_center_backend.Cache.{
  set_vm_state, clear_vm_state, mark_vm_deleted, release_vm_lock, held_by,
}
use open_v_center_backend.Worker.Response.{
  Refreshed, Refreshes, stamp_placeholder, reported_here, write_overlay, adopt_placeholder, drop_vm,
  bury, apply_hint, finish_refresh, revert_of, revert_state, apply_response_state, settle_db,
  unlock, settle_task, apply_terminal,
}

module _ ⦃kv : Valkey⦄ (env : Env) (i : ℕ) where
  open kv use {Store, get}

  -- What is stored under a VM's lock key.
  abbrev pub held : Store → Option Entry
  held c = get env.now (vm_lock i) c

  held-set_vm_state :
      (j : ℕ) (st : String) (c : Store) → held (set_vm_state env.settings env.now j st c) ≡ held c
  unfolding set_vm_state
  held-set_vm_state j st c = kv.get-set env.now env.now (vm_state j) (vm_lock i) _ _ c (omega arith)

  held-clear_vm_state : (j : ℕ) (c : Store) → held (clear_vm_state env.now j c) ≡ held c
  unfolding clear_vm_state
  held-clear_vm_state j c = kv.get-delete env.now env.now (vm_state j) (vm_lock i) c (omega arith)

  held-mark_vm_deleted :
      (h : ℕ) (u : String) (c : Store) → held (mark_vm_deleted env.now h u c) ≡ held c
  unfolding mark_vm_deleted
  held-mark_vm_deleted h u c = elim (Bool-cases (str_eq u "")) [
    | inl e ↦ rw e
    | inr e ↦ rw e (kv.get-set env.now env.now (vm_deleted h u) (vm_lock i) _ _ c (omega arith))
  ]

  held-write_overlay : (l : List (ℕ × String)) (c : Store) → held (write_overlay env l c) ≡ held c
  held-write_overlay [] c = refl
  held-write_overlay ((j, st) ∷ l) c =
      held-write_overlay l (set_vm_state env.settings env.now j st c) ∙ held-set_vm_state j st c

  held-adopt :
      (rs : Refreshes) (host_id : ℕ) (resp : AgentResponse) (v : Vm) (w : World Store)
      → held (adopt_placeholder rs env host_id resp v w).cache ≡ held w.cache
  unfolding adopt_placeholder
  held-adopt rs host_id resp v w =
      let st = or_text resp.vm_state "Off" in
      let c = set_vm_state env.settings env.now v.id st w.cache in
      let r = rs.vm_status env.now host_id resp (put_vm v.id (stamp_placeholder resp st) w.db) in
      ground (arith, held-write_overlay r.overlay c, held-set_vm_state v.id st w.cache)

  held-hint :
      (host_id : ℕ) (resp : AgentResponse) (w : World Store)
      → held (apply_hint env host_id resp w).cache ≡ held w.cache
  unfolding apply_hint
  held-hint host_id resp w = elim (Option-cases (nonempty resp.vm_id)) [
    | inl e ↦ rw (e, apply_hint)
    | inr (u, e) ↦ elim (Option-cases (nonempty resp.vm_state)) [
      | inl e' ↦ rw (e, e', apply_hint)
      | inr (st, e') ↦ elim (Option-cases (find (reported_here host_id u) w.db.vms)) [
        | inl f ↦ rw (e, e', f, apply_hint)
        | inr (v, f) ↦ rw (e, e', f, apply_hint) (held-set_vm_state v.id st w.cache)
      ]
    ]
  ]

  held-drop : (j : ℕ) (w : World Store) → held (drop_vm env j w).cache ≡ held w.cache
  unfolding drop_vm
  held-drop j w = held-clear_vm_state j w.cache

  held-bury : (h : ℕ) (o : Option Vm) (w : World Store) → held (bury env h o w).cache ≡ held w.cache
  unfolding bury
  held-bury h none w = refl
  held-bury h (some v) w = elim (Option-cases (nonempty v.vm_uuid)) [
    | inl e ↦ rw (e, bury)
    | inr (u, e) ↦ rw (e, bury) (held-mark_vm_deleted h u w.cache)
  ]

  held-finish_refresh :
      (host_id : ℕ) (resp : AgentResponse) (r : Refreshed) (w : World Store)
      → held (finish_refresh env host_id resp r w).cache ≡ held w.cache
  unfolding finish_refresh
  held-finish_refresh host_id resp r w = go r.rows refl
    where
      c : Store
      c = write_overlay env r.overlay w.cache

      go :
          (rows : Result (List Vm × Bool))
          → r.rows ≡ rows
          → held (finish_refresh env host_id resp r w).cache ≡ held w.cache
      go (ok (rows, true)) e = rw e (held-write_overlay r.overlay w.cache)
      go (ok (rows, false)) e = rw e (
          held-hint host_id resp (record w { db = record w.db { vms = rows }; cache = c })
          ∙ held-write_overlay r.overlay w.cache)
      go (err x) e = rw e (held-write_overlay r.overlay w.cache)

  held-revert_state :
      (t : Task) (w : World Store) → held (revert_state env t w).cache ≡ held w.cache
  unfolding revert_state
  held-revert_state t w = elim (Option-cases (revert_of t.kind)) [
    | inl e ↦ rw (e, revert_state)
    | inr ((tr, before), e) ↦ elim (Option-cases (get_vm w.db t.target_id)) [
      | inl f ↦ ground (arith, e, f)
      | inr (v, f) ↦ ground (arith, e, f, held-set_vm_state v.id before w.cache)
    ]
  ]

  -- Folding the answer into the VM row and the overlay does not touch the lock.
  held-state :
      (rs : Refreshes) (host_id : ℕ) (resp : AgentResponse) (t : Task) (w : World Store)
      → held (apply_response_state rs env host_id resp t w).cache ≡ held w.cache
  unfolding apply_response_state
  held-state rs host_id resp t w = elim (Option-cases (get_vm w.db t.target_id)) [
    | inl e ↦ ground (
      arith,
      e,
      held-drop t.target_id (bury env host_id none w),
      held-bury host_id none w,
      held-finish_refresh host_id resp (rs.vm_status env.now host_id resp w.db) w,
      held-revert_state t w,
    )
    | inr (v, e) ↦ ground (
      arith,
      e,
      held-adopt rs host_id resp v w,
      held-drop v.id w,
      held-drop t.target_id (bury env host_id (some v) w),
      held-bury host_id (some v) w,
      held-finish_refresh host_id resp (rs.vm_status env.now host_id resp w.db) w,
      held-revert_state t w,
    )
  ]

module _ ⦃kv : Valkey⦄ (env : Env) (t : Task) (w : World kv.Store) where
  unlock-own :
      t.target_type ≡ vm → held_by (held env t.target_id (unlock env t w).cache) t.id ≡ false
  unfolding unlock release_vm_lock
  unlock-own e =
      ground (
        arith,
        e,
        kv.get-delete env.now env.now (vm_lock t.target_id) (vm_lock t.target_id) w.cache,
      )

  unlock-other :
      (i : ℕ)
      → held_by (held env i w.cache) t.id ≡ false
      → held env i (unlock env t w).cache ≡ held env i w.cache
  unfolding unlock release_vm_lock
  unlock-other i e = ground (
    arith,
    e,
    ==_iff t.target_id i,
    kv.get-delete env.now env.now (vm_lock t.target_id) (vm_lock i) w.cache,
  )

module _ ⦃kv : Valkey⦄ (rs : Refreshes) (env : Env) (host_id : ℕ) (resp : AgentResponse) (t : Task)
    (w : World kv.Store) where
  -- When a VM task has ended, in whatever way, the task does not hold the VM's lock any more.
  pub unlocked :
      t.target_type ≡ vm
      → held_by (held env t.target_id (apply_terminal rs env host_id resp t w).cache) t.id ≡ false
  unfolding apply_terminal
  unlocked is_vm_task =
      unlock-own env (settle_task rs env.now resp t)
        (apply_response_state rs env host_id resp (settle_task rs env.now resp t)
          (record w { db = settle_db rs env host_id resp t w.db }))
        is_vm_task

  -- The end of a task leaves the lock of every VM that it does not hold as it was.
  pub others_kept :
      (i : ℕ)
      → held_by (held env i w.cache) t.id ≡ false
      → held env i (apply_terminal rs env host_id resp t w).cache ≡ held env i w.cache
  unfolding apply_terminal
  others_kept i not_mine =
      let t' = settle_task rs env.now resp t in
      let w' = record w { db = settle_db rs env host_id resp t w.db } in
      let kept = held-state env i rs host_id resp t' w' in
      unlock-other env t' (apply_response_state rs env host_id resp t' w') i (rw kept not_mine)
      ∙ kept
