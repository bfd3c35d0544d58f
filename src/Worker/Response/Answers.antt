-- ===== src/Worker/Response/Answers.antt =====
-- inventory.apply_response as a whole: the branches of an answer to a known task.
use open_v_center_backend.Prelude.{
  ℕ, ◌≡◌, ◌∙◌, ap, true, false, not, ◌&&◌, some, [], ◌∷◌, arith, ◌==◌, find, any, find-update_where,
}
use open_v_center_backend.Models.{get_task}
use open_v_center_backend.Models.TaskRows.{Task, running, failed, vm, AgentResponse, is_terminal}
use open_v_center_backend.Valkey.{Valkey}
use open_v_center_backend.World.{World, Env}
use open_v_center_backend.Audit.{pending_for}
use open_v_center_backend.Cache.{held_by}
use open_v_center_backend.Worker.Response.{
  Refreshes, is_running, note_progress, settle_task, apply_terminal, answer, apply_response,
  strip_thumbnails, is_answered, or_else,
}
use open_v_center_backend.Worker.Response.Lifecycle.{settled_row, events_settled}
use open_v_center_backend.Worker.Response.Unlock.{held, unlocked}

module _ ⦃kv : Valkey⦄ (rs : Refreshes) (env : Env) (host_id : ℕ) (resp : AgentResponse) (t : Task)
    (w : World kv.Store) (answered : find (is_answered host_id resp) w.db.tasks ≡ some t)
    (row : get_task w.db t.id ≡ some t) where
  terminal_answer :
      (is_running resp.status && not (is_terminal t.status)) ≡ false
      → apply_response rs env host_id resp w
        ≡ apply_terminal rs env host_id (strip_thumbnails resp) t w
  unfolding apply_response answer
  terminal_answer ends = ground (arith, answered, ends)

  -- An answer that is no progress report settles a VM task in three places: the task row has the final
  -- fields, no audit event of the task is pending, and the task does not hold the VM's lock.
  pub answer_settles :
      t.target_type ≡ vm
      → is_running resp.status ≡ false
      → let w' = apply_response rs env host_id resp w in
        (get_task w'.db t.id ≡ some (settle_task rs env.now (strip_thumbnails resp) t))
        × (any (pending_for (t.id ∷ [])) w'.db.events ≡ false)
        × (held_by (held env t.target_id w'.cache) t.id ≡ false)
  answer_settles on_vm ends =
      let resp' = strip_thumbnails resp in
      let e = terminal_answer (ground (arith, ends)) in
      (
        ap (λ (x : World kv.Store). get_task x.db t.id) e
            ∙ settled_row rs env host_id resp' t w row,
        ap (λ (x : World kv.Store). any (pending_for (t.id ∷ [])) x.db.events) e
            ∙ events_settled rs env host_id resp' t w,
        ap (λ (x : World kv.Store). held_by (held env t.target_id x.cache) t.id) e
            ∙ unlocked rs env host_id resp' t w on_vm,
      )

  -- A progress report on a task that has not ended marks it running, keeps its first start time and
  -- its error, and leaves the cache and the VM rows as they were.
  pub progress_answer :
      is_running resp.status ≡ true
      → is_terminal t.status ≡ false
      → let w' = apply_response rs env host_id resp w in
        let t' = note_progress env.now (strip_thumbnails resp) t in
        (get_task w'.db t.id ≡ some t')
        × (t'.status ≡ running)
        × (t'.started_at ≡ some (or_else t.started_at env.now))
        × (t'.error ≡ t.error)
        × (w'.cache ≡ w.cache)
        × (w'.db.vms ≡ w.db.vms)
  unfolding apply_response answer note_progress
  progress_answer live running_now =
      let resp' = strip_thumbnails resp in
      let back =
        find-update_where (λ r. r.id == t.id) (note_progress env.now resp') w.db.tasks t
          (λ y same. same) row in
      ground (arith, answered, back)

  -- A progress report on a task that has ended, even one that succeeded, leaves it failed.
  pub late_progress_fails :
      is_running resp.status ≡ true
      → is_terminal t.status ≡ true
      → (t' : Task) × (get_task (apply_response rs env host_id resp w).db t.id ≡ some t')
        × (t'.status ≡ failed)
  unfolding settle_task strip_thumbnails
  late_progress_fails late ended =
      let resp' = strip_thumbnails resp in
      let e = terminal_answer (ground (arith, ended)) in
      (
        settle_task rs env.now resp' t,
        ap (λ (x : World kv.Store). get_task x.db t.id) e
            ∙ settled_row rs env host_id resp' t w row,
        ground arith,
      )
