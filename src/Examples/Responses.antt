-- ===== src/Examples/Responses.antt =====
-- Answers to the start of the first VM, and a sweep.
use open_v_center_backend.Prelude.{◌≡◌, refl, false, some, [], ◌∷◌, find, any, update_where, All}
use open_v_center_backend.Models.{get_task}
use open_v_center_backend.Models.TaskRows.{Task, failed, ResponseStatus}
use open_v_center_backend.Valkey.Memory.{memory}
use open_v_center_backend.Settings.{default_settings}
use open_v_center_backend.Errors.{ok}
use open_v_center_backend.World.{World, Env}
use open_v_center_backend.Audit.{pending_for}
use open_v_center_backend.Cache.{held_by}
use open_v_center_backend.Worker.Response.{
  Refreshes, is_answered, settle_task, apply_response, strip_thumbnails,
}
use open_v_center_backend.Worker.Response.Unlock.{held}
use open_v_center_backend.Worker.Response.Answers.{answer_settles, late_progress_fails}
use open_v_center_backend.Worker.Sweep.{expire, stale_tasks, sweep_stale_tasks}
use open_v_center_backend.Worker.Sweep.Overdue.{is_overdue, UniqueIds, sweep_exact}
use open_v_center_backend.Worker.Sweep.Release.{HoldsNothing, sweep_releases}
use open_v_center_backend.Examples.{env, world_with, start_task, ended_task, answer_of}

-- Refreshes that change no row.
abbrev quiet : Refreshes
quiet = record {
  vm_status = λ now host_id resp db. record { rows = ok (db.vms, false); overlay = [] };
  template = λ host_id item db. ok db.templates;
  show = λ v. "";
}

abbrev w : World memory.Store
w = world_with (start_task ∷ [])

abbrev over : World memory.Store
over = world_with (ended_task ∷ [])

answered : find (is_answered 1 (answer_of ResponseStatus.succeeded)) w.db.tasks ≡ some start_task
unfolding find
answered = refl

row : get_task w.db 7 ≡ some start_task
unfolding find
row = refl

ended_answered :
    find (is_answered 1 (answer_of ResponseStatus.running)) over.db.tasks ≡ some ended_task
unfolding find
ended_answered = refl

ended_row : get_task over.db 7 ≡ some ended_task
unfolding find
ended_row = refl

answer_settles_example :
    let w' = apply_response ⦃kv = memory⦄ quiet env 1 (answer_of ResponseStatus.succeeded) w in
    (get_task w'.db 7
      ≡ some (
          settle_task quiet 1000
            (strip_thumbnails (answer_of ResponseStatus.succeeded))
            start_task))
    × (any (pending_for (7 ∷ [])) w'.db.events ≡ false)
    × (held_by (held ⦃kv = memory⦄ env 10 w'.cache) 7 ≡ false)
answer_settles_example =
    answer_settles ⦃kv = memory⦄ quiet env 1 (answer_of ResponseStatus.succeeded) start_task w
      answered row refl refl

late_progress_fails_example :
    (t' : Task) × (get_task
        (apply_response ⦃kv = memory⦄ quiet env 1 (answer_of ResponseStatus.running) over).db
        7
      ≡ some t')
    × (t'.status ≡ failed)
late_progress_fails_example =
    late_progress_fails ⦃kv = memory⦄ quiet env 1 (answer_of ResponseStatus.running) ended_task over
      ended_answered ended_row refl refl

-- A day later nobody has answered.
abbrev late : Env
late = record env { now = 90000 }

one_row : UniqueIds w.db.tasks
unfolding any
one_row = (refl, tt)

sweep_exact_example :
    (sweep_stale_tasks ⦃kv = memory⦄ late w).db.tasks
    ≡ update_where (is_overdue default_settings 90000) (expire 90000) w.db.tasks
sweep_exact_example = sweep_exact ⦃kv = memory⦄ late w one_row

sweep_releases_example :
    All
      (HoldsNothing ⦃kv = memory⦄ 90000 (sweep_stale_tasks ⦃kv = memory⦄ late w).cache)
      (stale_tasks default_settings 90000 w.db.tasks)
sweep_releases_example = sweep_releases ⦃kv = memory⦄ late w
