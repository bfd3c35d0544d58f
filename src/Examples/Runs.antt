-- ===== src/Examples/Runs.antt =====
-- Runs of the backend: the start of the first VM is answered, or nobody answers it in a day.
use open_v_center_backend.Prelude.{
  if◌then◌else◌, none, String, not, ◌&&◌, ◌||◌, str_eq, str_in, ◌≡◌, ◌+◌, ltb, refl, true, some, [],
  ◌∷◌, any, find,
}
use open_v_center_backend.Json.{end}
use open_v_center_backend.Models.{get_task}
use open_v_center_backend.Models.TaskRows.{ResponseStatus}
use open_v_center_backend.Valkey.Memory.{memory}
use open_v_center_backend.Timeouts.{task_timeout_seconds, get_or_zero}
use open_v_center_backend.World.{World, Env}
use open_v_center_backend.Worker.Consumers.{Runtime, QueueKind, handle_message}
use open_v_center_backend.Worker.Subscriptions.{
  Consumers, Attempt, channel, failed, refresh_subscriptions,
}
use open_v_center_backend.Worker.Subscriptions.Refresh.{
  gives_channel, is_raised, any_host, before, refreshed,
}
use open_v_center_backend.Worker.Sweep.{sweep_stale_tasks}
use open_v_center_backend.Worker.Sweep.Overdue.{UniqueIds}
use open_v_center_backend.Worker.Steps.{Step, Run}
use open_v_center_backend.Worker.Steps.Tasks.{Moves}
use open_v_center_backend.Worker.Steps.Ended.{has_ended, run_advances, sweep_ends}
use open_v_center_backend.Examples.{env, world_with, start_task, answer_of}
use open_v_center_backend.Examples.Snapshots.{python}

abbrev runtime : Runtime
runtime = record {
  py = python;
  loads = λ body. some end;
  validate = λ d. some (answer_of ResponseStatus.running);
  new_id = λ i. i;
  event_id = λ i. i;
  template_id = λ i. "t";
}

abbrev w : World memory.Store
w = world_with (start_task ∷ [])

one_row : UniqueIds w.db.tasks
unfolding any
one_row = (refl, tt)

row : get_task w.db 7 ≡ some start_task
unfolding find
row = refl

abbrev answered : World memory.Store
answered = handle_message ⦃kv = memory⦄ runtime env 1 QueueKind.response [] w

abbrev one_answer : Run ⦃kv = memory⦄ w answered
one_answer = Run.next (Step.message runtime env 1 QueueKind.response []) Run.stop

run_advances_example : Moves w.db.tasks answered.db.tasks
run_advances_example = run_advances ⦃kv = memory⦄ one_answer one_row

-- A day later.
abbrev late : Env
late = record env { now = 90000 }

abbrev swept : World memory.Store
swept = sweep_stale_tasks ⦃kv = memory⦄ late answered

overdue :
    ltb (start_task.created_at + task_timeout_seconds late.settings start_task.kind) late.now ≡ true
unfolding task_timeout_seconds get_or_zero
overdue = refl

sweep_ends_example : any (has_ended 7) swept.db.tasks ≡ true
sweep_ends_example =
    sweep_ends ⦃kv = memory⦄ late start_task one_row row one_answer overdue Run.stop

-- A host that is consumed, one whose subscription fails, and one that is new.
abbrev consumers : Consumers
consumers = record {
  channels = "h1" ∷ "old" ∷ [];
  last_message_at = ("h1", 5) ∷ [];
  processed_at = 5;
  healthy = true;
  lost_at = none;
}

abbrev attempts : String → Attempt
attempts s = if str_eq s "h2" then failed else channel

refreshed_example :
    str_in "h3" (refresh_subscriptions attempts 10 ("h1" ∷ "h2" ∷ "h3" ∷ []) consumers).channels ≡ (
      str_in "h3" ("h1" ∷ "h2" ∷ "h3" ∷ [])
      && (str_in "h3" consumers.channels
          || (gives_channel (attempts "h3")
              && not (
                  any_host
                    (λ g. not (str_in g consumers.channels) && is_raised (attempts g))
                    (before "h3" ("h1" ∷ "h2" ∷ "h3" ∷ []))))))
refreshed_example = refreshed attempts 10 ("h1" ∷ "h2" ∷ "h3" ∷ []) consumers "h3"
