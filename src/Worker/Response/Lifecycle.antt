-- ===== src/Worker/Response/Lifecycle.antt =====
-- The life of a task under the agent's answers.
use open_v_center_backend.Prelude.{
  ℕ, String, ◌≡◌, refl, ◌∙◌, ap, false, Option, some, List, [], ◌∷◌, arith, ◌==◌, find, any,
  update_where, find-update_where,
}
use open_v_center_backend.Models.{Db, get_task, put_task}
use open_v_center_backend.Models.Cascade.{delete_vms}
use open_v_center_backend.Models.Records.{AuditEvent}
use open_v_center_backend.Models.TaskRows.{Task, TaskStatus, AgentResponse}
use open_v_center_backend.Valkey.{Valkey}
use open_v_center_backend.World.{World, Env}
use open_v_center_backend.Audit.{settle_task_events, pending_for}
use open_v_center_backend.Hosts.Actions.{apply_host_action_response}
use open_v_center_backend.Worker.Response.{
  Refreshes, final_status, settle_task, settle_db, stamp_version, register_template, unlock,
  apply_response_state, apply_terminal, outcome_of,
}

-- Events that stay pending for a task after its events were settled: none.
none_pending_settled :
    (i : ℕ) (r : TaskStatus) (err : Option String) (es : List AuditEvent)
    → any (pending_for (i ∷ [])) (
        update_where
          (pending_for (i ∷ []))
          (λ e. record e { outcome = outcome_of r; error = err })
          es)
      ≡ false
unfolding any update_where
none_pending_settled i r err [] = refl
none_pending_settled i r err (e ∷ es) = ground (arith, none_pending_settled i r err es)

-- Two databases with one task table and one event table.
abbrev SameLog : Db → Db → Type 0
SameLog a b = (a.tasks ≡ b.tasks) × (a.events ≡ b.events)

log-stamp_version :
    (rs : Refreshes) (host_id : ℕ) (t : Task) (resp : AgentResponse) (db : Db)
    → SameLog (stamp_version rs host_id t resp db) db
unfolding stamp_version
log-stamp_version rs host_id t resp db = ground arith

log-register_template :
    (rs : Refreshes) (t : Task) (resp : AgentResponse) (db : Db)
    → SameLog (register_template rs t resp db) db
unfolding register_template
log-register_template rs t resp db = ground arith

log-host_action :
    (t : Task) (resp : AgentResponse) (db : Db) → SameLog (apply_host_action_response t resp db) db
unfolding apply_host_action_response
log-host_action t resp db = ground arith

-- Settling touches the task table and the event table by its first two steps alone.
log-settle_db :
    (rs : Refreshes) (env : Env) (host_id : ℕ) (resp : AgentResponse) (t : Task) (db : Db)
    → let t' = settle_task rs env.now resp t in
      SameLog (settle_db rs env host_id resp t db) (
        settle_task_events
          (t.id ∷ [])
          (outcome_of t'.status)
          t'.error
          (put_task t.id (settle_task rs env.now resp) db))
unfolding settle_db
log-settle_db rs env host_id resp t db =
    let t' = settle_task rs env.now resp t in
    let settled =
      settle_task_events (t.id ∷ []) (outcome_of t'.status) t'.error
        (put_task t.id (settle_task rs env.now resp) db) in
    let stamped = stamp_version rs host_id t' resp settled in
    ground (
      arith,
      log-stamp_version rs host_id t' resp settled,
      log-host_action t' resp stamped,
      log-register_template rs t' resp stamped,
      log-register_template rs t' resp (apply_host_action_response t' resp stamped),
    )

module _ ⦃kv : Valkey⦄ (rs : Refreshes) (env : Env) (host_id : ℕ) (resp : AgentResponse) where
  log-state :
      (t : Task) (w : World kv.Store)
      → SameLog (apply_response_state rs env host_id resp t w).db w.db
  unfolding apply_response_state delete_vms
  log-state t w = ground arith

  db-unlock : (t : Task) (w : World kv.Store) → (unlock env t w).db ≡ w.db
  unfolding unlock
  db-unlock t w = ground arith

module _ ⦃kv : Valkey⦄ (rs : Refreshes) (env : Env) (host_id : ℕ) (resp : AgentResponse) (t : Task)
    (w : World kv.Store) where
  settled_db : Db
  settled_db =
      settle_task_events (t.id ∷ []) (outcome_of (final_status resp.status))
        (settle_task rs env.now resp t).error (put_task t.id (settle_task rs env.now resp) w.db)

  log-terminal : SameLog (apply_terminal rs env host_id resp t w).db settled_db
  unfolding apply_terminal settled_db
  log-terminal =
      let t' = settle_task rs env.now resp t in
      let w' = record w { db = settle_db rs env host_id resp t w.db } in
      let freed =
        db-unlock rs env host_id resp t' (apply_response_state rs env host_id resp t' w') in
      let (tasks, events) = log-state rs env host_id resp t' w' in
      let (tasks', events') = log-settle_db rs env host_id resp t w.db in
      (
        ap (λ (db : Db). db.tasks) freed ∙ tasks ∙ tasks',
        ap (λ (db : Db). db.events) freed ∙ events ∙ events',
      )

  pub tasks-apply_terminal :
      (apply_terminal rs env host_id resp t w).db.tasks
      ≡ update_where (λ r. r.id == t.id) (settle_task rs env.now resp) w.db.tasks
  unfolding settle_task_events settled_db
  tasks-apply_terminal = log-terminal.0

  -- When an answer ends a task, its row has the answer's verdict, its text fields and its time, and
  -- full progress if it succeeded.
  pub settled_row :
      get_task w.db t.id ≡ some t
      → get_task (apply_terminal rs env host_id resp t w).db t.id
        ≡ some (settle_task rs env.now resp t)
  unfolding settle_task settle_task_events settled_db
  settled_row found =
      ap (find (λ r. r.id == t.id)) log-terminal.0
      ∙ find-update_where (λ r. r.id == t.id) (settle_task rs env.now resp) w.db.tasks t
          (λ y same. same) found

  -- No audit event of the task is left pending once it has ended.
  pub events_settled :
      any (pending_for (t.id ∷ [])) (apply_terminal rs env host_id resp t w).db.events ≡ false
  unfolding settle_task_events settled_db
  events_settled =
      ap (any (pending_for (t.id ∷ []))) log-terminal.1
      ∙ none_pending_settled t.id (final_status resp.status) (settle_task rs env.now resp t).error
          w.db.events
