-- ===== src/Worker/Response.antt =====
-- inventory.apply_response and _apply_response_state: what an agent's answer does to its task, the
-- VM row, the state overlay, the audit events and the VM lock.
--
-- Two row refreshes are arguments: how an attached VM object is folded into the VM rows
-- (_apply_response_vm_status), and how an attached template is registered (_upsert_template). Both
-- run in a savepoint. The theorems hold for any such refreshes; Inventory/Answers gives those of the code.
pub mod Lifecycle
pub mod Unlock
pub mod Answers
use open_v_center_backend.Prelude.{
  ℕ, String, Bool, true, false, not, ◌&&◌, ◌||◌, Option, none, some, List, [], ◌∷◌, ◌==◌, find,
  is_some, nonempty, or_text, str_eq, update_where, if◌then◌else◌,
}
use open_v_center_backend.Json.{
  Json, str, arr, obj, Items, nil, cons, Dict, get, put, pop, truthy, as_dict, as_text,
}
use open_v_center_backend.Settings.{Settings}
use open_v_center_backend.Models.{Db, get_vm, put_vm, put_host, put_task}
use open_v_center_backend.Models.VmRows.{Vm}
use open_v_center_backend.Models.Records.{Outcome, Template}
use open_v_center_backend.Models.Cascade.{delete_vms}
use open_v_center_backend.Models.Topology.{Host}
use open_v_center_backend.Models.TaskRows.{
  Task, TaskStatus, queued, running, succeeded, failed, TargetType, vm, host, AgentResponse,
  ResponseStatus, is_terminal,
}
use open_v_center_backend.Valkey.{Valkey}
use open_v_center_backend.Errors.{Result, ok, err}
use open_v_center_backend.World.{World, Env}
use open_v_center_backend.Cache.{set_vm_state, clear_vm_state, mark_vm_deleted, release_vm_lock}
use open_v_center_backend.Audit.{settle_task_events}
use open_v_center_backend.Hosts.Actions.{apply_host_action_response}

-- The VM rows after a refresh, and the overlay entries written before it ended or raised.
pub record Refreshed : Type 0 where
  pub rows : Result (List Vm × Bool)
  pub overlay : List (ℕ × String)

pub record Refreshes : Type 0 where
  pub vm_status : ℕ → ℕ → AgentResponse → Db → Refreshed
  pub template : ℕ → Dict → Db → Result (List Template)
  -- Python's `str` of a value that is no text
  pub show : Json → String

-- _strip_response_thumbnails: the dict itself, and every dict in its list `vms`.
unfoldable pub strip_items : Items → Items
strip_items nil = nil
strip_items (cons (obj d) xs) = cons (obj (pop "thumbnail" d)) (strip_items xs)
strip_items (cons x xs) = cons x (strip_items xs)

unfoldable pub strip_dict : Dict → Dict
unfolding strip_items
strip_dict d =
    let d' = pop "thumbnail" d in
    elim (get "vms" d') [
      | none ↦ d'
      | some v ↦ elim v [ arr xs ↦ put "vms" (arr (strip_items xs)) d' | _ ↦ d' ]
    ]

unfoldable pub strip_thumbnails : AgentResponse → AgentResponse
unfolding strip_dict
strip_thumbnails resp = record resp {
  vm_status = elim resp.vm_status [ none ↦ none | some d ↦ some (strip_dict d) ];
  result = elim resp.result [
    | none ↦ none
    | some v ↦ elim v [ obj d ↦ some (obj (strip_dict d)) | u ↦ some u ]
  ];
}

abbrev pub is_answered : ℕ → AgentResponse → Task → Bool
is_answered host_id resp t = t.id == resp.id && t.host_id == host_id

-- `str(value)`
abbrev pub text_of : Refreshes → Json → String
text_of rs (str s) = s
text_of rs v = rs.show v

-- `task.status in ("queued", "running")` and `resp.status == "running"`
abbrev pub is_running : ResponseStatus → Bool
is_running ResponseStatus.running = true
is_running _ = false

abbrev pub final_status : ResponseStatus → TaskStatus
final_status ResponseStatus.succeeded = succeeded
final_status _ = failed

abbrev pub is_success : TaskStatus → Bool
is_success succeeded = true
is_success _ = false

abbrev pub outcome_of : TaskStatus → Outcome
outcome_of succeeded = Outcome.succeeded
outcome_of _ = Outcome.failed

abbrev pub or_else {ℓ} : {A : Type ℓ} → Option A → A → A
or_else none d = d
or_else (some a) d = a

-- A progress report on a live task.
unfoldable pub note_progress : ℕ → AgentResponse → Task → Task
note_progress now resp t = record t {
  status = running;
  response_payload = some resp;
  started_at = some (or_else t.started_at now);
  progress = elim resp.progress [ none ↦ t.progress | some p ↦ some p ];
  progress_message = elim (nonempty resp.progress_message) [
    | none ↦ t.progress_message
    | some m ↦ some m
  ];
}

-- The warning of a successful result, where there is no error text.
unfoldable pub warning_of : Refreshes → AgentResponse → Option String
warning_of rs resp = elim (as_dict resp.result) [
  | none ↦ none
  | some d ↦ elim (get "warning" d) [
    | none ↦ none
    | some v ↦ if truthy v then some (text_of rs v) else none
  ]
]

unfoldable pub final_error : Refreshes → AgentResponse → Option String
unfolding warning_of
final_error rs resp =
    if is_success (final_status resp.status) && not (is_some (nonempty resp.error))
    then elim (warning_of rs resp) [ none ↦ resp.error | some m ↦ some m ]
    else resp.error

-- The terminal fields.
unfoldable pub settle_task : Refreshes → ℕ → AgentResponse → Task → Task
unfolding final_error
settle_task rs now resp t = record t {
  status = final_status resp.status;
  response_payload = some resp;
  finished_at = some (or_else resp.finished_at now);
  progress = if is_success (final_status resp.status) then some 100 else t.progress;
  progress_message = none;
  result = as_text resp.result;
  error = final_error rs resp;
}

abbrev pub is_vm : TargetType → Bool
is_vm vm = true
is_vm host = false

-- The version that a successful agent upgrade reports goes on the host row.
unfoldable pub stamp_version : Refreshes → ℕ → Task → AgentResponse → Db → Db
stamp_version rs host_id t resp db =
    if str_eq t.kind "host_update_agent" && is_success t.status
    then elim (as_dict resp.result) [
      | none ↦ db
      | some d ↦ elim (get "version" d) [
        | none ↦ db
        | some v ↦
            if truthy v
            then put_host host_id (λ h. record h { agent_version = some (text_of rs v) }) db
            else db
      ]
    ]
    else db

-- `async with db.begin_nested(): …` around the template, with the exception logged.
unfoldable pub register_template : Refreshes → Task → AgentResponse → Db → Db
register_template rs t resp db =
    if is_success t.status && str_eq t.kind "vm_export_template"
    then elim resp.template [
      | none ↦ db
      | some d ↦ elim (rs.template t.host_id d db) [
        | ok rows ↦ record db { templates = rows }
        | err e ↦ db
      ]
    ]
    else db

-- _TRANSITIONAL_STATE and _FAILED_STATE_REVERT, for the kinds that have both.
unfoldable pub revert_of : String → Option (String × String)
revert_of kind =
    if str_eq kind "vm_start"
    then some ("Starting", "Off")
    else if str_eq kind "vm_stop" || str_eq kind "vm_shutdown"
    then some ("Stopping", "Running")
    else if str_eq kind "vm_restart"
    then some ("Restarting", "Running")
    else if str_eq kind "vm_pause"
    then some ("Pausing", "Running")
    else none

abbrev pub set_vm_row_state : String → Vm → Vm
set_vm_row_state st r = record r { state = st }

-- `vm_uuid = resp.vm_id` if given, and the state or "Off".
abbrev pub stamp_placeholder : AgentResponse → String → Vm → Vm
stamp_placeholder resp st r = record r {
  vm_uuid = elim (nonempty resp.vm_id) [ none ↦ r.vm_uuid | some u ↦ some u ];
  state = st;
}

abbrev pub reported_here : ℕ → String → Vm → Bool
reported_here host_id u r =
    (elim r.vm_uuid [ none ↦ false | some x ↦ str_eq x u ]) && r.host_id == host_id

-- The database changes of a terminal answer, before the VM row.
unfoldable pub settle_db : Refreshes → Env → ℕ → AgentResponse → Task → Db → Db
settle_db rs env host_id resp t db =
    let t' = settle_task rs env.now resp t in
    let settled =
      settle_task_events (t.id ∷ []) (outcome_of t'.status) t'.error
        (put_task t.id (settle_task rs env.now resp) db) in
    let stamped = stamp_version rs host_id t' resp settled in
    let noted =
      if is_vm t.target_type then stamped else apply_host_action_response t' resp stamped in
    register_template rs t' resp noted

module _ ⦃kv : Valkey⦄ where
  open kv use {Store}

  abbrev pub write_overlay : Env → List (ℕ × String) → Store → Store
  write_overlay env [] c = c
  write_overlay env ((i, st) ∷ rest) c =
      write_overlay env rest (set_vm_state env.settings env.now i st c)

  -- A create or clone that succeeded: the placeholder becomes the VM. A refresh that raises takes the
  -- stamp back with it, for both stand in one savepoint.
  unfoldable pub adopt_placeholder :
      Refreshes → Env → ℕ → AgentResponse → Vm → World Store → World Store
  adopt_placeholder rs env host_id resp v w =
      let st = or_text resp.vm_state "Off" in
      let db = put_vm v.id (stamp_placeholder resp st) w.db in
      let c = set_vm_state env.settings env.now v.id st w.cache in
      let r = rs.vm_status env.now host_id resp db in
      let c' = write_overlay env r.overlay c in
      elim r.rows [
        | ok (rows, _) ↦ record w { db = record db { vms = rows }; cache = c' }
        | err e ↦ record w { cache = c' }
      ]

  unfoldable pub drop_vm : Env → ℕ → World Store → World Store
  drop_vm env vm_id w = record w {
    db = delete_vms (λ r. r.id == vm_id) w.db;
    cache = clear_vm_state env.now vm_id w.cache;
  }

  -- A delete that succeeded leaves a tombstone of the VM's GUID.
  unfoldable pub bury : Env → ℕ → Option Vm → World Store → World Store
  bury env host_id none w = w
  bury env host_id (some v) w = elim (nonempty v.vm_uuid) [
    | none ↦ w
    | some u ↦ record w { cache = mark_vm_deleted env.now host_id u w.cache }
  ]

  -- The bare `vm_id` / `vm_state` hint, where no VM object came.
  unfoldable pub apply_hint : Env → ℕ → AgentResponse → World Store → World Store
  apply_hint env host_id resp w = elim (nonempty resp.vm_id) [
    | none ↦ w
    | some u ↦ elim (nonempty resp.vm_state) [
      | none ↦ w
      | some st ↦ elim (find (reported_here host_id u) w.db.vms) [
        | none ↦ w
        | some v ↦ record w {
          db = put_vm v.id (set_vm_row_state st) w.db;
          cache = set_vm_state env.settings env.now v.id st w.cache;
        }
      ]
    ]
  ]

  -- The refresh of a successful task; one that raises ends the block, hint included.
  unfoldable pub finish_refresh : Env → ℕ → AgentResponse → Refreshed → World Store → World Store
  unfolding apply_hint
  finish_refresh env host_id resp r w =
      let c = write_overlay env r.overlay w.cache in
      elim r.rows [
        | ok (rows, true) ↦ record w { db = record w.db { vms = rows }; cache = c }
        | ok (rows, false) ↦
            apply_hint env host_id resp (record w { db = record w.db { vms = rows }; cache = c })
        | err e ↦ record w { cache = c }
      ]

  -- A failed power action: the optimistic state is taken back if the row still shows it.
  unfoldable pub revert_state : Env → Task → World Store → World Store
  revert_state env t w = elim (revert_of t.kind) [
    | none ↦ w
    | some (transitional, before) ↦
        if is_vm t.target_type
        then elim (get_vm w.db t.target_id) [
          | none ↦ w
          | some v ↦
              if str_eq v.state transitional
              then record w {
                db = put_vm v.id (set_vm_row_state before) w.db;
                cache = set_vm_state env.settings env.now v.id before w.cache;
              }
              else w
        ]
        else w
  ]

  -- _apply_response_state, in its savepoint.
  unfoldable pub apply_response_state :
      Refreshes → Env → ℕ → AgentResponse → Task → World Store → World Store
  unfolding adopt_placeholder drop_vm bury finish_refresh revert_state
  apply_response_state rs env host_id resp t w =
      if str_eq t.kind "vm_create" || str_eq t.kind "vm_clone"
      then elim (get_vm w.db t.target_id) [
        | none ↦ w
        | some v ↦
            if is_success t.status
            then adopt_placeholder rs env host_id resp v w
            else drop_vm env v.id w
      ]
      else if str_eq t.kind "vm_delete" && is_success t.status
      then drop_vm env t.target_id (bury env host_id (get_vm w.db t.target_id) w)
      else if is_success t.status
      then finish_refresh env host_id resp (rs.vm_status env.now host_id resp w.db) w
      else revert_state env t w

  unfoldable pub unlock : Env → Task → World Store → World Store
  unlock env t w =
      if is_vm t.target_type
      then record w { cache = (release_vm_lock env.now t.target_id t.id w.cache).1 }
      else w

  unfoldable pub apply_terminal :
      Refreshes → Env → ℕ → AgentResponse → Task → World Store → World Store
  unfolding settle_task
  apply_terminal rs env host_id resp t w =
      let t' = settle_task rs env.now resp t in
      unlock env t' (
        apply_response_state rs env host_id resp t'
          (record w { db = settle_db rs env host_id resp t w.db }))

  -- A task found for the answer: a progress report on a live task, or the end of it.
  unfoldable pub answer : Refreshes → Env → ℕ → AgentResponse → Task → World Store → World Store
  answer rs env host_id resp t w =
      if is_running resp.status && not (is_terminal t.status)
      then record w { db = put_task t.id (note_progress env.now resp) w.db }
      else apply_terminal rs env host_id resp t w

  unfoldable pub apply_response : Refreshes → Env → ℕ → AgentResponse → World Store → World Store
  unfolding answer strip_thumbnails
  apply_response rs env host_id resp w = elim (find (is_answered host_id resp) w.db.tasks) [
    | none ↦ w
    | some t ↦ answer rs env host_id (strip_thumbnails resp) t w
  ]
