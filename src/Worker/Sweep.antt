-- ===== src/Worker/Sweep.antt =====
-- worker/main._sweep_stale_tasks: tasks past the deadline of their kind, the locks that they held,
-- and the placeholder VMs of creates that never came to anything.
pub mod Overdue
pub mod Release
use open_v_center_backend.Prelude.{
  ℕ, ◌+◌, String, Bool, true, false, not, ◌&&◌, ◌||◌, Option, none, some, List, [], ◌∷◌, ◌==◌, ltb,
  map, any, rows_where, update_where, is_some, str_eq, if◌then◌else◌,
}
use open_v_center_backend.Settings.{Settings}
use open_v_center_backend.Timeouts.{task_timeout_seconds}
use open_v_center_backend.Models.{Db}
use open_v_center_backend.Models.VmRows.{Vm}
use open_v_center_backend.Models.Records.{Outcome}
use open_v_center_backend.Models.Cascade.{delete_vms}
use open_v_center_backend.Models.TaskRows.{Task, TaskStatus, timeout, failed, is_terminal}
use open_v_center_backend.Valkey.{Valkey}
use open_v_center_backend.World.{World, Env}
use open_v_center_backend.Cache.{release_vm_lock}
use open_v_center_backend.Audit.{settle_task_events}
use open_v_center_backend.Worker.Response.{is_vm}

-- The SQL filter: not ended, and older than the default deadline.
unfoldable pub is_candidate : Settings → ℕ → Task → Bool
is_candidate s now t = not (is_terminal t.status) && ltb (t.created_at + s.task_timeout_seconds) now

-- The filter in Python: older than the deadline of its kind.
unfoldable pub is_stale : Settings → ℕ → Task → Bool
is_stale s now t = ltb (t.created_at + task_timeout_seconds s t.kind) now

unfoldable pub stale_tasks : Settings → ℕ → List Task → List Task
stale_tasks s now tasks = rows_where (is_stale s now) (rows_where (is_candidate s now) tasks)

abbrev pub timeout_error : Option String
timeout_error = some "Agent did not respond in time"

abbrev pub expire : ℕ → Task → Task
expire now t = record t { status = timeout; finished_at = some now; error = timeout_error }

-- `Task.id.in_(ids)`
abbrev pub id_in : List Task → Task → Bool
id_in stale t = any (λ s. s.id == t.id) stale

abbrev is_create : String → Bool
is_create kind = str_eq kind "vm_create" || str_eq kind "vm_clone"

abbrev gave_up : TaskStatus → Bool
gave_up timeout = true
gave_up failed = true
gave_up _ = false

-- A VM that no agent ever reported, and whose create or clone ended without one.
unfoldable pub is_orphan : List Task → Vm → Bool
is_orphan tasks v =
    not (is_some v.vm_uuid)
    && any (λ t. is_create t.kind && gave_up t.status && t.target_id == v.id) tasks

unfoldable pub expire_tasks : Settings → ℕ → Db → Db
expire_tasks s now db =
    let stale = stale_tasks s now db.tasks in
    settle_task_events (map (λ t. t.id) stale) Outcome.timeout timeout_error
      (record db { tasks = update_where (id_in stale) (expire now) db.tasks })

module _ ⦃kv : Valkey⦄ where
  open kv use {Store}

  -- `for t in stale: if t.target_type == "vm": release_vm_lock(t.target_id, t.id)`
  unfoldable pub release_locks : ℕ → List Task → Store → Store
  release_locks now [] c = c
  release_locks now (t ∷ ts) c =
      release_locks now ts
        (if is_vm t.target_type then (release_vm_lock now t.target_id t.id c).1 else c)

  -- With nothing stale the first half changes nothing, as the `if stale` has it.
  unfoldable pub sweep_stale_tasks : Env → World Store → World Store
  sweep_stale_tasks env w =
      let db = expire_tasks env.settings env.now w.db in
      record w {
        db = delete_vms (is_orphan db.tasks) db;
        cache = release_locks env.now (stale_tasks env.settings env.now w.db.tasks) w.cache;
      }
