-- ===== src/Worker/Steps.antt =====
-- The backend as a step relation: requests of VM operations, messages of any host on any queue, and
-- passes of the sweepers, in any order and with any clock.
pub mod Rows
pub mod Tasks
pub mod Ended
use open_v_center_backend.Prelude.{ℕ, String, ◌≡◌, Bool, false, Option, List, any, ◌==◌}
use open_v_center_backend.Json.{Dict}
use open_v_center_backend.Models.VmRows.{Vm}
use open_v_center_backend.Vms.Queue.{queue_vm_task}
use open_v_center_backend.Valkey.{Valkey}
use open_v_center_backend.World.{World, Env, with_session}
use open_v_center_backend.Audit.{prune_events}
use open_v_center_backend.Inventory.Metrics.{sweep_metrics}
use open_v_center_backend.Worker.Consumers.{Runtime, QueueKind, handle_message}
use open_v_center_backend.Worker.Sweep.{sweep_stale_tasks}

module _ ⦃kv : Valkey⦄ where
  open kv use {Store}

  pub data Step : World Store → World Store → Type 0 where
    message :
        {w : World Store} (rt : Runtime) (env : Env) (host_id : ℕ) (kind : QueueKind)
        (body : List ℕ)
        → Step w (handle_message rt env host_id kind body w)
    timeouts : {w : World Store} (env : Env) → Step w (sweep_stale_tasks env w)
    events :
        {w : World Store} (env : Env)
        → Step w (record w { db = prune_events env.now env.settings.audit_retention_days w.db })
    -- A request draws an id that no task has.
    operation :
        {w : World Store} (env : Env) (task_id : ℕ) (v : Vm) (function : String) (params : Dict)
        (by : String) (transitional : Option String) (locked : Bool)
        → any (λ t. t.id == task_id) w.db.tasks ≡ false
        → Step w
            (with_session (queue_vm_task env task_id v function params by transitional locked) w).1
    samples : {w : World Store} (env : Env) → Step w (record w { db = sweep_metrics env w.db })

  -- Runs of the worker.
  pub data Run : World Store → World Store → Type 0 where
    stop : {w : World Store} → Run w w
    next : {u v w : World Store} → Step u v → Run v w → Run u w
