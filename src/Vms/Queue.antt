-- ===== src/Vms/Queue.antt =====
-- vms._queue_vm_task and request_vm_action: an operation on a VM becomes a task, a lock and a
-- message to the host's agent. The id that `new_id` draws is an argument.
pub mod Locking
pub mod Failures
use open_v_center_backend.Prelude.{
  ℕ, String, Bool, true, false, not, ◌&&◌, Option, none, some, List, [], ◌∷◌, ◌++◌, str_eq,
  nonempty, is_some, if◌then◌else◌,
}
use open_v_center_backend.Json.{Json, str, Dict, end, get, put, as_text}
use open_v_center_backend.Models.{Db, get_host, put_vm, put_task}
use open_v_center_backend.Models.VmRows.{Vm}
use open_v_center_backend.Models.Topology.{Host}
use open_v_center_backend.Models.TaskRows.{Task, queued, vm, AgentRequest, TargetType}
use open_v_center_backend.Valkey.{Valkey}
use open_v_center_backend.Errors.{
  Error, api, ApiError, Result, ok, err, api_error, vm_locked, vm_not_ready, ha_required,
  validation_error, assertion, or_raise,
}
use open_v_center_backend.World.{
  World, Env, Action, pure, raise, gets, lift, modify_db, modify_cache, raise_when, publish_request,
  ◌>>=◌, ◌>>◌,
}
use open_v_center_backend.Cache.{acquire_vm_lock, release_vm_lock, get_vm_lock, set_vm_state}
use open_v_center_backend.Hosts.Status.{require_host_online}
use open_v_center_backend.Vms.Paths.{norm_path}
use open_v_center_backend.Vms.Storage.{codes_or_empty, require_vm_storage_allowed}
use open_v_center_backend.Vms.Actions.{
  VmAction, action_map, is_read_only, is_migrate, is_move_storage,
}

-- `{**params, "vm_id": vm.vm_uuid}`
unfoldable pub request_params : Dict → String → Dict
request_params params vm_uuid = put "vm_id" (str vm_uuid) params

abbrev pub new_task : Env → ℕ → String → TargetType → ℕ → String → ℕ → String → Task
new_task env task_id kind target target_id target_name host_id requested_by = record {
  id = task_id;
  kind = kind;
  status = queued;
  target_type = target;
  target_id = target_id;
  target_name = some target_name;
  host_id = host_id;
  requested_by = requested_by;
  progress = some 0;
  progress_message = none;
  created_at = env.now;
  started_at = none;
  finished_at = none;
  result = none;
  error = none;
  request_payload = none;
  response_payload = none;
  correlation_id = some task_id;
}

abbrev pub new_request : Env → ℕ → String → Dict → String → AgentRequest
new_request env task_id function params requested_by = record {
  id = task_id;
  function = function;
  params = params;
  requested_by = requested_by;
  issued_at = env.now;
}

abbrev pub vm_request : Env → ℕ → String → String → Dict → String → AgentRequest
vm_request env task_id vm_uuid function params requested_by =
    new_request env task_id function (request_params params vm_uuid) requested_by

abbrev pub vm_task : Env → ℕ → Vm → String → String → Dict → String → Task
vm_task env task_id v vm_uuid function params requested_by =
    record (new_task env task_id function vm v.id v.name v.host_id requested_by) {
      request_payload = some (vm_request env task_id vm_uuid function params requested_by);
    }

abbrev pub set_state : Option String → Vm → Vm
set_state none r = r
set_state (some st) r = record r { state = st }

abbrev pub is_empty : List ℕ → Bool
is_empty [] = true
is_empty (c ∷ s) = false

module _ ⦃kv : Valkey⦄ where
  open kv use {Store}

  -- The lock, or the error that names its holder.
  unfoldable pub take_lock : Env → Vm → ℕ → String → String → Action Store (Unit {0})
  take_lock env v task_id function requested_by w =
      let (taken, c) =
        acquire_vm_lock env.settings env.now v.id task_id function requested_by w.cache in
      if taken
      then (ok tt, record w { cache = c })
      else (err (api (vm_locked (get_vm_lock env.now v.id c))), record w { cache = c })

  abbrev pub set_cached_state : Env → ℕ → Option String → Store → Store
  set_cached_state env vm_id none c = c
  set_cached_state env vm_id (some st) c = set_vm_state env.settings env.now vm_id st c

  -- `except Exception: if lock: release; raise`
  unfoldable pub release_on_error :
      {A : Type 0} → Env → ℕ → ℕ → Bool → Result A × World Store → Result A × World Store
  release_on_error env vm_id task_id lock (ok a, w) = (ok a, w)
  release_on_error env vm_id task_id true (err e, w) =
      (err e, record w { cache = (release_vm_lock env.now vm_id task_id w.cache).1 })
  release_on_error env vm_id task_id false (err e, w) = (err e, w)

  -- The body of the `try`: the task row, the optimistic state, and the message.
  unfoldable pub submit :
      Env → ℕ → Vm → Host → String → String → Dict → String → Option String → Action Store Task
  submit env task_id v host vm_uuid function params requested_by transitional =
      let task = vm_task env task_id v vm_uuid function params requested_by in
      do
        modify_db (λ db.
            put_vm v.id (set_state transitional) (record db { tasks = db.tasks ++ task ∷ [] }))
        modify_cache (set_cached_state env v.id transitional)
        publish_request env host.short_id
            (vm_request env task_id vm_uuid function params requested_by)
        pure task

  unfoldable pub queue_vm_task :
      Env → ℕ → Vm → String → Dict → String → Option String → Bool → Action Store Task
  queue_vm_task env task_id v function params requested_by transitional lock = do
    vm_uuid ← lift (or_raise (nonempty v.vm_uuid) (api (api_error vm_not_ready 409)))
    host ← gets (λ w. get_host w.db v.host_id) >>= λ h. lift (or_raise h assertion)
    lift (require_host_online env.settings env.now host)
    if lock then take_lock env v task_id function requested_by else pure tt
    λ w.
        release_on_error env v.id task_id lock
          (submit env task_id v host vm_uuid function params requested_by transitional w)

  -- The two checks that single actions make.
  unfoldable pub check_action : Vm → VmAction → Dict → Action Store (Unit {0})
  check_action v action params =
      raise_when (is_migrate action && not v.highly_available) (api_error ha_required 409)
      >> (if is_move_storage action
          then (do
            let dest = norm_path (codes_or_empty (as_text (get "destination_storage" params)))
            raise_when (is_empty dest) (api_error validation_error 400)
            host ← gets (λ w. get_host w.db v.host_id) >>= λ h. lift (or_raise h assertion)
            lift (require_vm_storage_allowed host dest))
          else pure tt)

  unfoldable pub request_vm_action : Env → ℕ → Vm → VmAction → String → Dict → Action Store Task
  request_vm_action env task_id v action requested_by params =
      let (function, transitional) = action_map action in
      check_action v action params
      >> queue_vm_task env task_id v function params requested_by transitional
          (not (is_read_only action))
