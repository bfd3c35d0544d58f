-- ===== src/Vms/Provision.antt =====
-- vms.request_vm_create, request_vm_clone and remove_vm_from_inventory: VM rows that exist before
-- the agent reports them, and rows that it will not report again. The ids that `new_id` draws are
-- arguments, and the request's texts are already stripped.
pub mod Bodies
pub mod Source
pub mod Placeholder
use open_v_center_backend.Prelude.{
  ℕ, String, Bool, true, false, not, ◌&&◌, Option, none, some, List, [], ◌∷◌, ◌++◌, ◌==◌, is_some,
}
use open_v_center_backend.Json.{Dict}
use open_v_center_backend.Models.{Db, get_host}
use open_v_center_backend.Models.Cascade.{delete_vms}
use open_v_center_backend.Models.VmRows.{Vm}
use open_v_center_backend.Models.Topology.{Host}
use open_v_center_backend.Models.TaskRows.{Task, vm, AgentRequest}
use open_v_center_backend.Valkey.{Valkey}
use open_v_center_backend.Errors.{api_error, host_online}
use open_v_center_backend.World.{
  World, Env, Action, pure, gets, lift, modify_db, modify_cache, raise_when, publish_request, ◌>>=◌,
  ◌>>◌,
}
use open_v_center_backend.Cache.{acquire_vm_lock, force_release_vm_lock, clear_vm_state}
use open_v_center_backend.Hosts.Status.{require_host_online, agent_connected}
use open_v_center_backend.Vms.Paths.{codes}
use open_v_center_backend.Vms.Storage.{require_vm_storage_allowed}
use open_v_center_backend.Vms.Queue.{new_task, new_request}
use Bodies.{VmCreate, VmClone, Sizing, placeholder, create_params, create_sizing, clone_params}
use Source.{resolve_source}

abbrev pub is_online : Env → Option Host → Bool
is_online env none = false
is_online env (some h) = agent_connected env.settings env.now h

-- The task of a placeholder, with the request as it goes out.
abbrev pub placeholder_task : Env → ℕ → Vm → String → Dict → String → Task
placeholder_task env task_id v kind params requested_by =
    record (new_task env task_id kind vm v.id v.name v.host_id requested_by) {
      request_payload = some (new_request env task_id kind params requested_by);
    }

module _ ⦃kv : Valkey⦄ where
  open kv use {Store}

  -- What both requests end with: the row, its lock, the task, and the message. Nothing looks at
  -- whether the lock was taken, since the row's id is new.
  unfoldable pub provision :
      Env → ℕ → ℕ → Host → String → String → Sizing → Dict → String → Action Store (Vm × Task)
  provision env vm_id task_id host kind name sizing params requested_by =
      let v = placeholder vm_id host name sizing in
      let task = placeholder_task env task_id v kind params requested_by in
      do
        modify_db (λ db. record db { vms = db.vms ++ v ∷ [] })
        modify_cache
            (λ c. (acquire_vm_lock env.settings env.now vm_id task_id kind requested_by c).1)
        modify_db (λ db. record db { tasks = db.tasks ++ task ∷ [] })
        publish_request env host.short_id (new_request env task_id kind params requested_by)
        pure (v, task)

  unfoldable pub request_vm_create :
      Env → ℕ → ℕ → Host → VmCreate → String → Action Store (Vm × Task)
  request_vm_create env vm_id task_id host b requested_by =
      lift (require_host_online env.settings env.now host)
      >> lift (require_vm_storage_allowed host (codes b.destination_storage))
      >> provision env vm_id task_id host "vm_create" b.name (create_sizing b)
          (create_params b host) requested_by

  unfoldable pub request_vm_clone : Env → ℕ → ℕ → Host → VmClone → String → Action Store (Vm × Task)
  request_vm_clone env vm_id task_id host b requested_by = do
    lift (require_host_online env.settings env.now host)
    lift (require_vm_storage_allowed host (codes b.destination_storage))
    (sizing, source) ← gets (λ w. resolve_source b host w.db) >>= lift
    provision env vm_id task_id host "vm_clone" b.name sizing (clone_params b sizing source)
        requested_by

  unfoldable pub remove_vm_from_inventory : Env → Vm → Action Store (Unit {0})
  remove_vm_from_inventory env v = do
    host ← gets (λ w. get_host w.db v.host_id)
    raise_when (is_some v.vm_uuid && is_online env host) (api_error host_online 409)
    modify_cache (λ c. clear_vm_state env.now v.id (force_release_vm_lock env.now v.id c).1)
    modify_db (delete_vms (λ r. r.id == v.id))
