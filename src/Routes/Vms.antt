-- ===== src/Routes/Vms.antt =====
-- app/api/routes/vms.py: operations on VMs, for a user and what the user sees. The bodies of responses
-- are left out, and so are the details of an event, which come as an argument.
pub mod Guarded
pub mod Listing
pub mod Edits
use open_v_center_backend.Prelude.{
  ℕ, String, Bool, true, false, not, ◌&&◌, ◌||◌, Option, none, some, List, [], ◌∷◌, ◌==◌, find,
  if◌then◌else◌, or_text,
}
use open_v_center_backend.Json.{Json, bool, Dict, end, entry}
use open_v_center_backend.Models.{Db, get_host, get_vm}
use open_v_center_backend.Models.VmRows.{Vm}
use open_v_center_backend.Models.Topology.{Host}
use open_v_center_backend.Models.Records.{User}
use open_v_center_backend.Models.TaskRows.{Task}
use open_v_center_backend.Valkey.{Valkey}
use open_v_center_backend.Errors.{
  Error, api, Result, ok, err, api_error, not_found, forbidden, or_raise, unknown_action,
}
use open_v_center_backend.World.{
  World, Env, Action, pure, raise, gets, lift, modify_db, raise_when, ◌>>=◌, ◌>>◌,
}
use open_v_center_backend.Rbac.{VisibleScope, vm_visible, sees_host}
use open_v_center_backend.Audit.{vm_target, record_event}
use open_v_center_backend.Cache.{force_release_vm_lock, get_vm_state}
use open_v_center_backend.Hosts.Status.{agent_connected}
use open_v_center_backend.Vms.Actions.{VmAction, delete, is_read_only}
use open_v_center_backend.Vms.Queue.{request_vm_action}
use open_v_center_backend.Vms.Provision.Bodies.{VmCreate, VmClone}
use open_v_center_backend.Vms.Provision.{
  request_vm_create, request_vm_clone, remove_vm_from_inventory,
}

-- A name of ACTION_MAP but "delete": _ALLOWED_ACTIONS.
abbrev pub allowed : Option VmAction → Option VmAction
allowed none = none
allowed (some delete) = none
allowed (some action) = some action

module _ ⦃kv : Valkey⦄ where
  open kv use {Store}

  -- _get_visible_vm
  unfoldable pub get_visible_vm : VisibleScope → ℕ → Action Store Vm
  get_visible_vm scope vm_id = do
    vm ← gets (λ w. get_vm w.db vm_id) >>= λ o. lift (or_raise o (api not_found))
    raise_when (not (vm_visible scope vm)) forbidden
    pure vm

  -- `await record(db, user, f"vm.{action}", vm, task=task, details=…)`
  unfoldable pub audit_task : Env → ℕ → User → String → Vm → Dict → Task → Action Store Task
  unfolding record_event
  audit_task env event_id user name vm details t w = (
    ok t,
    record w {
      db = record_event event_id env.now (some user) name (vm_target vm) (some t.id) details w.db;
    },
  )

  -- vm_action: `name` is "vm." and the action's name.
  unfoldable pub vm_action :
      Env
      → ℕ
      → ℕ
      → User
      → VisibleScope
      → ℕ
      → Option VmAction
      → String
      → Dict
      → Dict
      → Action Store Task
  unfolding get_visible_vm audit_task
  vm_action env task_id event_id user scope vm_id action name params details = do
    a ← lift (or_raise (allowed action) (api (api_error unknown_action 404)))
    vm ← get_visible_vm scope vm_id
    task ← request_vm_action env task_id vm a user.email params
    if is_read_only a then pure task else audit_task env event_id user name vm details task

  -- delete_vm
  unfoldable pub delete_vm : Env → ℕ → ℕ → User → VisibleScope → ℕ → Bool → Action Store Task
  unfolding get_visible_vm audit_task
  delete_vm env task_id event_id user scope vm_id remove_files = do
    let params = entry "remove_files" (bool remove_files) end
    vm ← get_visible_vm scope vm_id
    task ← request_vm_action env task_id vm delete user.email params
    audit_task env event_id user "vm.delete" vm (entry "removeFiles" (bool remove_files) end) task

  -- forget_vm
  unfoldable pub forget_vm : Env → ℕ → User → VisibleScope → ℕ → Action Store (Unit {0})
  unfolding get_visible_vm record_event
  forget_vm env event_id user scope vm_id = do
    vm ← get_visible_vm scope vm_id
    modify_db (record_event event_id env.now (some user) "vm.forget" (vm_target vm) none end)
    remove_vm_from_inventory env vm

  -- The host of a create or a clone, which the user must see.
  unfoldable pub get_target_host : VisibleScope → ℕ → Action Store Host
  get_target_host scope host_id = do
    host ← gets (λ w. get_host w.db host_id) >>= λ o. lift (or_raise o (api not_found))
    raise_when (not (sees_host scope host.id)) forbidden
    pure host

  -- create_vm
  unfoldable pub create_vm :
      Env → ℕ → ℕ → ℕ → User → VisibleScope → ℕ → VmCreate → Dict → Action Store Task
  unfolding get_target_host audit_task
  create_vm env vm_id task_id event_id user scope host_id body details = do
    host ← get_target_host scope host_id
    (vm, task) ← request_vm_create env vm_id task_id host body user.email
    audit_task env event_id user "vm.create" vm details task

  -- clone_vm
  unfoldable pub clone_vm :
      Env → ℕ → ℕ → ℕ → User → VisibleScope → ℕ → VmClone → Dict → Action Store Task
  unfolding get_target_host audit_task
  clone_vm env vm_id task_id event_id user scope host_id body details = do
    host ← get_target_host scope host_id
    (vm, task) ← request_vm_clone env vm_id task_id host body user.email
    audit_task env event_id user "vm.clone" vm details task

  -- The event of a released lock, where the VM's row is still there.
  abbrev audit_release : Env → ℕ → User → ℕ → Dict → Bool → Db → Db
  unfolding record_event
  audit_release env event_id user vm_id details false db = db
  audit_release env event_id user vm_id details true db = elim (get_vm db vm_id) [
    | none ↦ db
    | some vm ↦
        record_event event_id env.now (some user) "vm.lock_release" (vm_target vm) none details db
  ]

  -- release_lock
  unfoldable pub release_lock : Env → ℕ → User → VisibleScope → ℕ → Dict → Action Store Bool
  unfolding record_event
  release_lock env event_id user scope vm_id details = raise_when (not scope.all) forbidden >> (λ w.
      let (released, c) = force_release_vm_lock env.now vm_id w.cache in
      (
        ok released,
        record w { db = audit_release env event_id user vm_id details released w.db; cache = c },
      ))

  -- `state_override or vm.state`, and "Unknown" while the host's agent is away: the state of vm_out for a
  -- VM that get_vm shows.
  unfoldable pub shown_state : Env → Vm → World Store → String
  shown_state env vm w = elim (get_host w.db vm.host_id) [
    | none ↦ or_text (get_vm_state env.now vm.id w.cache) vm.state
    | some h ↦
        if agent_connected env.settings env.now h
        then or_text (get_vm_state env.now vm.id w.cache) vm.state
        else "Unknown"
  ]
