-- ===== src/Vms/Queue/Failures.antt =====
-- Requests that fail, and the read-only refresh: what they leave behind.
use open_v_center_backend.Prelude.{
  ℕ, String, ◌≡◌, Bool, true, Option, some, arith, nonempty, is_some, Option-cases, inl, inr, ap,
}
use open_v_center_backend.Json.{Dict}
use open_v_center_backend.Models.{get_host}
use open_v_center_backend.Models.VmRows.{Vm}
use open_v_center_backend.Models.Topology.{Host}
use open_v_center_backend.Valkey.{vm_lock, Valkey}
use open_v_center_backend.Errors.{Error, ok, err}
use open_v_center_backend.World.{World, Env, publish_request}
use open_v_center_backend.Cache.{acquire_vm_lock, release_vm_lock}
use open_v_center_backend.Cache.Locks.{
  acquire-free, acquire-held, get_lock-acquire, deadline-lt-lock_ttl,
}
use open_v_center_backend.Hosts.Status.{agent_connected, require_host_online}
use open_v_center_backend.Vms.Queue.{
  take_lock, set_cached_state, release_on_error, submit, queue_vm_task, check_action,
  request_vm_action, vm_task,
}
use open_v_center_backend.Vms.Queue.Locking.{get_lock-set_cached_state}
use open_v_center_backend.Vms.Actions.{refresh}

module _ ⦃kv : Valkey⦄ (env : Env) (task_id : ℕ) (v : Vm) (w : World kv.Store) where
  -- A request that ends in an error, whatever the error is, published nothing and leaves the VM's
  -- lock as it was.
  pub failed_request :
      (function : String) (params : Dict) (by : String) (transitional : Option String)
      (locked : Bool) {e : Error}
      → (queue_vm_task env task_id v function params by transitional locked w).0 ≡ err e
      → let w' = (queue_vm_task env task_id v function params by transitional locked w).1 in
        (w'.published ≡ w.published)
        × (kv.get env.now (vm_lock v.id) w'.cache ≡ kv.get env.now (vm_lock v.id) w.cache)
  unfolding queue_vm_task require_host_online take_lock submit publish_request release_on_error
      release_vm_lock
  failed_request function params by transitional locked h =
      let c = (acquire_vm_lock env.settings env.now v.id task_id function by w.cache).1 in
      elim (Option-cases (kv.get env.now (vm_lock v.id) w.cache)) [
        | inl free ↦ ground (
          arith,
          acquire-free env.settings env.now v.id task_id function by w.cache free,
          deadline-lt-lock_ttl env.settings function,
          get_lock-acquire env.settings env.now v.id task_id function by w.cache env.now free,
          get_lock-set_cached_state env env.now v.id v.id transitional c,
          get_lock-set_cached_state env env.now v.id v.id transitional w.cache,
          kv.get-delete env.now env.now (vm_lock v.id) (vm_lock v.id)
              (set_cached_state env v.id transitional c),
        )
        | inr (held, e) ↦ ground (
          arith,
          acquire-held env.settings env.now v.id task_id function by w.cache (ap is_some e),
          get_lock-set_cached_state env env.now v.id v.id transitional w.cache,
        )
      ]

  -- A forced refresh of a reported VM of an online host, with the broker up, is accepted whether the
  -- VM is locked or not, and leaves the cache as it was.
  pub refresh_accepted :
      (host : Host) (vm_uuid : String)
      → nonempty v.vm_uuid ≡ some vm_uuid
      → get_host w.db v.host_id ≡ some host
      → agent_connected env.settings env.now host ≡ true
      → env.broker_up ≡ true
      → (by : String) (params : Dict)
      → let (r, w') = request_vm_action env task_id v refresh by params w in
        (r ≡ ok (vm_task env task_id v vm_uuid "refresh_status" params by)) × (w'.cache ≡ w.cache)
  unfolding request_vm_action check_action queue_vm_task require_host_online submit publish_request
      release_on_error
  refresh_accepted host vm_uuid reported owned online up by params = ground arith
