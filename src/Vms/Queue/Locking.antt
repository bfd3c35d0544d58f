-- ===== src/Vms/Queue/Locking.antt =====
-- What _queue_vm_task does to the VM's lock, the database and the queue on each of its branches.
use open_v_center_backend.Prelude.{
  ==_refl, Bool, Option, Option-cases, String, [], ap, arith, false, find-updated, if◌then◌else◌,
  inl, inr, none, nonempty, refl, some, str_eq, true, ℕ, ◌&&◌, ◌++◌, ◌<◌, ◌==◌, ◌∙◌, ◌∷◌, ◌≡◌, ◌≤◌,
}
use open_v_center_backend.Json.{str, Dict, get, get-put}
use open_v_center_backend.Models.{get_host, get_vm, put_vm}
use open_v_center_backend.Models.VmRows.{Vm}
use open_v_center_backend.Models.TaskRows.{Task, queued, vm, AgentRequest}
use open_v_center_backend.Models.Topology.{Host}
use open_v_center_backend.Valkey.{Lock, Entry, lock, state, vm_state, vm_lock, Valkey}
use open_v_center_backend.Errors.{Result, api, ok, err, vm_locked, publish_failed}
use open_v_center_backend.World.{World, Env, with_session, publish_request}
use open_v_center_backend.Cache.{
  acquire_vm_lock, release_vm_lock, get_vm_lock, set_vm_state, get_vm_state,
}
use open_v_center_backend.Cache.Locks.{
  own_lock, acquire-free, acquire-held, get_lock-acquire, deadline-lt-lock_ttl,
}
use open_v_center_backend.Hosts.Status.{agent_connected, require_host_online}
use open_v_center_backend.Vms.Queue.{
  request_params, vm_task, vm_request, set_state, take_lock, set_cached_state, release_on_error,
  submit, queue_vm_task,
}

-- In the parameters of a request, `vm_id` is the VM's GUID whatever the caller gave, and every other
-- key has the caller's value.
pub request_params_lem :
    (params : Dict) (vm_uuid k : String)
    → get k (request_params params vm_uuid)
      ≡ (if str_eq "vm_id" k then some (str vm_uuid) else get k params)
unfolding request_params
request_params_lem params vm_uuid k = get-put k "vm_id" (str vm_uuid) params

-- The VM in a transitional state, where there is one.
abbrev pub in_state : Option String → Vm → Vm
in_state transitional v = record v { state = or_else transitional v.state }
  where
    or_else : Option String → String → String
    or_else none s = s
    or_else (some st) s = st

set_state-in_state :
    (transitional : Option String) (v : Vm) → set_state transitional v ≡ in_state transitional v
set_state-in_state none v = refl
set_state-in_state (some st) v = refl

set_state_id :
    (transitional : Option String) (i : ℕ) (r : Vm)
    → ((set_state transitional r).id == i) ≡ (r.id == i)
set_state_id none i r = refl
set_state_id (some st) i r = refl

-- Whether a request that takes the lock can be accepted.
abbrev pub may_queue : Env → Option String → Option Host → Option Entry → Bool
may_queue env (some vm_uuid) (some host) none =
    agent_connected env.settings env.now host && env.broker_up
may_queue env _ _ _ = false

module _ ⦃kv : Valkey⦄ where
  -- The state overlay and the lock are different keys.
  pub get_lock-set_cached_state :
      (env : Env) (m i j : ℕ) (t : Option String) (c : kv.Store)
      → env.now ≤ m
      → kv.get m (vm_lock i) (set_cached_state env j t c) ≡ kv.get m (vm_lock i) c
  unfolding set_vm_state
  get_lock-set_cached_state env m i j none c h = refl
  get_lock-set_cached_state env m i j (some st) c h = kv.get-set _ _ _ _ _ _ _ h

module _ ⦃kv : Valkey⦄ (env : Env) (task_id : ℕ) (v : Vm) (host : Host) (vm_uuid : String)
    (w : World kv.Store) (reported : nonempty v.vm_uuid ≡ some vm_uuid)
    (owned : get_host w.db v.host_id ≡ some host)
    (online : agent_connected env.settings env.now host ≡ true) (function : String) (params : Dict)
    (by : String) (transitional : Option String) where
  -- A reported VM of an online host, while its lock is held: a request that takes the lock is refused
  -- with the holder's lock, and nothing changes.
  pub queue-locked :
      (held : Lock)
      → kv.get env.now (vm_lock v.id) w.cache ≡ some (lock held)
      → queue_vm_task env task_id v function params by transitional true w
        ≡ (err (api (vm_locked (some held))), w)
  unfolding queue_vm_task require_host_online take_lock get_vm_lock
  queue-locked held h = ground (
    arith,
    h,
    reported,
    owned,
    online,
    acquire-held env.settings env.now v.id task_id function by w.cache (ground arith),
  )

  -- The rows, the message and the lock of an accepted request.
  queue-submitted :
      kv.get env.now (vm_lock v.id) w.cache ≡ none
      → env.broker_up ≡ true
      → let (r, w') = queue_vm_task env task_id v function params by transitional true w in
        (r ≡ ok (vm_task env task_id v vm_uuid function params by))
        × (w'.db
            ≡ put_vm v.id (set_state transitional) (record w.db {
              tasks = w.db.tasks ++ vm_task env task_id v vm_uuid function params by ∷ [];
            }))
        × (w'.published
            ≡ w.published
              ++ (host.short_id, vm_request env task_id vm_uuid function params by) ∷ [])
        × (kv.get env.now (vm_lock v.id) w'.cache
            ≡ some (lock (own_lock env.settings env.now v.id task_id function by)))
  unfolding queue_vm_task require_host_online take_lock submit publish_request release_on_error
  queue-submitted free up =
      let taken = acquire-free env.settings env.now v.id task_id function by w.cache free in
      ground (
        arith,
        free,
        up,
        reported,
        owned,
        online,
        taken,
        deadline-lt-lock_ttl env.settings function,
        get_lock-acquire env.settings env.now v.id task_id function by w.cache env.now free,
        get_lock-set_cached_state env env.now v.id v.id transitional
            (acquire_vm_lock env.settings env.now v.id task_id function by w.cache).1,
      )

  -- A reported VM of an online host, while its lock is free and the broker is up: a request leaves a
  -- queued task about the VM, the transitional state in the VM's row, and one message on the host's queue
  -- with the task's id, the function, the VM's GUID under "vm_id" and the caller's value under every other
  -- key; the task records this message, and the lock names the task.
  pub queue-accepted :
      get_vm w.db v.id ≡ some v
      → kv.get env.now (vm_lock v.id) w.cache ≡ none
      → env.broker_up ≡ true
      → let (r, w') = queue_vm_task env task_id v function params by transitional true w in
        (t : Task) × (q : AgentRequest) × (r ≡ ok t)
        × (w'.db.tasks ≡ w.db.tasks ++ t ∷ [])
        × (w'.published ≡ w.published ++ (host.short_id, q) ∷ [])
        × (get_vm w'.db v.id ≡ some (in_state transitional v))
        × ((t.id ≡ task_id)
            × (t.kind ≡ function)
            × (t.status ≡ queued)
            × (t.target_type ≡ vm)
            × (t.target_id ≡ v.id)
            × (t.host_id ≡ v.host_id)
            × (t.created_at ≡ env.now)
            × (t.request_payload ≡ some q))
        × ((q.id ≡ t.id)
            × (q.function ≡ function)
            × (q.requested_by ≡ by)
            × ((k : String)
                → get k q.params ≡ (if str_eq "vm_id" k then some (str vm_uuid) else get k params)))
        × (kv.get env.now (vm_lock v.id) w'.cache
            ≡ some (
                lock (record {
                  task_id = t.id;
                  kind = t.kind;
                  requested_by = by;
                  acquired_at = env.now;
                })))
  queue-accepted loaded free up =
      let (result, rows, sent, held) = queue-submitted free up in
      (
        vm_task env task_id v vm_uuid function params by,
        vm_request env task_id vm_uuid function params by,
        result,
        ap (λ db. db.tasks) rows,
        sent,
        ap (λ db. get_vm db v.id) rows
            ∙ find-updated (λ r. r.id == v.id) (λ r. r.id == v.id) (set_state transitional) w.db.vms
                v (set_state_id transitional v.id) loaded (==_refl v.id)
            ∙ ap some (set_state-in_state transitional v),
        (refl, refl, refl, refl, refl, refl, refl, refl),
        (refl, refl, refl, request_params_lem params vm_uuid),
        held,
      )

  -- A reported VM of an online host, while its lock is free: if the broker refuses the message, the
  -- database is as it was, nothing was published, and the VM is free again.
  pub queue-publish_failed :
      kv.get env.now (vm_lock v.id) w.cache ≡ none
      → env.broker_up ≡ false
      → let (r, w') =
          with_session (queue_vm_task env task_id v function params by transitional true) w in
        (r ≡ err publish_failed)
        × (w'.db ≡ w.db)
        × (w'.published ≡ w.published)
        × (kv.get env.now (vm_lock v.id) w'.cache ≡ none)
  unfolding queue_vm_task require_host_online take_lock submit publish_request release_on_error
      with_session release_vm_lock
  queue-publish_failed free down =
      let taken = acquire-free env.settings env.now v.id task_id function by w.cache free in
      let c = (acquire_vm_lock env.settings env.now v.id task_id function by w.cache).1 in
      let c' = set_cached_state env v.id transitional c in
      ground (
        arith,
        free,
        down,
        reported,
        owned,
        online,
        taken,
        deadline-lt-lock_ttl env.settings function,
        get_lock-acquire env.settings env.now v.id task_id function by w.cache env.now free,
        get_lock-set_cached_state env env.now v.id v.id transitional c,
        kv.get-delete env.now env.now (vm_lock v.id) (vm_lock v.id) c',
      )

  -- A reported VM of an online host, while its lock is free and the overlay has a time to live: if
  -- the broker refuses the message of a request with a transitional state, the database is rolled
  -- back and the cache goes on to show the transitional state.
  pub publish_failed_overlay :
      (st : String)
      → transitional ≡ some st
      → kv.get env.now (vm_lock v.id) w.cache ≡ none
      → env.broker_up ≡ false
      → 0 < env.settings.vm_state_ttl_seconds
      → let w' =
          (with_session (queue_vm_task env task_id v function params by transitional true) w).1 in
        (w'.db ≡ w.db) × (get_vm_state env.now v.id w'.cache ≡ some st)
  unfolding queue_vm_task require_host_online take_lock submit publish_request release_on_error
      with_session release_vm_lock get_vm_state set_vm_state
  publish_failed_overlay st e free down ttl =
      let taken = acquire-free env.settings env.now v.id task_id function by w.cache free in
      let c = (acquire_vm_lock env.settings env.now v.id task_id function by w.cache).1 in
      let overlay = state st in
      let c' = kv.set env.now (vm_state v.id) overlay env.settings.vm_state_ttl_seconds c in
      ground (
        arith,
        e,
        free,
        down,
        reported,
        owned,
        online,
        taken,
        kv.get-set env.now env.now (vm_state v.id) (vm_state v.id) overlay
            env.settings.vm_state_ttl_seconds c,
        kv.get-delete env.now env.now (vm_lock v.id) (vm_state v.id) c',
      )

abbrev pub is_ok : {A : Type 0} → Result A → Bool
is_ok (ok a) = true
is_ok (err e) = false

module _ ⦃kv : Valkey⦄ (env : Env) (task_id : ℕ) (v : Vm) (w : World kv.Store) (function : String)
    (params : Dict) (by : String) (transitional : Option String) where
  -- A request that takes the lock is accepted if and only if the VM has a GUID, its host is there and
  -- online, the VM's lock is free, and the broker takes the message.
  pub queue_accepts_iff :
      is_ok (queue_vm_task env task_id v function params by transitional true w).0
      ≡ may_queue env
          (nonempty v.vm_uuid)
          (get_host w.db v.host_id)
          (kv.get env.now (vm_lock v.id) w.cache)
  unfolding queue_vm_task require_host_online take_lock submit publish_request release_on_error
  queue_accepts_iff = elim (Option-cases (kv.get env.now (vm_lock v.id) w.cache)) [
    | inl free ↦
        ground
          (arith, free, acquire-free env.settings env.now v.id task_id function by w.cache free)
    | inr (e, held) ↦ ground (
      arith,
      held,
      acquire-held env.settings env.now v.id task_id function by w.cache (ground (arith, held)),
    )
  ]
