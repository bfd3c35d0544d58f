-- ===== src/Examples/Requests.antt =====
-- Requests on the first host and its VM.
use open_v_center_backend.Prelude.{
  ◌≡◌, refl, arith, true, false, none, some, [], ◌∷◌, ◌++◌, count, is_some, find, ◌&&◌, String,
  nonempty, if◌then◌else◌, str_eq,
}
use open_v_center_backend.Json.{end, get, str}
use open_v_center_backend.Models.{get_host, get_vm}
use open_v_center_backend.Models.VmRows.{Vm}
use open_v_center_backend.Valkey.{Lock, lock, vm_lock, vm_state}
use open_v_center_backend.Valkey.Memory.{memory, read}
use open_v_center_backend.Settings.{default_settings}
use open_v_center_backend.Errors.{ok, err, api, api_error, vm_locked, vm_not_ready, host_online}
use open_v_center_backend.World.{World, with_session}
use open_v_center_backend.Cache.{get_vm_state}
use open_v_center_backend.Hosts.Status.{agent_connected}
use open_v_center_backend.Hosts.Actions.{request_host_action}
use open_v_center_backend.Hosts.Actions.Exclusive.{Exclusive, request_host_action-Exclusive}
use open_v_center_backend.Vms.Queue.{queue_vm_task}
use open_v_center_backend.Models.TaskRows.{Task, AgentRequest, queued, vm}
use open_v_center_backend.Vms.Queue.Locking.{
  is_ok, may_queue, queue_accepts_iff, queue-locked, queue-accepted, publish_failed_overlay,
}
use open_v_center_backend.Vms.Queue.Failures.{failed_request}
use open_v_center_backend.Vms.Provision.{is_online, remove_vm_from_inventory}
use open_v_center_backend.Vms.Provision.Placeholder.{remove_vm-outcome}
use open_v_center_backend.Examples.{env, env_down, host_one, vm_one, vm_of, db_with, world_with}
use open_v_center_backend.Examples.Locks.{no_lock}

abbrev w : World memory.Store
w = world_with []

found_one : get_host w.db 1 ≡ some host_one
unfolding find
found_one = refl

online_one : agent_connected default_settings 1000 host_one ≡ true
unfolding agent_connected
online_one = refl

loaded_one : get_vm w.db 10 ≡ some vm_one
unfolding find
loaded_one = refl

queue-accepted_example :
    let (r, w') =
      queue_vm_task ⦃kv = memory⦄ env 7 vm_one "vm_start" end "admin" (some "Starting") true w in
    (t : Task) × (q : AgentRequest) × (r ≡ ok t)
    × (w'.db.tasks ≡ [] ++ t ∷ [])
    × (w'.published ≡ [] ++ ("h", q) ∷ [])
    × (get_vm w'.db 10 ≡ some (record vm_one { state = "Starting" }))
    × ((t.id ≡ 7)
        × (t.kind ≡ "vm_start")
        × (t.status ≡ queued)
        × (t.target_type ≡ vm)
        × (t.target_id ≡ 10)
        × (t.host_id ≡ 1)
        × (t.created_at ≡ 1000)
        × (t.request_payload ≡ some q))
    × ((q.id ≡ t.id)
        × (q.function ≡ "vm_start")
        × (q.requested_by ≡ "admin")
        × ((k : String)
            → get k q.params ≡ (if str_eq "vm_id" k then some (str "A-1") else get k end)))
    × (memory.get 1000 (vm_lock 10) w'.cache
        ≡ some (
            lock (record {
              task_id = t.id;
              kind = t.kind;
              requested_by = "admin";
              acquired_at = 1000;
            })))
queue-accepted_example =
    queue-accepted ⦃kv = memory⦄ env 7 vm_one host_one "A-1" w refl found_one online_one "vm_start"
      end "admin" (some "Starting") loaded_one (no_lock 10) refl

queue_accepts_iff_example :
    is_ok
      (queue_vm_task ⦃kv = memory⦄ env 7 vm_one "vm_start" end "admin" (some "Starting") true w).0
    ≡ may_queue env
        (nonempty vm_one.vm_uuid)
        (get_host w.db 1)
        (memory.get 1000 (vm_lock 10) w.cache)
queue_accepts_iff_example =
    queue_accepts_iff ⦃kv = memory⦄ env 7 vm_one w "vm_start" end "admin" (some "Starting")

publish_failed_overlay_example :
    let w' =
      (with_session
        (queue_vm_task ⦃kv = memory⦄ env_down 7 vm_one "vm_start" end "admin"
          (some "Starting")
          true)
        w).1 in
    (w'.db ≡ w.db) × (get_vm_state ⦃kv = memory⦄ 1000 10 w'.cache ≡ some "Starting")
publish_failed_overlay_example =
    publish_failed_overlay ⦃kv = memory⦄ env_down 7 vm_one host_one "A-1" w refl found_one
      online_one "vm_start" end "admin" (some "Starting") "Starting" refl (no_lock 10) refl
      (omega arith)

-- The VM is held by another task.
abbrev other_lock : Lock
other_lock = record { task_id = 6; kind = "vm_stop"; requested_by = "bob"; acquired_at = 990 }

abbrev locked_world : World memory.Store
locked_world = record w { cache = memory.set 990 (vm_lock 10) (lock other_lock) 3600 w.cache }

locked_now : memory.get 1000 (vm_lock 10) locked_world.cache ≡ some (lock other_lock)
unfolding memory read
locked_now = refl

queue-locked_example :
    queue_vm_task ⦃kv = memory⦄ env 7 vm_one "vm_start" end "admin"
      (some "Starting")
      true
      locked_world
    ≡ (err (api (vm_locked (some other_lock))), locked_world)
queue-locked_example =
    queue-locked ⦃kv = memory⦄ env 7 vm_one host_one "A-1" locked_world refl found_one online_one
      "vm_start" end "admin" (some "Starting") other_lock locked_now

-- A VM that its agent has not named.
abbrev unnamed : Vm
unnamed = vm_of 12 1 none none

not_ready :
    (queue_vm_task ⦃kv = memory⦄ env 7 unnamed "vm_start" end "admin" none true w).0
    ≡ err (api (api_error vm_not_ready 409))
unfolding queue_vm_task
not_ready = refl

failed_request_example :
    let w' = (queue_vm_task ⦃kv = memory⦄ env 7 unnamed "vm_start" end "admin" none true w).1 in
    (w'.published ≡ w.published)
    × (memory.get 1000 (vm_lock 12) w'.cache ≡ memory.get 1000 (vm_lock 12) w.cache)
failed_request_example =
    failed_request ⦃kv = memory⦄ env 7 unnamed w "vm_start" end "admin" none true not_ready

none_running : Exclusive (db_with [])
unfolding count
none_running host_id = omega arith

request_host_action-Exclusive_example :
    Exclusive (request_host_action env 7 host_one "restart" "admin" w).1.db
request_host_action-Exclusive_example =
    request_host_action-Exclusive env 7 host_one "restart" "admin" w none_running

remove_vm-outcome_example :
    let (r, w') = remove_vm_from_inventory ⦃kv = memory⦄ env vm_one w in
    let refused = is_some vm_one.vm_uuid && is_online env (get_host w.db 1) in
    (refused ≡ true → (r ≡ err (api (api_error host_online 409))) × (w' ≡ w))
    × (refused ≡ false
        → (r ≡ ok tt)
          × (get_vm w'.db 10 ≡ none)
          × (memory.get 1000 (vm_lock 10) w'.cache ≡ none)
          × (memory.get 1000 (vm_state 10) w'.cache ≡ none))
remove_vm-outcome_example = remove_vm-outcome ⦃kv = memory⦄ env vm_one w
