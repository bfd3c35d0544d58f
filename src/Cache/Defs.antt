-- ===== src/Cache/Defs.antt =====
-- The operations of app/cache.py. Each takes the time and the store first.
use open_v_center_backend.Prelude.{
  ℕ, ◌+◌, String, Bool, false, Option, none, some, List, ◌==◌, str_eq, is_some, if◌then◌else◌,
}
use open_v_center_backend.Settings.{Settings}
use open_v_center_backend.Timeouts.{task_timeout_seconds}
use open_v_center_backend.Valkey.{
  Lock, vm_state, vm_lock, vm_deleted, Entry, state, lock, stamp, Valkey,
}

-- _VM_TOMBSTONE_TTL
abbrev pub tombstone_ttl : ℕ
tombstone_ttl = 900

abbrev pub as_state : Option Entry → Option String
as_state (some (state s)) = some s
as_state _ = none

abbrev pub as_lock : Option Entry → Option Lock
as_lock (some (lock l)) = some l
as_lock _ = none

-- The test of `_RELEASE_LUA` on what GET returned.
abbrev pub held_by : Option Entry → ℕ → Bool
held_by (some (lock l)) task_id = l.task_id == task_id
held_by _ task_id = false

unfoldable pub lock_ttl : Settings → String → ℕ
lock_ttl s kind = task_timeout_seconds s kind + 60

module _ ⦃kv : Valkey⦄ where
  open kv use {Store, get, set, set_nx, delete, scan_deleted}

  unfoldable pub set_vm_state : Settings → ℕ → ℕ → String → Store → Store
  set_vm_state s now vm_id st = set now (vm_state vm_id) (state st) s.vm_state_ttl_seconds

  unfoldable pub get_vm_state : ℕ → ℕ → Store → Option String
  get_vm_state now vm_id c = as_state (get now (vm_state vm_id) c)

  unfoldable pub clear_vm_state : ℕ → ℕ → Store → Store
  clear_vm_state now vm_id c = (delete now (vm_state vm_id) c).1

  -- False if another task holds the lock.
  unfoldable pub acquire_vm_lock : Settings → ℕ → ℕ → ℕ → String → String → Store → Bool × Store
  acquire_vm_lock s now vm_id task_id kind requested_by =
      set_nx now (vm_lock vm_id)
        (lock (record {
          task_id = task_id;
          kind = kind;
          requested_by = requested_by;
          acquired_at = now;
        }))
        (lock_ttl s kind)

  -- `release_vm_lock(vm_id, task_id)`: the compare-and-delete script.
  unfoldable pub release_vm_lock : ℕ → ℕ → ℕ → Store → Bool × Store
  release_vm_lock now vm_id task_id c =
      if held_by (get now (vm_lock vm_id) c) task_id
      then delete now (vm_lock vm_id) c
      else (false, c)

  -- `release_vm_lock(vm_id)`: unconditional.
  unfoldable pub force_release_vm_lock : ℕ → ℕ → Store → Bool × Store
  force_release_vm_lock now vm_id = delete now (vm_lock vm_id)

  unfoldable pub get_vm_lock : ℕ → ℕ → Store → Option Lock
  get_vm_lock now vm_id c = as_lock (get now (vm_lock vm_id) c)

  unfoldable pub mark_vm_deleted : ℕ → ℕ → String → Store → Store
  mark_vm_deleted now host_id vm_uuid c =
      if str_eq vm_uuid ""
      then c
      else set now (vm_deleted host_id vm_uuid) (stamp now) tombstone_ttl c

  unfoldable pub is_vm_deleted : ℕ → ℕ → String → Store → Bool
  is_vm_deleted now host_id vm_uuid c = is_some (get now (vm_deleted host_id vm_uuid) c)

  unfoldable pub clear_vm_deleted : ℕ → ℕ → String → Store → Store
  clear_vm_deleted now host_id vm_uuid c = (delete now (vm_deleted host_id vm_uuid) c).1

  -- A set of GUIDs, as a list.
  unfoldable pub list_deleted_vm_uuids : ℕ → ℕ → Store → List String
  list_deleted_vm_uuids now host_id c = scan_deleted now host_id c
