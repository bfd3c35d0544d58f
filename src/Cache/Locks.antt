-- ===== src/Cache/Locks.antt =====
-- What the VM lock promises, whatever server meets the laws.
use open_v_center_backend.Prelude.{
  ℕ, ◌+◌, ◌≤◌, ◌<◌, String, ◌≡◌, ◌≢◌, true, false, none, some, arith, is_some,
}
use open_v_center_backend.Settings.{Settings}
use open_v_center_backend.Timeouts.{task_timeout_seconds}
use open_v_center_backend.Valkey.{Lock, vm_lock, lock, Valkey}
use open_v_center_backend.Cache.Defs.{lock_ttl, acquire_vm_lock, release_vm_lock, get_vm_lock}

module _ ⦃kv : Valkey⦄ (s : Settings) (now vm_id task_id : ℕ) (kind by : String) where
  open kv use {Store, get, set, set_nx, delete, get-set, set_nx_free, set_nx_held, get-delete}

  abbrev pub own_lock : Lock
  own_lock = record { task_id = task_id; kind = kind; requested_by = by; acquired_at = now }

  -- An acquire succeeds exactly on a free lock.
  pub acquire-free :
      (c : Store)
      → get now (vm_lock vm_id) c ≡ none
      → acquire_vm_lock s now vm_id task_id kind by c
        ≡ (true, set now (vm_lock vm_id) (lock own_lock) (lock_ttl s kind) c)
  unfolding acquire_vm_lock
  acquire-free c h = set_nx_free now (vm_lock vm_id) (lock own_lock) (lock_ttl s kind) c h

  pub acquire-held :
      (c : Store)
      → is_some (get now (vm_lock vm_id) c) ≡ true
      → acquire_vm_lock s now vm_id task_id kind by c ≡ (false, c)
  unfolding acquire_vm_lock
  acquire-held c h = set_nx_held now (vm_lock vm_id) (lock own_lock) (lock_ttl s kind) c h

  pub get_lock-acquire :
      (c : Store) (later : ℕ)
      → get now (vm_lock vm_id) c ≡ none
      → now ≤ later
      → later < now + lock_ttl s kind
      → get later (vm_lock vm_id) (acquire_vm_lock s now vm_id task_id kind by c).1
        ≡ some (lock own_lock)
  get_lock-acquire c later free le lt = rw (acquire-free c free) (
      ground (
        arith,
        get-set now later (vm_lock vm_id) (vm_lock vm_id) (lock own_lock) (lock_ttl s kind) c,
      ))

  -- From a task's acquire of a free lock until its time to live has passed, another task can neither
  -- take the lock nor free it, and a read of the lock names the task.
  pub lock_exclusive :
      (c : Store) (later other : ℕ) (kind' by' : String)
      → get now (vm_lock vm_id) c ≡ none
      → now ≤ later
      → later < now + lock_ttl s kind
      → other ≢ task_id
      → let c' = (acquire_vm_lock s now vm_id task_id kind by c).1 in
        (acquire_vm_lock s later vm_id other kind' by' c' ≡ (false, c'))
        × (release_vm_lock later vm_id other c' ≡ (false, c'))
        × (get_vm_lock later vm_id c' ≡ some own_lock)
  unfolding acquire_vm_lock release_vm_lock get_vm_lock
  lock_exclusive c later other kind' by' free le lt ne =
      let held = get_lock-acquire c later free le lt in
      (
        set_nx_held later (vm_lock vm_id) _ _ _ (rw held),
        ground (arith, held),
        ground (arith, held),
      )

  -- A task that took a free lock and releases it within its time to live leaves the VM free, at every
  -- later time.
  pub get_lock-release :
      (c : Store) (later after : ℕ)
      → get now (vm_lock vm_id) c ≡ none
      → now ≤ later
      → later < now + lock_ttl s kind
      → later ≤ after
      → get after
          (vm_lock vm_id)
          (release_vm_lock later vm_id task_id (acquire_vm_lock s now vm_id task_id kind by c).1).1
        ≡ none
  unfolding release_vm_lock
  get_lock-release c later after free le lt le' =
      let c' = (acquire_vm_lock s now vm_id task_id kind by c).1 in
      ground (
        arith,
        get_lock-acquire c later free le lt,
        get-delete later after (vm_lock vm_id) (vm_lock vm_id) c',
      )

-- A task's lock is still held at every moment up to the deadline at which the sweeper may time it out.
pub deadline-lt-lock_ttl :
    (s : Settings) (kind : String) → task_timeout_seconds s kind < lock_ttl s kind
unfolding lock_ttl
deadline-lt-lock_ttl s kind = omega arith
