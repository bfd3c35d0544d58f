-- ===== src/Examples/Locks.antt =====
-- The VM lock and the deadlines, on an empty cache.
use open_v_center_backend.Prelude.{ℕ, ◌≡◌, refl, ◌<◌, ◌+◌, arith, false, none, some}
use open_v_center_backend.Settings.{default_settings}
use open_v_center_backend.Timeouts.{task_timeout_seconds}
use open_v_center_backend.Valkey.{vm_lock}
use open_v_center_backend.Valkey.Memory.{memory}
use open_v_center_backend.Cache.{lock_ttl, acquire_vm_lock, release_vm_lock, get_vm_lock}
use open_v_center_backend.Cache.Locks.{own_lock, lock_exclusive}
use open_v_center_backend.Examples.{no_keys}

pub no_lock : (i : ℕ) → memory.get 1000 (vm_lock i) no_keys ≡ none
unfolding no_keys memory
no_lock i = refl

in_time : 1001 < 1000 + lock_ttl default_settings "vm_start"
unfolding lock_ttl task_timeout_seconds
in_time = omega arith

lock_exclusive_example :
    let c =
      (acquire_vm_lock ⦃kv = memory⦄ default_settings 1000 10 7 "vm_start" "admin" no_keys).1 in
    (acquire_vm_lock ⦃kv = memory⦄ default_settings 1001 10 8 "vm_stop" "bob" c ≡ (false, c))
    × (release_vm_lock ⦃kv = memory⦄ 1001 10 8 c ≡ (false, c))
    × (get_vm_lock ⦃kv = memory⦄ 1001 10 c
        ≡ some (own_lock ⦃kv = memory⦄ default_settings 1000 10 7 "vm_start" "admin"))
lock_exclusive_example =
    lock_exclusive ⦃kv = memory⦄ default_settings 1000 10 7 "vm_start" "admin" no_keys 1001 8
      "vm_stop" "bob" (no_lock 10) (omega arith) in_time (omega arith)
