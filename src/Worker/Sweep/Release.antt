-- ===== src/Worker/Sweep/Release.antt =====
-- The VM locks of the tasks that a sweep times out.
use open_v_center_backend.Prelude.{
  ℕ, ◌≡◌, ◌⊎◌, false, none, List, [], ◌∷◌, arith, All, if◌then◌else◌,
}
use open_v_center_backend.Models.TaskRows.{Task, vm}
use open_v_center_backend.Valkey.{vm_lock, Valkey}
use open_v_center_backend.World.{World, Env}
use open_v_center_backend.Cache.{release_vm_lock, held_by}
use open_v_center_backend.Worker.Response.{is_vm}
use open_v_center_backend.Worker.Sweep.{release_locks, stale_tasks, sweep_stale_tasks}

module _ ⦃kv : Valkey⦄ (now : ℕ) where
  open kv use {Store, get}

  -- A release leaves a lock alone or frees it.
  release_cases :
      (i j task_id : ℕ) (c : Store)
      → (get now (vm_lock i) (release_vm_lock now j task_id c).1 ≡ get now (vm_lock i) c)
        ⊎ (get now (vm_lock i) (release_vm_lock now j task_id c).1 ≡ none)
  unfolding release_vm_lock
  release_cases i j task_id c = ground (arith, kv.get-delete now now (vm_lock j) (vm_lock i) c)

  release_own :
      (i task_id : ℕ) (c : Store)
      → held_by (get now (vm_lock i) (release_vm_lock now i task_id c).1) task_id ≡ false
  unfolding release_vm_lock
  release_own i task_id c = ground (arith, kv.get-delete now now (vm_lock i) (vm_lock i) c)

  release_locks_free :
      (i task_id : ℕ) (ts : List Task) (c : Store)
      → held_by (get now (vm_lock i) c) task_id ≡ false
      → held_by (get now (vm_lock i) (release_locks now ts c)) task_id ≡ false
  unfolding release_locks
  release_locks_free i task_id [] c h = h
  release_locks_free i task_id (t ∷ ts) c h = ground (
    arith,
    h,
    release_cases i t.target_id t.id c,
    release_locks_free i task_id ts (release_vm_lock now t.target_id t.id c).1,
    release_locks_free i task_id ts c,
  )

  abbrev pub HoldsNothing : Store → Task → Type 0
  HoldsNothing c t = t.target_type ≡ vm → held_by (get now (vm_lock t.target_id) c) t.id ≡ false

  release_locks-All : (ts : List Task) (c : Store) → All (HoldsNothing (release_locks now ts c)) ts
  unfolding release_locks
  release_locks-All [] c = tt
  release_locks-All (t ∷ ts) c = (
    λ on_vm. ground (
      arith,
      on_vm,
      release_own t.target_id t.id c,
      release_locks_free t.target_id t.id ts (release_vm_lock now t.target_id t.id c).1,
    ),
    release_locks-All ts
        (if is_vm t.target_type then (release_vm_lock now t.target_id t.id c).1 else c),
  )

-- No VM task that a sweep finds stale still holds its VM's lock after the sweep.
pub sweep_releases :
    ⦃kv : Valkey⦄ (env : Env) (w : World kv.Store)
    → All
        (HoldsNothing env.now (sweep_stale_tasks env w).cache)
        (stale_tasks env.settings env.now w.db.tasks)
unfolding sweep_stale_tasks
sweep_releases env w =
    release_locks-All env.now (stale_tasks env.settings env.now w.db.tasks) w.cache
