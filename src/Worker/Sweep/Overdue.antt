-- ===== src/Worker/Sweep/Overdue.antt =====
-- Which tasks the sweeper times out.
use open_v_center_backend.Prelude.{
  ℕ, ◌+◌, ◌≡◌, refl, Bool, false, not, ◌&&◌, List, [], ◌∷◌, arith, ltb, any, rows_where,
  update_where, Bool-cases, inl, inr,
}
use open_v_center_backend.Settings.{Settings}
use open_v_center_backend.Timeouts.{task_timeout_seconds, default-le-timeout}
use open_v_center_backend.Models.Cascade.{delete_vms}
use open_v_center_backend.Models.TaskRows.{Task, is_terminal}
use open_v_center_backend.Valkey.{Valkey}
use open_v_center_backend.World.{World, Env}
use open_v_center_backend.Audit.{settle_task_events}
use open_v_center_backend.Worker.Sweep.{
  is_candidate, is_stale, stale_tasks, expire, id_in, expire_tasks, sweep_stale_tasks,
}

-- Not ended, and past the deadline of its kind: what the sweep is for.
unfoldable pub is_overdue : Settings → ℕ → Task → Bool
is_overdue s now t =
    not (is_terminal t.status) && ltb (t.created_at + task_timeout_seconds s t.kind) now

-- The SQL filter by the default deadline loses no overdue task.
stale-overdue :
    (s : Settings) (now : ℕ) (ts : List Task)
    → stale_tasks s now ts ≡ rows_where (is_overdue s now) ts
unfolding stale_tasks is_candidate is_stale is_overdue rows_where
stale-overdue s now [] = refl
stale-overdue s now (t ∷ ts) = ground (arith, stale-overdue s now ts, default-le-timeout s t.kind)

-- Primary keys.
abbrev pub UniqueIds : List Task → Type 0
UniqueIds [] = Unit
UniqueIds (t ∷ ts) = (id_in ts t ≡ false) × UniqueIds ts

id_in-rows_where :
    (p : Task → Bool) (t : Task) (ts : List Task)
    → id_in ts t ≡ false
    → id_in (rows_where p ts) t ≡ false
unfolding any rows_where
id_in-rows_where p t [] h = refl
id_in-rows_where p t (x ∷ ts) h = ground (arith, id_in-rows_where p t ts)

-- A stale task with an id that the rows do not have selects none of them.
update-id_in-cons :
    (f : Task → Task) (t : Task) (stale ts : List Task)
    → id_in ts t ≡ false
    → update_where (id_in (t ∷ stale)) f ts ≡ update_where (id_in stale) f ts
unfolding any update_where
update-id_in-cons f t stale [] h = refl
update-id_in-cons f t stale (x ∷ ts) h = ground (arith, update-id_in-cons f t stale ts)

-- Selecting rows by the ids of chosen rows selects the chosen rows.
update-id_in :
    (p : Task → Bool) (f : Task → Task) (ts : List Task)
    → UniqueIds ts
    → update_where (id_in (rows_where p ts)) f ts ≡ update_where p f ts
unfolding any rows_where update_where
update-id_in p f [] u = refl
update-id_in p f (t ∷ ts) u = elim (Bool-cases (p t)) [
  | inl e ↦
      ground (arith, e, update-id_in p f ts u.1, update-id_in-cons f t (rows_where p ts) ts u.0)
  | inr e ↦ ground (arith, e, update-id_in p f ts u.1, id_in-rows_where p t ts u.0)
]

module _ ⦃kv : Valkey⦄ (env : Env) (w : World kv.Store) where
  -- With unique task ids, a sweep times out exactly the tasks that have not ended and are past the
  -- deadline of their kind, and leaves every other task as it was.
  pub sweep_exact :
      UniqueIds w.db.tasks
      → (sweep_stale_tasks env w).db.tasks
        ≡ update_where (is_overdue env.settings env.now) (expire env.now) w.db.tasks
  unfolding sweep_stale_tasks expire_tasks settle_task_events delete_vms
  sweep_exact unique =
      rw (stale-overdue env.settings env.now w.db.tasks)
        (update-id_in (is_overdue env.settings env.now) (expire env.now) w.db.tasks unique)
