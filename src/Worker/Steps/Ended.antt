-- ===== src/Worker/Steps/Ended.antt =====
-- Tasks along every run of the backend.
use open_v_center_backend.Prelude.{
  ℕ, ◌+◌, ◌≡◌, refl, ap, ◌∙◌, Bool, true, ◌&&◌, some, List, [], ◌∷◌, ◌==◌, any, find, update_where,
  Bool-cases, Option-cases, inl, inr, arith, ltb, str_eq, eq_iff,
}
use open_v_center_backend.Json.{Dict}
use open_v_center_backend.Models.TaskRows.{Task, is_terminal}
use open_v_center_backend.Valkey.{Valkey}
use open_v_center_backend.World.{World, Env}
use open_v_center_backend.Settings.{Settings}
use open_v_center_backend.Timeouts.{task_timeout_seconds}
use open_v_center_backend.Models.{get_task}
use open_v_center_backend.Audit.{prune_events}
use open_v_center_backend.Inventory.Metrics.{sweep_metrics, apply_host_metrics, apply_vm_metrics}
use open_v_center_backend.Inventory.Hosts.{apply_agent_status, apply_host_inventory}
use open_v_center_backend.Inventory.Images.{apply_template_inventory, apply_iso_inventory}
use open_v_center_backend.Inventory.Answers.{inventory_refreshes}
use open_v_center_backend.Worker.Consumers.{Runtime, QueueKind, dispatch, handle_message}
use open_v_center_backend.Worker.Sweep.{sweep_stale_tasks, expire}
use open_v_center_backend.Worker.Sweep.Overdue.{UniqueIds, is_overdue, sweep_exact}
use open_v_center_backend.Worker.Steps.{Step, Run}
use open_v_center_backend.Worker.Steps.Rows.{
  absurd, Advance, Advances, Advances-refl, Advances-trans,
}
use open_v_center_backend.Worker.Steps.Tasks.{
  Moves, Moves-same, tasks-apply_response, tasks-sweep, tasks-queue, tasks-apply_vm_inventory,
}

module _ ⦃kv : Valkey⦄ where
  open kv use {Store}

  tasks-dispatch :
      (rt : Runtime) (env : Env) (host_id : ℕ) (kind : QueueKind) (payload : Dict) (w : World Store)
      → UniqueIds w.db.tasks
      → Moves w.db.tasks (dispatch rt env host_id kind payload w).db.tasks
  unfolding dispatch
  tasks-dispatch rt env host_id QueueKind.response payload w u =
      elim (Option-cases (rt.validate payload)) [
        | inl e ↦ rw (e, dispatch) (Advances-refl w.db.tasks, u)
        | inr (resp, e) ↦
            rw (e, dispatch)
              (tasks-apply_response (inventory_refreshes rt.py (rt.template_id 0)) env host_id resp
                w u)
      ]
  tasks-dispatch rt env host_id QueueKind.agent_status payload w u =
      Moves-same w.db.tasks _ (unfold apply_agent_status in refl) u
  tasks-dispatch rt env host_id QueueKind.vm_inventory payload w u =
      Moves-same w.db.tasks _
        (tasks-apply_vm_inventory rt.py env rt.new_id rt.event_id host_id payload w) u
  tasks-dispatch rt env host_id QueueKind.host_inventory payload w u =
      Moves-same w.db.tasks _ (unfold apply_host_inventory in ground arith) u
  tasks-dispatch rt env host_id QueueKind.template_inventory payload w u =
      Moves-same w.db.tasks _ (unfold apply_template_inventory in refl) u
  tasks-dispatch rt env host_id QueueKind.iso_inventory payload w u =
      Moves-same w.db.tasks _ (unfold apply_iso_inventory in refl) u
  tasks-dispatch rt env host_id QueueKind.host_metrics payload w u =
      Moves-same w.db.tasks _ (unfold apply_host_metrics in ground arith) u
  tasks-dispatch rt env host_id QueueKind.vm_metrics payload w u =
      Moves-same w.db.tasks _ (unfold apply_vm_metrics in refl) u
  tasks-dispatch rt env host_id QueueKind.request payload w u = (Advances-refl w.db.tasks, u)

  tasks-Step : {v w : World Store} → Step v w → UniqueIds v.db.tasks → Moves v.db.tasks w.db.tasks
  unfolding handle_message prune_events sweep_metrics
  tasks-Step {v} (Step.message rt env host_id kind body) u = elim (Option-cases (rt.loads body)) [
    | inl e ↦ rw (e, handle_message) (Advances-refl v.db.tasks, u)
    | inr (payload, e) ↦ rw (e, handle_message) (tasks-dispatch rt env host_id kind payload v u)
  ]
  tasks-Step {v} (Step.timeouts env) u = tasks-sweep env v u
  tasks-Step {v} (Step.events env) u = Moves-same v.db.tasks _ (ground arith) u
  tasks-Step {v} (Step.operation env i x f params by tr locked fresh) u =
      tasks-queue env i x f params by tr locked v fresh u
  tasks-Step {v} (Step.samples env) u = (Advances-refl v.db.tasks, u)

  -- Along every run of VM requests, messages and sweeps from a task table with unique ids, ids stay
  -- unique, and every task row keeps its place, its id, its kind and its creation time, and once ended
  -- stays ended.
  pub run_advances :
      {v w : World Store} → Run v w → UniqueIds v.db.tasks → Moves v.db.tasks w.db.tasks
  run_advances {v} Run.stop u = (Advances-refl v.db.tasks, u)
  run_advances (Run.next step rest) u =
      let first = tasks-Step step u in
      let later = run_advances rest first.1 in (Advances-trans _ _ _ first.0 later.0, later.1)

-- The row with the id has ended.
abbrev pub has_ended : ℕ → Task → Bool
has_ended i t = t.id == i && is_terminal t.status

any-Advances :
    (i : ℕ) (ts us : List Task)
    → Advances ts us
    → any (has_ended i) ts ≡ true
    → any (has_ended i) us ≡ true
unfolding any Advances
any-Advances i [] us a h = absurd h
any-Advances i (t ∷ ts) [] a h = absurd a
any-Advances i (t ∷ ts) (u ∷ us) a h = elim (Bool-cases (has_ended i t)) [
  | inl e ↦ ground (arith, e, a.0.0, a.0.3)
  | inr e ↦ ground (arith, e, h, any-Advances i ts us a.1)
]

-- The row with the id, the kind and the creation time of another.
abbrev is_like : Task → Task → Bool
is_like t r = r.id == t.id && (str_eq r.kind t.kind && r.created_at == t.created_at)

is_like-Advance : (t x u : Task) → Advance x u → x ≡ t → is_like t u ≡ true
is_like-Advance t x u a e = ground (
  arith,
  a.0 ∙ ap (λ (r : Task). r.id) e,
  a.2 ∙ ap (λ (r : Task). r.created_at) e,
  (eq_iff u.kind t.kind).1 (a.1 ∙ ap (λ (r : Task). r.kind) e),
)

like-Advances :
    (t : Task) (ts us : List Task)
    → Advances ts us
    → find (λ r. r.id == t.id) ts ≡ some t
    → any (is_like t) us ≡ true
unfolding any find Advances
like-Advances t [] us a f = cc
like-Advances t (x ∷ ts) [] a f = absurd a
like-Advances t (x ∷ ts) (u ∷ us) a f = elim (Bool-cases (x.id == t.id)) [
  | inl e ↦ first (is_like-Advance t x u a.0 (same e f))
  | inr e ↦ ground (arith, e, f, like-Advances t ts us a.1)
]
  where
    same : (x.id == t.id) ≡ true → find (λ r. r.id == t.id) (x ∷ ts) ≡ some t → x ≡ t
    same e f = ground (arith, e, f)

    first : is_like t u ≡ true → any (is_like t) (u ∷ us) ≡ true
    first l = rw l refl

like-ends :
    (s : Settings) (now : ℕ) (t : Task) (ts : List Task)
    → ltb (t.created_at + task_timeout_seconds s t.kind) now ≡ true
    → any (is_like t) ts ≡ true
    → any (has_ended t.id) (update_where (is_overdue s now) (expire now) ts) ≡ true
unfolding any update_where is_overdue
like-ends s now t [] late h = absurd h
like-ends s now t (r ∷ ts) late h = elim (Bool-cases (is_like t r)) [
  | inl e ↦
      ends (ground (arith, e))
        (kind_late ((eq_iff r.kind t.kind).0 (ground (arith, e))) (ground (arith, e)))
  | inr e ↦ ground (arith, e, h, like-ends s now t ts late)
]
  where
    kind_late :
        r.kind ≡ t.kind
        → r.created_at ≡ t.created_at
        → ltb (r.created_at + task_timeout_seconds s r.kind) now ≡ true
    kind_late k c = rw (k, c) late

    ends :
        r.id ≡ t.id
        → ltb (r.created_at + task_timeout_seconds s r.kind) now ≡ true
        → any (has_ended t.id) (update_where (is_overdue s now) (expire now) (r ∷ ts)) ≡ true
    ends i l = ground (arith, i, l)

module _ ⦃kv : Valkey⦄ (env : Env) {u v x : World kv.Store} (t : Task) where
  -- In a table with unique ids, a task has ended after any run of VM requests, messages and sweeps that
  -- is followed by a timeout sweep past the deadline of its kind, and it has ended still after any further
  -- run.
  pub sweep_ends :
      UniqueIds u.db.tasks
      → get_task u.db t.id ≡ some t
      → Run u v
      → ltb (t.created_at + task_timeout_seconds env.settings t.kind) env.now ≡ true
      → Run (sweep_stale_tasks env v) x
      → any (has_ended t.id) x.db.tasks ≡ true
  sweep_ends unique row before late after =
      let (there, unique') = run_advances before unique in
      let ended : any (has_ended t.id) (sweep_stale_tasks env v).db.tasks ≡ true =
        ap (any (has_ended t.id)) (sweep_exact env v unique')
        ∙ like-ends env.settings env.now t v.db.tasks late
            (like-Advances t u.db.tasks v.db.tasks there row) in
      any-Advances t.id (sweep_stale_tasks env v).db.tasks x.db.tasks
        (run_advances after (tasks-sweep env v unique').1).0 ended
