-- ===== src/Worker/Steps/Tasks.antt =====
-- What each step does to the task rows.
use open_v_center_backend.Prelude.{
  ℕ, String, ◌≡◌, refl, ap, ◌∙◌, Bool, true, false, not, ◌&&◌, Option, none, some, List, [], ◌∷◌,
  ◌++◌, ◌==◌, All, any, find, update_where, Bool-cases, Option-cases, inl, inr, ◌⊎◌, arith,
  nonempty, rows_where,
}
use open_v_center_backend.Json.{Dict}
use open_v_center_backend.Models.{Db, get_host}
use open_v_center_backend.Models.VmRows.{Vm}
use open_v_center_backend.Models.TaskRows.{Task, is_terminal, AgentResponse}
use open_v_center_backend.Models.Cascade.{delete_vms}
use open_v_center_backend.Valkey.{Valkey}
use open_v_center_backend.World.{World, Env, with_session, publish_request}
use open_v_center_backend.Audit.{record_event, settle_task_events}
use open_v_center_backend.Hosts.Status.{require_host_online}
use open_v_center_backend.Vms.Queue.{queue_vm_task, vm_task, take_lock, submit, release_on_error}
use open_v_center_backend.Inventory.Sync.{
  audit_removed, delete_in_flight, finish_sync, apply_vm_inventory, is_vanished,
}
use open_v_center_backend.Inventory.Sync.Items.{Sync}
use open_v_center_backend.Inventory.Sync.Result.{synced}
use open_v_center_backend.Worker.Response.{
  Refreshes, is_answered, is_running, note_progress, settle_task, answer, apply_response,
  strip_thumbnails,
}
use open_v_center_backend.Inventory.Values.{Python}
use open_v_center_backend.Worker.Response.Lifecycle.{tasks-apply_terminal}
use open_v_center_backend.Worker.Sweep.{sweep_stale_tasks, expire_tasks, expire, id_in, stale_tasks}
use open_v_center_backend.Worker.Sweep.Overdue.{UniqueIds}
use open_v_center_backend.Worker.Steps.Rows.{
  Advance, Advances, Advances-refl, Advances-append, Advances-update_where, UniqueIds-update_where,
  UniqueIds-append, unique_row,
}

-- The task table of a step: it advanced, and its ids are unique.
abbrev pub Moves : List Task → List Task → Type 0
Moves ts us = Advances ts us × UniqueIds us

abbrev Fits : (Task → Bool) → (Task → Task) → Task → Type 0
Fits p f t = p t ≡ true → Advance t (f t)

Moves-update_where :
    (p : Task → Bool) (f : Task → Task) (ts : List Task)
    → ((x : Task) → (f x).id ≡ x.id)
    → All (λ t. p t ≡ true → Advance t (f t)) ts
    → UniqueIds ts
    → Moves ts (update_where p f ts)
Moves-update_where p f ts h a u =
    (Advances-update_where p f ts a, UniqueIds-update_where p f ts h u)

pub Moves-same : (ts us : List Task) → us ≡ ts → UniqueIds ts → Moves ts us
Moves-same ts us e u = rw e (Advances-refl ts, u)

-- Ending a task, whatever it was.
settle-Advance :
    (rs : Refreshes) (now : ℕ) (resp : AgentResponse) (t : Task)
    → Advance t (settle_task rs now resp t)
unfolding settle_task
settle-Advance rs now resp t = (refl, refl, refl, λ e. ground arith)

rewrite_keeps :
    (p : Task → Bool) (f : Task → Task) (ts : List Task)
    → ((t : Task) → Advance t (f t))
    → All (Fits p f) ts
rewrite_keeps p f [] h = tt
rewrite_keeps p f (t ∷ ts) h = (λ e. h t, rewrite_keeps p f ts h)

note-Advance :
    (now : ℕ) (resp : AgentResponse) (t : Task)
    → is_terminal t.status ≡ false
    → Advance t (note_progress now resp t)
unfolding note_progress
note-Advance now resp t live = (refl, refl, refl, λ e. ground (arith, live, e))

notes_fit :
    (now : ℕ) (resp : AgentResponse) (x : Task) (ts : List Task)
    → is_terminal x.status ≡ false
    → All (λ t. (t.id == x.id) ≡ true → t ≡ x) ts
    → All (Fits (λ r. r.id == x.id) (note_progress now resp)) ts
notes_fit now resp x [] live h = tt
notes_fit now resp x (t ∷ ts) live h = (
  λ e. note-Advance now resp t (ap (λ (r : Task). is_terminal r.status) (h.0 e) ∙ live),
  notes_fit now resp x ts live h.1,
)

module _ ⦃kv : Valkey⦄ where
  tasks-answer :
      (rs : Refreshes) (env : Env) (host_id : ℕ) (resp : AgentResponse) (t : Task)
      (w : World kv.Store)
      → UniqueIds w.db.tasks
      → find (is_answered host_id resp) w.db.tasks ≡ some t
      → Moves w.db.tasks (answer rs env host_id (strip_thumbnails resp) t w).db.tasks
  unfolding answer
  tasks-answer rs env host_id resp t w u f =
      let resp' = strip_thumbnails resp in
      elim (Bool-cases (is_running resp'.status && not (is_terminal t.status))) [
        | inl e ↦
            rw (e, answer)
              (Moves-update_where (λ r. r.id == t.id) (note_progress env.now resp') w.db.tasks
                (λ x. unfold note_progress in refl)
                (notes_fit env.now resp' t w.db.tasks (ground (arith, e))
                  (unique_row (is_answered host_id resp) w.db.tasks t u f))
                u)
        | inr e ↦
            rw (e, answer)
              (rw (tasks-apply_terminal rs env host_id resp' t w) (
                Moves-update_where (λ r. r.id == t.id) (settle_task rs env.now resp') w.db.tasks
                  (λ x. unfold settle_task in refl)
                  (rewrite_keeps (λ r. r.id == t.id) (settle_task rs env.now resp') w.db.tasks
                    (settle-Advance rs env.now resp'))
                  u))
      ]

  pub tasks-apply_response :
      (rs : Refreshes) (env : Env) (host_id : ℕ) (resp : AgentResponse) (w : World kv.Store)
      → UniqueIds w.db.tasks
      → Moves w.db.tasks (apply_response rs env host_id resp w).db.tasks
  unfolding apply_response
  tasks-apply_response rs env host_id resp w u =
      elim (Option-cases (find (is_answered host_id resp) w.db.tasks)) [
        | inl f ↦ rw (f, apply_response) (Advances-refl w.db.tasks, u)
        | inr (t, f) ↦ rw (f, apply_response) (tasks-answer rs env host_id resp t w u f)
      ]

  pub tasks-sweep :
      (env : Env) (w : World kv.Store)
      → UniqueIds w.db.tasks
      → Moves w.db.tasks (sweep_stale_tasks env w).db.tasks
  unfolding sweep_stale_tasks expire_tasks settle_task_events delete_vms
  tasks-sweep env w u =
      let stale = stale_tasks env.settings env.now w.db.tasks in
      Moves-update_where (id_in stale) (expire env.now) w.db.tasks (λ x. refl)
        (rewrite_keeps (id_in stale) (expire env.now) w.db.tasks
          (λ t. (refl, refl, refl, λ e. refl)))
        u

  tasks-audit_removed :
      (now : ℕ) (event_id : ℕ → ℕ) (gone : List Vm) (db : Db)
      → (audit_removed now event_id gone db).tasks ≡ db.tasks
  unfolding audit_removed record_event
  tasks-audit_removed now event_id [] db = refl
  tasks-audit_removed now event_id (v ∷ vs) db = elim (Bool-cases (delete_in_flight db v.id)) [
    | inl e ↦ rw (e, audit_removed) (tasks-audit_removed now event_id vs db)
    | inr e ↦ rw (e, audit_removed) (tasks-audit_removed now event_id vs _)
  ]

  unreported :
      (env : Env) (task_id : ℕ) (v : Vm) (function : String) (params : Dict) (by : String)
      (transitional : Option String) (locked : Bool) (w : World kv.Store)
      → nonempty v.vm_uuid ≡ none
      → (with_session
          (queue_vm_task env task_id v function params by transitional locked)
          w).1.db.tasks
        ≡ w.db.tasks
  unfolding with_session queue_vm_task
  unreported env task_id v function params by transitional locked w e = rw (e, queue_vm_task) refl

  queued_or_not :
      (env : Env) (task_id : ℕ) (v : Vm) (u function : String) (params : Dict) (by : String)
      (transitional : Option String) (locked : Bool) (w : World kv.Store)
      → nonempty v.vm_uuid ≡ some u
      → let w' =
          (with_session (queue_vm_task env task_id v function params by transitional locked) w).1 in
        (w'.db.tasks ≡ w.db.tasks)
        ⊎ (w'.db.tasks ≡ w.db.tasks ++ vm_task env task_id v u function params by ∷ [])
  unfolding with_session queue_vm_task require_host_online take_lock submit publish_request
      release_on_error
  queued_or_not env task_id v u function params by transitional locked w e = ground (arith, e)

  pub tasks-queue :
      (env : Env) (task_id : ℕ) (v : Vm) (function : String) (params : Dict) (by : String)
      (transitional : Option String) (locked : Bool) (w : World kv.Store)
      → any (λ t. t.id == task_id) w.db.tasks ≡ false
      → UniqueIds w.db.tasks
      → Moves w.db.tasks
          (with_session
            (queue_vm_task env task_id v function params by transitional locked)
            w).1.db.tasks
  tasks-queue env task_id v function params by transitional locked w fresh u =
      elim (Option-cases (nonempty v.vm_uuid)) [
        | inl e ↦
            Moves-same w.db.tasks _
              (unreported env task_id v function params by transitional locked w e) u
        | inr (x, e) ↦
            elim (queued_or_not env task_id v x function params by transitional locked w e) [
              | inl same ↦ Moves-same w.db.tasks _ same u
              | inr more ↦ rw more (
                Advances-append w.db.tasks (vm_task env task_id v x function params by ∷ []),
                UniqueIds-append (vm_task env task_id v x function params by) w.db.tasks fresh u,
              )
            ]
      ]

  pub tasks-apply_vm_inventory :
      (py : Python) (env : Env) (new_id event_id : ℕ → ℕ) (host_id : ℕ) (payload : Dict)
      (w : World kv.Store)
      → (apply_vm_inventory py env new_id event_id host_id payload w).db.tasks ≡ w.db.tasks
  unfolding apply_vm_inventory finish_sync delete_vms
  tasks-apply_vm_inventory py env new_id event_id host_id payload w =
      elim (Option-cases (get_host w.db host_id)) [
        | inl e ↦ rw (e, apply_vm_inventory) refl
        | inr (host, e) ↦
            let st : Sync kv.Store = synced py env new_id host_id payload w host in
            rw (e, apply_vm_inventory)
              (tasks-audit_removed env.now event_id
                (rows_where (is_vanished host_id st.seen) st.rows) (record w.db { vms = st.rows }))
      ]
