-- ===== src/Routes/Hosts/Removed.antt =====
-- No event stays pending for a task that is gone.
use open_v_center_backend.Prelude.{
  ℕ, String, ◌≡◌, refl, Bool, true, false, not, ◌&&◌, Option, some, List, [], ◌∷◌, ◌==◌, arith, map,
  any, has_id, rows_where, update_where, delete_where, All, All-update, All-append, inl, inr,
  Bool-cases,
}
use open_v_center_backend.Models.{Db}
use open_v_center_backend.Models.Cascade.{delete_host_row, delete_folders, delete_vms}
use open_v_center_backend.Models.Topology.{Host}
use open_v_center_backend.Models.TaskRows.{Task, is_terminal}
use open_v_center_backend.Models.Records.{User, Outcome, AuditEvent}
use open_v_center_backend.Errors.{Result, ok, err, After}
use open_v_center_backend.World.{World, Env}
use open_v_center_backend.Audit.{record_event, settle_task_events, pending_for, is_pending}
use open_v_center_backend.Organization.{delete_host}
use open_v_center_backend.Rbac.{VisibleScope}
use open_v_center_backend.Hosts.Broker.{Broker}
use open_v_center_backend.Routes.Hosts.{
  is_open_on, remove_rows, set_db, removable, removed_from, remove_host,
}

-- A task of an event that has not ended.
abbrev pub open_task_of : AuditEvent → Task → Bool
open_task_of e t = has_id e.task_id t.id && not (is_terminal t.status)

-- Every pending event is about a task of the table that has not ended.
abbrev pub NoOrphans : List Task → List AuditEvent → Type 0
NoOrphans tasks events =
    All (λ e. is_pending e.outcome ≡ true → any (open_task_of e) tasks ≡ true) events

-- What satisfies a test is left by a delete that takes nothing of it.
any_left {ℓ} :
    {A : Type ℓ} (p q : A → Bool) (xs : List A)
    → any (λ x. p x && q x) xs ≡ false
    → any p xs ≡ true
    → any p (delete_where q xs) ≡ true
unfolding any delete_where
any_left p q [] h k = k
any_left p q (x ∷ xs) h k = ground (arith, any_left p q xs)

-- An open task of the host is among those whose events are settled.
settled :
    (e : AuditEvent) (host_id : ℕ) (tasks : List Task)
    → any (λ t. open_task_of e t && t.host_id == host_id) tasks ≡ true
    → any (λ i. has_id e.task_id i) (map (λ t. t.id) (rows_where (is_open_on host_id) tasks)) ≡ true
unfolding any rows_where
settled e host_id [] h = h
settled e host_id (t ∷ tasks) h = ground (arith, settled e host_id tasks)

unsettled :
    (e : AuditEvent) (host_id : ℕ) (tasks : List Task)
    → is_pending e.outcome ≡ true
    → pending_for (map (λ t. t.id) (rows_where (is_open_on host_id) tasks)) e ≡ false
    → any (λ t. open_task_of e t && t.host_id == host_id) tasks ≡ false
unsettled e host_id tasks p miss =
    elim (Bool-cases (any (λ t. open_task_of e t && t.host_id == host_id) tasks)) [
      | inr none_left ↦ none_left
      | inl some_left ↦ ground (arith, settled e host_id tasks some_left, p, miss)
    ]

-- The events of a removed host's open tasks are closed with it.
NoOrphans-settled :
    (host_id : ℕ) (tasks : List Task) (outcome : Outcome) (error : Option String)
    (events : List AuditEvent)
    → is_pending outcome ≡ false
    → NoOrphans tasks events
    → NoOrphans (delete_where (λ t. t.host_id == host_id) tasks) (
        update_where
          (pending_for (map (λ t. t.id) (rows_where (is_open_on host_id) tasks)))
          (λ e. record e { outcome = outcome; error = error })
          events)
NoOrphans-settled host_id tasks outcome error events closed inv =
    All-update _ _ (pending_for (map (λ t. t.id) (rows_where (is_open_on host_id) tasks))) _ events
      (λ e hit old p. cc (closed, p))
      (λ e miss old p.
        any_left (open_task_of e) (λ t. t.host_id == host_id) tasks
          (unsettled e host_id tasks p miss) (old p))
      inv

remove_rows-NoOrphans :
    (env : Env) (event_id : ℕ) (user : User) (h : Host) (db : Db)
    → NoOrphans db.tasks db.events
    → After (λ db'. NoOrphans db'.tasks db'.events) (remove_rows env event_id user h db)
unfolding remove_rows record_event settle_task_events delete_host delete_host_row delete_folders
    delete_vms
remove_rows-NoOrphans env event_id user h db inv =
    NoOrphans-settled h.id db.tasks Outcome.failed (some "Host removed before the task finished") _
      refl (All-append _ db.events _ inv ((λ p. cc), tt))

set_db-NoOrphans :
    {S : Type 0} (r : Result Db) (w : World S)
    → NoOrphans w.db.tasks w.db.events
    → After (λ db'. NoOrphans db'.tasks db'.events) r
    → NoOrphans (set_db r w).1.db.tasks (set_db r w).1.db.events
set_db-NoOrphans (ok db) w inv new = new
set_db-NoOrphans (err e) w inv new = inv

-- Where every pending event is about a task that has not ended, the removal of a host, refused or not,
-- keeps that so, although the host's tasks go with it.
pub remove_host-NoOrphans :
    {S : Type 0} (broker : Broker) (env : Env) (event_id : ℕ) (user : User) (scope : VisibleScope)
    (host_id : ℕ) (w : World S) (s : broker.State)
    → NoOrphans w.db.tasks w.db.events
    → NoOrphans
        (remove_host broker env event_id user scope host_id w s).1.db.tasks
        (remove_host broker env event_id user scope host_id w s).1.db.events
unfolding remove_host
remove_host-NoOrphans broker env event_id user scope host_id w s inv =
    from_case (removable scope host_id w.db)
  where
    from_case :
        (r : Result Host)
        → NoOrphans
            (removed_from broker env event_id user w s r).1.db.tasks
            (removed_from broker env event_id user w s r).1.db.events
    from_case (err e) = inv
    from_case (ok h) =
        set_db-NoOrphans (remove_rows env event_id user h w.db) w inv
          (remove_rows-NoOrphans env event_id user h w.db inv)
