-- ===== src/Examples/Trail.antt =====
-- Two pages of an audit trail of three events.
use open_v_center_backend.Prelude.{◌≡◌, refl, ℕ, true, false, none, some, [], ◌∷◌, rows_where}
use open_v_center_backend.Models.{Db}
use open_v_center_backend.Models.Records.{AuditEvent, Outcome, ActorType}
use open_v_center_backend.Audit.Listing.{AuditFilter, Sql, list_events, page, take}
use open_v_center_backend.Audit.Listing.Order.{UniqueEvents}
use open_v_center_backend.Audit.Listing.Pages.{drop, listed, next_page}
use open_v_center_backend.Examples.{db_with}

abbrev event_of : ℕ → ℕ → AuditEvent
event_of i t = record {
  id = i;
  occurred_at = t;
  actor_type = ActorType.system;
  actor_email = none;
  actor_name = none;
  action = "vm.start";
  target_type = "vm";
  target_id = none;
  target_name = none;
  host_id = none;
  cluster_id = none;
  task_id = none;
  outcome = Outcome.succeeded;
  error = none;
  details = none;
}

abbrev db : Db
db = record (db_with []) { events = event_of 1 5 ∷ event_of 2 9 ∷ event_of 3 5 ∷ [] }

abbrev everything : AuditFilter
everything = record {
  actor = none;
  action = none;
  target_type = none;
  target_id = none;
  host_id = none;
  cluster_id = none;
  outcome = none;
  since = none;
  until = none;
  q = none;
}

abbrev sql : Sql
sql = record { contains = λ c s. false; same_outcome = λ a b. true }

unique_events : UniqueEvents db.events
unfolding UniqueEvents
unique_events = ((refl, (refl, tt)), ((refl, tt), (tt, tt)))

cursor : (list_events sql everything 2 none db).1 ≡ some (5, 3)
unfolding list_events rows_where
cursor = refl

next_page_example :
    ((list_events sql everything 2 none db).0 ≡ take 2 (listed sql everything none db))
    × (list_events sql everything 4 (some (5, 3)) db
        ≡ page 4 (drop 2 (listed sql everything none db)))
next_page_example = next_page sql everything 1 4 none (5, 3) db unique_events cursor
