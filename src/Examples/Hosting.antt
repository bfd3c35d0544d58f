-- ===== src/Examples/Hosting.antt =====
-- The hosts of the installation on a broker, and the removal of one.
use open_v_center_backend.Prelude.{
  ℕ, String, ◌≡◌, ◌↔◌, refl, arith, true, false, none, some, List, [], ◌∷◌, ◌++◌, All, any, find,
}
use open_v_center_backend.Text.{text_eq, starts_with}
use open_v_center_backend.Text.Words.{strip}
use open_v_center_backend.Vms.Paths.{codes}
use open_v_center_backend.Models.{Db}
use open_v_center_backend.Models.Topology.{Host}
use open_v_center_backend.Models.Records.{AuditEvent, ActorType, Outcome}
use open_v_center_backend.Valkey.Memory.{memory}
use open_v_center_backend.Errors.{ok}
use open_v_center_backend.World.{World}
use open_v_center_backend.Rbac.{all_visible}
use open_v_center_backend.Hosts.Messaging.{request, queue_name, kind_value, queue_args, own_queue}
use open_v_center_backend.Hosts.Messaging.Isolated.{Dotless, own_queue_iff}
use open_v_center_backend.Hosts.Broker.Memory.{memory_broker}
use open_v_center_backend.Hosts.Provision.{
  check_hosts_messaging, declare_all, declare_host_queues, declare_kinds, none_missing, has_kinds,
  check_users, ensure_host_agent_user, ensure_host_agent_credentials, managed, create_host,
  check_cluster, provision, own_rights, add_host,
}
use open_v_center_backend.Hosts.Provision.Ready.{IsReady, user_of}
use open_v_center_backend.Hosts.Provision.Checked.{
  OwnUsers, MayJoin, check_hosts-IsReady, create_host-IsReady,
}
use open_v_center_backend.Routes.Hosts.{remove_host}
use open_v_center_backend.Routes.Hosts.Removed.{NoOrphans, remove_host-NoOrphans}
use open_v_center_backend.Examples.{env, viewer, host_of, db_with, world_with, start_task}

h1-Dotless : Dotless (codes "h1")
h1-Dotless = ((λ e. omega (arith, e)), ((λ e. omega (arith, e)), tt))

h2-Dotless : Dotless (codes "h2")
h2-Dotless = ((λ e. omega (arith, e)), ((λ e. omega (arith, e)), tt))

own_queue_iff_example :
    (own_queue (codes "h1") (queue_name (codes "h2") request) ≡ true) ↔ (codes "h1" ≡ codes "h2")
own_queue_iff_example = own_queue_iff (codes "h1") (codes "h2") request h1-Dotless h2-Dotless

abbrev h_one : Host
h_one = record (host_of 1 none) { short_id = "h1" }

abbrev h_two : Host
h_two = record (host_of 2 none) { short_id = "h2" }

abbrev hosts : List Host
hosts = h_one ∷ h_two ∷ []

abbrev drawn : ℕ → String
drawn i = "secret"

unfoldable bare : memory_broker.State
unfolding memory_broker
bare = record { queues = λ n. false; passwords = λ n. none; permissions = λ n. none }

own_users : OwnUsers (managed true drawn hosts)
unfolding ensure_host_agent_credentials text_eq
own_users = ((refl, tt), (tt, tt))

unfoldable broker_after : memory_broker.State
unfolding memory_broker
broker_after = (check_hosts_messaging memory_broker 1000 true drawn hosts bare).1

check_passes :
    check_hosts_messaging memory_broker 1000 true drawn hosts bare ≡ (ok tt, broker_after)
unfolding broker_after memory_broker bare check_hosts_messaging declare_all declare_host_queues
    declare_kinds none_missing has_kinds check_users ensure_host_agent_user
    ensure_host_agent_credentials text_eq queue_name kind_value queue_args
check_passes = refl

check_hosts-IsReady_example : All (IsReady memory_broker broker_after) (managed true drawn hosts)
unfolding memory_broker
check_hosts-IsReady_example =
    check_hosts-IsReady memory_broker 1000 drawn hosts bare broker_after own_users check_passes

-- The second host with its account, on a broker that has everything for it.
abbrev ready : Host
ready = ensure_host_agent_credentials "secret" h_two

unfoldable furnished : memory_broker.State
unfolding memory_broker
furnished = record {
  queues = λ n. starts_with n (codes "h2.");
  passwords = λ n. some (codes "secret");
  permissions = λ n. some (own_rights h_two);
}

is_ready : IsReady memory_broker furnished ready
unfolding memory_broker furnished ensure_host_agent_credentials starts_with queue_name
is_ready = ((λ k. refl), (refl, refl))

abbrev db : Db
db = db_with []

abbrev created : Host
created = record (host_of 3 (some 5)) {
  short_id = "h3";
  name = "new";
  agent_rmq_user = some "agent-h3";
  agent_rmq_password = some "pw";
  agent_last_seen = none;
}

unfoldable broker_grown : memory_broker.State
unfolding memory_broker
broker_grown = (create_host memory_broker 1000 3 "h3" "pw" " new" (some 5) "hyperv" db furnished).1

creates :
    create_host memory_broker 1000 3 "h3" "pw" " new" (some 5) "hyperv" db furnished
    ≡ (ok (created, add_host created db), broker_grown)
unfolding broker_grown memory_broker furnished create_host check_cluster provision
    declare_host_queues declare_kinds ensure_host_agent_user ensure_host_agent_credentials find
    strip
creates = refl

other_account : text_eq (user_of created) (user_of ready) ≡ false
unfolding ensure_host_agent_credentials text_eq
other_account = refl

create_host-IsReady_example :
    ((add_host created db).hosts ≡ db.hosts ++ created ∷ [])
    × ((created.id ≡ 3)
        × (created.short_id ≡ "h3")
        × (created.hypervisor ≡ "hyperv")
        × (created.cluster_id ≡ some 5))
    × MayJoin (some 5) "hyperv" db.clusters
    × IsReady memory_broker broker_grown created
    × IsReady memory_broker broker_grown ready
unfolding memory_broker
create_host-IsReady_example =
    create_host-IsReady memory_broker 1000 3 "h3" "pw" " new" (some 5) "hyperv" created ready db
      (add_host created db) furnished broker_grown creates other_account is_ready

-- A start of a VM of the first host is open, with its event.
abbrev started : AuditEvent
started = record {
  id = 60;
  occurred_at = 990;
  actor_type = ActorType.user;
  actor_email = none;
  actor_name = none;
  action = "vm.start";
  target_type = "vm";
  target_id = some 10;
  target_name = none;
  host_id = some 1;
  cluster_id = none;
  task_id = some 7;
  outcome = Outcome.pending;
  error = none;
  details = none;
}

abbrev w : World memory.Store
w = record (world_with (start_task ∷ [])) {
  db = record (db_with (start_task ∷ [])) { events = started ∷ [] };
}

no_orphans : NoOrphans w.db.tasks w.db.events
unfolding any
no_orphans = (λ p. refl, tt)

remove_host-NoOrphans_example :
    NoOrphans
      (remove_host memory_broker env 61 viewer all_visible 1 w furnished).1.db.tasks
      (remove_host memory_broker env 61 viewer all_visible 1 w furnished).1.db.events
unfolding memory_broker
remove_host-NoOrphans_example =
    remove_host-NoOrphans memory_broker env 61 viewer all_visible 1 w furnished no_orphans
