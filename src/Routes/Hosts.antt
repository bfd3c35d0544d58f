-- ===== src/Routes/Hosts.antt =====
-- app/api/routes/hosts.py: operations on hosts, for a user and what the user sees. The bodies of responses
-- are left out but for the listings.
pub mod Removed
use open_v_center_backend.Prelude.{
  ℕ, ◌+◌, String, ◌≡◌, Bool, true, false, not, ◌&&◌, ◌||◌, Option, none, some, List, [], ◌∷◌, ◌==◌,
  map, count, has_id, leb, rows_where, str_in, if◌then◌else◌, is_some, update_where,
}
use open_v_center_backend.Json.{Json, null, num, str, obj, Dict, end, entry}
use open_v_center_backend.Settings.{Settings}
use open_v_center_backend.Text.Words.{strip}
use open_v_center_backend.Models.{Db, get_host, get_cluster, put_host}
use open_v_center_backend.Models.Topology.{Cluster, Host}
use open_v_center_backend.Models.TaskRows.{Task, is_terminal}
use open_v_center_backend.Models.Samples.{HostMetric}
use open_v_center_backend.Models.Records.{User, Outcome, AgentBinary}
use open_v_center_backend.Errors.{Result, ok, err, api, or_raise, not_found, forbidden}
use open_v_center_backend.World.{
  World, Env, Action, pure, raise, gets, lift, modify_db, raise_when, ◌>>=◌, ◌>>◌,
}
use open_v_center_backend.Rbac.{VisibleScope, sees_host, sees_cluster}
use open_v_center_backend.Audit.{host_target, record_event, settle_task_events}
use open_v_center_backend.Audit.Changes.{changes}
use open_v_center_backend.Organization.{move_host, delete_host}
use open_v_center_backend.Hosts.Actions.{disruptive_host_actions, request_host_action}
use open_v_center_backend.Hosts.Broker.{Broker}
use open_v_center_backend.Hosts.Provision.{create_host, deprovision_host_messaging, ref_of}
use open_v_center_backend.Agents.Upgrade.{resolve_upgrade_binary, request_agent_upgrade}
use open_v_center_backend.Serializers.Hosts.{HostOut, host_out}
use open_v_center_backend.Routes.Vms.Edits.{record_diff}

-- _vm_counts, at one host
unfoldable pub vm_count_of : Db → ℕ → ℕ
vm_count_of db host_id = count (λ v. v.host_id == host_id) db.vms

abbrev in_cluster : Option ℕ → Host → Bool
in_cluster none h = true
in_cluster (some i) h = has_id h.cluster_id i

-- list_hosts; the order of the names is the database's.
unfoldable pub list_hosts :
    (List Host → List Host) → Settings → ℕ → VisibleScope → Option ℕ → Db → List HostOut
unfolding host_out vm_count_of
list_hosts order s now scope cluster_id db =
    map (λ h. host_out s now h (vm_count_of db h.id))
      (rows_where (λ h. sees_host scope h.id) (order (rows_where (in_cluster cluster_id) db.hosts)))

-- The test of add_host and of a move: an administrator, or a cluster that the user sees.
abbrev pub may_place : VisibleScope → Option ℕ → Bool
may_place scope none = scope.all
may_place scope (some i) = scope.all || sees_cluster scope (some i)

module _ {S : Type 0} where
  -- _get_visible_host
  unfoldable pub get_visible_host : VisibleScope → ℕ → Action S Host
  get_visible_host scope host_id = do
    host ← gets (λ w. get_host w.db host_id) >>= λ o. lift (or_raise o (api not_found))
    raise_when (not (sees_host scope host.id)) forbidden
    pure host

abbrev cluster_name : Option Cluster → Json
cluster_name none = null
cluster_name (some c) = str c.name

-- _cluster_ref
unfoldable pub cluster_ref : Db → Option ℕ → Json
cluster_ref db none = null
cluster_ref db (some i) =
    obj (entry "id" (num i) (entry "name" (cluster_name (get_cluster db i)) end))

abbrev text_json : Option String → Json
text_json none = null
text_json (some s) = str s

-- The host of another cluster, and the event of the move if there was one.
abbrev pub moved :
    {S : Type 0} → Env → ℕ → User → Option ℕ → Host → World S → Result Db → Result Host × World S
moved env event_id user cluster_id h w (err e) = (err e, w)
moved env event_id user cluster_id h w (ok db) =
    let h' : Host = record h { cluster_id = cluster_id } in
    (
      ok h',
      record w {
        db =
            record_diff event_id env.now user "host.move" (host_target h')
              (changes (entry "cluster" (cluster_ref w.db h.cluster_id) end)
                (entry "cluster" (cluster_ref db cluster_id) end))
              db;
      },
    )

-- The part of update_host about the cluster, and the row as it is then.
unfoldable pub move_part :
    {S : Type 0} → Env → ℕ → User → VisibleScope → Option ℕ → Host → Action S Host
unfolding move_host cluster_ref changes record_diff
move_part env event_id user scope cluster_id h w =
    if not (may_place scope cluster_id)
    then (err (api forbidden), w)
    else moved env event_id user cluster_id h w (move_host h cluster_id w.db)

abbrev pub maybe_move :
    {S : Type 0} → Env → ℕ → User → VisibleScope → Option (Option ℕ) → Host → Action S Host
maybe_move env event_id user scope none h = pure h
maybe_move env event_id user scope (some cluster_id) h =
    move_part env event_id user scope cluster_id h

-- `body.name.strip()`, if it was given
abbrev stripped_or : Option String → String → String
stripped_or none old = old
stripped_or (some s) old = strip s

abbrev stripped_or_same : Option String → Option String → Option String
stripped_or_same none old = old
stripped_or_same (some s) old = some (strip s)

-- update_host: the id of the event of a move and that of the update; a cluster is given or not, and may be
-- null.
unfoldable pub update_host :
    {S : Type 0}
    → Env
    → ℕ
    → ℕ
    → User
    → VisibleScope
    → ℕ
    → Option (Option ℕ)
    → Option String
    → Option String
    → Action S Host
unfolding get_visible_host move_part strip changes record_diff
update_host env move_id update_id user scope host_id cluster_id name fqdn = do
  loaded ← get_visible_host scope host_id
  h ← maybe_move env move_id user scope cluster_id loaded
  let h' : Host = record h { name = stripped_or name h.name; fqdn = stripped_or_same fqdn h.fqdn }
  modify_db (put_host h.id (λ r. record r { name = h'.name; fqdn = h'.fqdn }))
  modify_db (
      record_diff update_id env.now user "host.update" (host_target h') (
        changes (entry "name" (str h.name) (entry "fqdn" (text_json h.fqdn) end))
          (entry "name" (str h'.name) (entry "fqdn" (text_json h'.fqdn) end))))
  pure h'

-- A task of the host that has not ended.
abbrev pub is_open_on : ℕ → Task → Bool
is_open_on host_id t = t.host_id == host_id && not (is_terminal t.status)

-- The database part of remove_host: the event of the removal, the end of the events of the host's open
-- tasks, and the delete of the row with all that hangs on it.
unfoldable pub remove_rows : Env → ℕ → User → Host → Db → Result Db
unfolding vm_count_of record_event settle_task_events delete_host
remove_rows env event_id user h db =
    let db' =
      record_event event_id env.now (some user) "host.delete" (host_target h) none
        (entry "vmCount" (num (vm_count_of db h.id)) end) db in
    let open_tasks = map (λ t. t.id) (rows_where (is_open_on h.id) db'.tasks) in
    delete_host h (
      settle_task_events open_tasks Outcome.failed (some "Host removed before the task finished")
        db')

abbrev pub set_db : {S : Type 0} → Result Db → World S → Result (Unit {0}) × World S
set_db (ok db) w = (ok tt, record w { db = db })
set_db (err e) w = (err e, w)

-- What the user may remove.
unfoldable pub removable : VisibleScope → ℕ → Db → Result Host
removable scope host_id db = elim (get_host db host_id) [
  | none ↦ err (api not_found)
  | some h ↦
      if not (sees_host scope h.id)
      then err (api forbidden)
      else if not scope.all
      then err (api forbidden)
      else ok h
]

abbrev pub removed_from :
    {S : Type 0}
    → (broker : Broker) → Env
    → ℕ
    → User
    → World S
    → broker.State
    → Result Host
    → Result (Unit {0}) × World S × broker.State
removed_from broker env event_id user w s (err e) = (err e, w, s)
removed_from broker env event_id user w s (ok h) =
    let (r, w') = set_db (remove_rows env event_id user h w.db) w in
    (r, w', deprovision_host_messaging broker (ref_of h) h.agent_rmq_user s)

-- remove_host
unfoldable pub remove_host :
    {S : Type 0}
    → (broker : Broker) → Env
    → ℕ
    → User
    → VisibleScope
    → ℕ
    → World S
    → broker.State
    → Result (Unit {0}) × World S × broker.State
unfolding removable remove_rows deprovision_host_messaging
remove_host broker env event_id user scope host_id w s =
    removed_from broker env event_id user w s (removable scope host_id w.db)

abbrev added :
    {S B : Type 0} → Env → ℕ → User → World S → Result (Host × Db) × B → Result Host × World S × B
added env event_id user w (err e, s) = (err e, w, s)
added env event_id user w (ok (h, db), s) = (
  ok h,
  record w {
    db =
        record_event event_id env.now (some user) "host.create" (host_target h) none
          (entry "hypervisor" (str h.hypervisor) end) db;
  },
  s,
)

-- add_host: the ids and the password are those that it would draw.
unfoldable pub add_host :
    {S : Type 0}
    → (broker : Broker) → Env
    → ℕ
    → ℕ
    → ℕ
    → String
    → String
    → User
    → VisibleScope
    → String
    → Option ℕ
    → String
    → World S
    → broker.State
    → Result Host × World S × broker.State
unfolding create_host record_event
add_host broker env max_length id event_id short_id drawn user scope name cluster_id hypervisor w
      s =
    if not (may_place scope cluster_id)
    then (err (api forbidden), w, s)
    else added env event_id user w
        (create_host broker max_length id short_id drawn name cluster_id hypervisor w.db s)

-- READ_ONLY_HOST_ACTIONS
abbrev pub read_only_host_actions : List String
read_only_host_actions = "refresh_hardware" ∷ ("refresh_inventory" ∷ [])

module _ {S : Type 0} where
  abbrev audit_host : Env → ℕ → User → String → Host → Dict → Task → Action S Task
  unfolding record_event
  audit_host env event_id user name h details t w = (
    ok t,
    record w {
      db = record_event event_id env.now (some user) name (host_target h) (some t.id) details w.db;
    },
  )

  -- update_host_agent
  unfoldable pub update_host_agent :
      (AgentBinary → Option String)
      → Env
      → ℕ
      → ℕ
      → User
      → VisibleScope
      → ℕ
      → Option ℕ
      → Action S Task
  unfolding get_visible_host resolve_upgrade_binary request_agent_upgrade record_event
  update_host_agent url env task_id event_id user scope host_id binary_id = do
    h ← get_visible_host scope host_id
    raise_when (not scope.all) forbidden
    binary ← resolve_upgrade_binary h binary_id
    task ← request_agent_upgrade url env task_id h binary user.email
    audit_host env event_id user "host.update_agent" h (entry "version" (str binary.version) end)
        task

  -- host_action: `name` is "host." and the action's name.
  unfoldable pub host_action :
      Env → ℕ → ℕ → User → VisibleScope → ℕ → String → String → Action S Task
  unfolding get_visible_host request_host_action record_event
  host_action env task_id event_id user scope host_id action name = do
    h ← get_visible_host scope host_id
    raise_when (str_in action disruptive_host_actions && not scope.all) forbidden
    task ← request_host_action env task_id h action user.email
    let quiet = str_in action read_only_host_actions
    if quiet then pure task else audit_host env event_id user name h end task
