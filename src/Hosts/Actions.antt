-- ===== src/Hosts/Actions.antt =====
-- app/services/host_actions.py: node maintenance, a reboot, and forced refreshes of a host.
pub mod Exclusive
use open_v_center_backend.Prelude.{
  ℕ, String, Bool, true, false, not, ◌&&◌, ◌||◌, Option, none, some, List, [], ◌∷◌, ◌++◌, ◌==◌,
  find, is_some, str_in, if◌then◌else◌,
}
use open_v_center_backend.Json.{Json, str, obj, Dict, end, get, put, dict_or_empty, truthy, as_dict}
use open_v_center_backend.Models.{Db, get_host, put_host}
use open_v_center_backend.Models.Topology.{Host}
use open_v_center_backend.Models.TaskRows.{
  Task, TaskStatus, queued, running, succeeded, TargetType, host, AgentResponse, is_terminal,
}
use open_v_center_backend.Errors.{
  Error, api, ApiError, Details, running_task, Result, ok, err, api_error, unknown_action,
  host_offline, not_clustered, host_action_in_progress,
}
use open_v_center_backend.World.{
  World, Env, Action, pure, modify_db, raise_when, publish_request, ◌>>=◌, ◌>>◌, lift, gets,
}
use open_v_center_backend.Hosts.Status.{agent_connected, host_is_clustered}
use open_v_center_backend.Vms.Queue.{new_task, new_request}

-- CLUSTER_NODE_ACTIONS, DISRUPTIVE_HOST_ACTIONS and HOST_ACTIONS
abbrev pub cluster_node_actions : List String
cluster_node_actions = "suspend" ∷ "suspend_drain" ∷ "resume" ∷ "resume_fallback" ∷ []

abbrev pub disruptive_host_actions : List String
disruptive_host_actions = "restart" ∷ cluster_node_actions

abbrev pub host_actions : List String
host_actions = "refresh_hardware" ∷ "refresh_inventory" ∷ disruptive_host_actions

abbrev is_host : TargetType → Bool
is_host host = true
is_host _ = false

-- The query for a disruptive task of the host that has not ended: `status in ("queued", "running")`.
unfoldable pub is_disrupting : ℕ → Task → Bool
is_disrupting host_id t =
    t.host_id == host_id
    && is_host t.target_type
    && str_in t.kind disruptive_host_actions
    && not (is_terminal t.status)

abbrev pub in_progress : Task → ApiError
in_progress t = record {
  code = host_action_in_progress;
  status_code = 409;
  details = running_task t.id;
}

-- The search for a running disruptive action, made for disruptive actions only.
unfoldable pub check_disruption : Host → String → Db → Result (Unit {0})
check_disruption h action db =
    if str_in action disruptive_host_actions
    then elim (find (is_disrupting h.id) db.tasks) [
      | none ↦ ok tt
      | some t ↦ err (api (in_progress t))
    ]
    else ok tt

abbrev pub host_task : Env → ℕ → Host → String → String → Task
host_task env task_id h action requested_by =
    record (new_task env task_id action host h.id h.name h.id requested_by) {
      request_payload = some (new_request env task_id action end requested_by);
    }

unfoldable pub request_host_action : {S : Type 0} → Env → ℕ → Host → String → String → Action S Task
unfolding check_disruption
request_host_action env task_id h action requested_by =
    let task = host_task env task_id h action requested_by in
    do
      raise_when (not (str_in action host_actions)) (api_error unknown_action 404)
      raise_when (not (agent_connected env.settings env.now h)) (api_error host_offline 409)
      raise_when (str_in action cluster_node_actions && not (host_is_clustered h))
          (api_error not_clustered 409)
      db ← gets (λ w. w.db)
      lift (check_disruption h action db)
      modify_db (λ db. record db { tasks = db.tasks ++ task ∷ [] })
      publish_request env h.short_id (new_request env task_id action end requested_by)
      pure task

abbrev is_succeeded : TaskStatus → Bool
is_succeeded succeeded = true
is_succeeded _ = false

-- `result.get("status") if isinstance(result, dict) else None`
abbrev reported_state : Option Json → Option Json
reported_state result = elim (as_dict result) [ none ↦ none | some d ↦ get "status" d ]

abbrev with_node_state : Json → Host → Host
with_node_state st h = record h {
  hardware = elim h.hardware [
    | none ↦ none
    | some end ↦ some end
    | some (Dict.entry k v d) ↦
        let hw = Dict.entry k v d in
        some (put "cluster" (obj (put "state" st (dict_or_empty (get "cluster" hw)))) hw)
  ];
}

-- apply_host_action_response: the reported node state goes into the host's hardware. It is a text
-- by the agent's contract; `str` of another value is not modelled and leaves the value as it is.
unfoldable pub apply_host_action_response : Task → AgentResponse → Db → Db
apply_host_action_response task resp db =
    if str_in task.kind cluster_node_actions && is_succeeded task.status
    then elim (reported_state resp.result) [
      | none ↦ db
      | some st ↦ if truthy st then put_host task.target_id (with_node_state st) db else db
    ]
    else db
