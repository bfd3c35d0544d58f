-- ===== src/Agents/Upgrade.antt =====
-- app/services/agent_upgrade.py, and the rollout of app/api/routes/agent_binaries.py. The hosts of a
-- rollout come in the order of the query; the ids that new_id() draws are arguments, by host.
use open_v_center_backend.Prelude.{
  ℕ, String, Bool, true, false, not, ◌&&◌, ◌||◌, Option, none, some, List, [], ◌∷◌, ◌++◌, ◌==◌,
  find, rows_where, any, str_eq, if◌then◌else◌,
}
use open_v_center_backend.Json.{str, Dict, end, entry, bool}
use open_v_center_backend.Models.{Db}
use open_v_center_backend.Models.Records.{AgentBinary, User}
use open_v_center_backend.Models.Topology.{Host}
use open_v_center_backend.Models.TaskRows.{Task, host, is_terminal}
use open_v_center_backend.Errors.{
  Error, api, ApiError, running_task, Result, ok, err, api_error, not_found, host_offline, invalid,
  or_raise, no_active_agent_binary, agent_already_current, agent_upgrade_in_progress,
  agent_download_unavailable, forbidden,
}
use open_v_center_backend.World.{
  World, Env, Action, pure, modify_db, raise_when, publish_request, ◌>>=◌, ◌>>◌, lift, gets,
}
use open_v_center_backend.Hosts.Status.{agent_connected}
use open_v_center_backend.Vms.Queue.{new_task, new_request}
use open_v_center_backend.Audit.{record_event, host_target}
use open_v_center_backend.Agents.Binaries.{get_binary}

-- active_agent_binary
abbrev pub active_agent_binary : Db → String → Option AgentBinary
active_agent_binary db hypervisor =
    find (λ b. str_eq b.hypervisor hypervisor && b.is_active) db.agent_binaries

abbrev pub chosen_binary : Db → Host → Option ℕ → Result AgentBinary
chosen_binary db h none =
    or_raise (active_agent_binary db h.hypervisor) (api (api_error no_active_agent_binary 409))
chosen_binary db h (some i) = or_raise (get_binary db i) (api not_found)

-- resolve_upgrade_binary
unfoldable pub resolve_upgrade_binary : {S : Type 0} → Host → Option ℕ → Action S AgentBinary
resolve_upgrade_binary h i = do
  binary ← gets (λ w. chosen_binary w.db h i) >>= lift
  raise_when (not (str_eq binary.hypervisor h.hypervisor)) (api_error invalid 400)
  pure binary

-- A host_update_agent task of the host that has not ended.
unfoldable pub is_upgrading : ℕ → Task → Bool
is_upgrading host_id t =
    t.host_id == host_id && (str_eq t.kind "host_update_agent" && not (is_terminal t.status))

abbrev upgrade_in_progress : Task → ApiError
upgrade_in_progress t = record {
  code = agent_upgrade_in_progress;
  status_code = 409;
  details = running_task t.id;
}

unfoldable pub check_upgrading : Host → Db → Result (Unit {0})
check_upgrading h db = elim (find (is_upgrading h.id) db.tasks) [
  | none ↦ ok tt
  | some t ↦ err (api (upgrade_in_progress t))
]

abbrev upgrade_params : AgentBinary → String → Dict
upgrade_params b url =
    entry "download_url" (str url)
      (entry "checksum_sha256" (str b.checksum_sha256) (entry "version" (str b.version) end))

abbrev pub upgrade_task : Env → ℕ → Host → AgentBinary → String → String → Task
upgrade_task env task_id h b url requested_by =
    record (new_task env task_id "host_update_agent" host h.id h.name h.id requested_by) {
      request_payload =
          some (new_request env task_id "host_update_agent" (upgrade_params b url) requested_by);
    }

abbrev runs_version : Host → AgentBinary → Bool
runs_version h b = elim h.agent_version [ none ↦ false | some v ↦ str_eq b.version v ]

abbrev nonempty_text : Option String → Option String
nonempty_text none = none
nonempty_text (some s) = if str_eq s "" then none else some s

-- request_agent_upgrade: `url` is the store's download URL of a build.
unfoldable pub request_agent_upgrade :
    {S : Type 0}
    → (AgentBinary → Option String)
    → Env
    → ℕ
    → Host
    → AgentBinary
    → String
    → Action S Task
unfolding check_upgrading
request_agent_upgrade url env task_id h b requested_by = do
  raise_when (not (agent_connected env.settings env.now h)) (api_error host_offline 409)
  raise_when (runs_version h b) (api_error agent_already_current 409)
  db ← gets (λ w. w.db)
  lift (check_upgrading h db)
  link ← lift (or_raise (nonempty_text (url b)) (api (api_error agent_download_unavailable 409)))
  modify_db
      (λ db. record db { tasks = db.tasks ++ upgrade_task env task_id h b link requested_by ∷ [] })
  publish_request env h.short_id
      (new_request env task_id "host_update_agent" (upgrade_params b link) requested_by)
  pure (upgrade_task env task_id h b link requested_by)

-- One host of a rollout: its task is added to the result, or the host is skipped. What is no ApiError
-- ends the rollout.
abbrev rollout_event : Env → ℕ → User → Host → Task → AgentBinary → Db → Db
unfolding record_event
rollout_event env event_id user h t b db =
    record_event event_id env.now (some user) "host.update_agent" (host_target h) (some t.id)
      (entry "version" (str b.version) (entry "rollout" (bool true) end)) db

abbrev count_in :
    {S : Type 0}
    → Env
    → ℕ
    → User
    → Host
    → AgentBinary
    → List Task
    → Result Task × World S
    → Result (List Task) × World S
unfolding record_event
count_in env event_id user h b ts (ok t, w) =
    (ok (ts ++ t ∷ []), record w { db = rollout_event env event_id user h t b w.db })
count_in env event_id user h b ts (err (api e), w) = (ok ts, w)
count_in env event_id user h b ts (err Error.assertion, w) = (err Error.assertion, w)
count_in env event_id user h b ts (err Error.publish_failed, w) = (err Error.publish_failed, w)
count_in env event_id user h b ts (err Error.broker_failed, w) = (err Error.broker_failed, w)

unfoldable pub rollout_host :
    {S : Type 0}
    → (AgentBinary → Option String)
    → Env
    → (ℕ → ℕ)
    → (ℕ → ℕ)
    → User
    → AgentBinary
    → Host
    → List Task
    → Action S (List Task)
unfolding request_agent_upgrade record_event
rollout_host url env task_id event_id user b h ts w =
    if not (agent_connected env.settings env.now h) || runs_version h b
    then (ok ts, w)
    else count_in env (event_id h.id) user h b ts
        (request_agent_upgrade url env (task_id h.id) h b user.email w)

unfoldable pub rollout_hosts :
    {S : Type 0}
    → (AgentBinary → Option String)
    → Env
    → (ℕ → ℕ)
    → (ℕ → ℕ)
    → User
    → AgentBinary
    → List Host
    → List Task
    → Action S (List Task)
unfolding rollout_host
rollout_hosts url env task_id event_id user b [] ts = pure ts
rollout_hosts url env task_id event_id user b (h ∷ hs) ts =
    rollout_host url env task_id event_id user b h ts >>= λ more.
    rollout_hosts url env task_id event_id user b hs more

abbrev pub is_targeted : AgentBinary → List ℕ → Host → Bool
is_targeted b [] h = str_eq h.hypervisor b.hypervisor
is_targeted b (i ∷ is) h = str_eq h.hypervisor b.hypervisor && any (λ j. j == h.id) (i ∷ is)

-- rollout_agent_binary
unfoldable pub rollout_agent_binary :
    {S : Type 0}
    → (AgentBinary → Option String)
    → Env
    → (ℕ → ℕ)
    → (ℕ → ℕ)
    → User
    → Bool
    → ℕ
    → List ℕ
    → Action S (List Task)
unfolding rollout_hosts
rollout_agent_binary url env task_id event_id user admin i host_ids = do
  raise_when (not admin) forbidden
  b ← gets (λ w. get_binary w.db i) >>= λ o. lift (or_raise o (api not_found))
  hosts ← gets (λ w. rows_where (is_targeted b host_ids) w.db.hosts)
  rollout_hosts url env task_id event_id user b hosts []
