-- ===== src/Hosts/Actions/Exclusive.antt =====
-- One disruptive action at a time on a host.
use open_v_center_backend.Prelude.{
  ℕ, ◌≤◌, String, ◌≡◌, [], ◌∷◌, ◌++◌, arith, count, count-append, count_of_find, str_in, ◌==◌,
  ==_iff, ◌&&◌,
}
use open_v_center_backend.Models.{Db}
use open_v_center_backend.Models.Topology.{Host}
use open_v_center_backend.Errors.{ok}
use open_v_center_backend.World.{World, Env, publish_request}
use open_v_center_backend.Hosts.Actions.{
  is_disrupting, disruptive_host_actions, check_disruption, host_task, request_host_action,
}

-- No host has two disruptive tasks that have not ended.
abbrev pub Exclusive : Db → Type 0
Exclusive db = (host_id : ℕ) → count (is_disrupting host_id) db.tasks ≤ 1

is_disrupting_new :
    (env : Env) (task_id : ℕ) (h : Host) (action by : String) (host_id : ℕ)
    → is_disrupting host_id (host_task env task_id h action by)
      ≡ (h.id == host_id && str_in action disruptive_host_actions)
unfolding is_disrupting
is_disrupting_new env task_id h action by host_id = ground arith

-- What the check lets through can be added.
count-check :
    (env : Env) (task_id : ℕ) (h : Host) (action by : String) (db : Db) (host_id : ℕ)
    → check_disruption h action db ≡ ok tt
    → count (is_disrupting host_id) db.tasks ≤ 1
    → count (is_disrupting host_id) (db.tasks ++ host_task env task_id h action by ∷ []) ≤ 1
unfolding check_disruption
count-check env task_id h action by db host_id passed le = ground (
  arith,
  ==_iff h.id host_id,
  is_disrupting_new env task_id h action by host_id,
  count-append (is_disrupting host_id) db.tasks (host_task env task_id h action by),
  count_of_find (is_disrupting host_id) db.tasks,
)

-- Where no host has two disruptive tasks that have not ended, a host action, accepted or refused,
-- leaves no host with two.
pub request_host_action-Exclusive :
    {S : Type 0} (env : Env) (task_id : ℕ) (h : Host) (action by : String) (w : World S)
    → Exclusive w.db
    → Exclusive (request_host_action env task_id h action by w).1.db
unfolding request_host_action publish_request
request_host_action-Exclusive env task_id h action by w ex host_id =
    ground (arith, ex host_id, count-check env task_id h action by w.db host_id)
