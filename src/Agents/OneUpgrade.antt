-- ===== src/Agents/OneUpgrade.antt =====
-- One upgrade at a time on a host.
use open_v_center_backend.Prelude.{
  ℕ, ◌≤◌, String, ◌≡◌, Bool, true, false, Option, List, [], ◌∷◌, ◌++◌, arith, count, count-append,
  count_of_find, ◌==◌, ==_iff, Option-cases, inl, inr, true, false, rows_where,
}
use open_v_center_backend.Models.{Db}
use open_v_center_backend.Models.Records.{AgentBinary, User}
use open_v_center_backend.Models.Topology.{Host}
use open_v_center_backend.Models.TaskRows.{Task}
use open_v_center_backend.Errors.{Result, ok, err, api, or_raise, not_found}
use open_v_center_backend.World.{World, Env, Action, continue, publish_request}
use open_v_center_backend.Audit.{record_event}
use open_v_center_backend.Agents.Upgrade.{
  is_upgrading, check_upgrading, upgrade_task, request_agent_upgrade, rollout_host, rollout_hosts,
  rollout_agent_binary, is_targeted,
}
use open_v_center_backend.Agents.Binaries.{get_binary}

-- No host has two upgrades that have not ended.
abbrev pub OneUpgrade : Db → Type 0
OneUpgrade db = (host_id : ℕ) → count (is_upgrading host_id) db.tasks ≤ 1

is_upgrading_new :
    (env : Env) (task_id : ℕ) (h : Host) (b : AgentBinary) (url by : String) (host_id : ℕ)
    → is_upgrading host_id (upgrade_task env task_id h b url by) ≡ (h.id == host_id)
unfolding is_upgrading
is_upgrading_new env task_id h b url by host_id = ground arith

count-check :
    (env : Env) (task_id : ℕ) (h : Host) (b : AgentBinary) (url by : String) (db : Db) (host_id : ℕ)
    → check_upgrading h db ≡ ok tt
    → count (is_upgrading host_id) db.tasks ≤ 1
    → count (is_upgrading host_id) (db.tasks ++ upgrade_task env task_id h b url by ∷ []) ≤ 1
unfolding check_upgrading
count-check env task_id h b url by db host_id passed le = ground (
  arith,
  ==_iff h.id host_id,
  is_upgrading_new env task_id h b url by host_id,
  count-append (is_upgrading host_id) db.tasks (upgrade_task env task_id h b url by),
  count_of_find (is_upgrading host_id) db.tasks,
)

One-continue :
    {S A B : Type 0} (r : Result A) (f : A → Action S B) (w : World S)
    → OneUpgrade w.db
    → ((a : A) → OneUpgrade (f a w).1.db)
    → OneUpgrade (continue r f w).1.db
One-continue (ok a) f w one next = next a
One-continue (err e) f w one next = one

module _ {S : Type 0} (url : AgentBinary → Option String) (env : Env) where
  request_agent_upgrade-OneUpgrade :
      (task_id : ℕ) (h : Host) (b : AgentBinary) (by : String) (w : World S)
      → OneUpgrade w.db
      → OneUpgrade (request_agent_upgrade url env task_id h b by w).1.db
  unfolding request_agent_upgrade publish_request
  request_agent_upgrade-OneUpgrade task_id h b by w one host_id = elim (Option-cases (url b)) [
    | inl e ↦ ground (arith, e, one host_id)
    | inr (u, e) ↦ ground (arith, e, one host_id, count-check env task_id h b u by w.db host_id)
  ]

  rollout_host-OneUpgrade :
      (task_id event_id : ℕ → ℕ) (user : User) (b : AgentBinary) (h : Host) (ts : List Task)
      (w : World S)
      → OneUpgrade w.db
      → OneUpgrade (rollout_host url env task_id event_id user b h ts w).1.db
  unfolding rollout_host record_event
  rollout_host-OneUpgrade task_id event_id user b h ts w one host_id = ground (
    arith,
    one host_id,
    request_agent_upgrade-OneUpgrade (task_id h.id) h b user.email w one host_id,
  )

  rollout_hosts-OneUpgrade :
      (task_id event_id : ℕ → ℕ) (user : User) (b : AgentBinary) (hs : List Host) (ts : List Task)
      (w : World S)
      → OneUpgrade w.db
      → OneUpgrade (rollout_hosts url env task_id event_id user b hs ts w).1.db
  unfolding rollout_hosts
  rollout_hosts-OneUpgrade task_id event_id user b [] ts w one = one
  rollout_hosts-OneUpgrade task_id event_id user b (h ∷ hs) ts w one =
      let (r, w') = rollout_host url env task_id event_id user b h ts w in
      One-continue r (λ more. rollout_hosts url env task_id event_id user b hs more) w'
        (rollout_host-OneUpgrade task_id event_id user b h ts w one)
        (λ more.
          rollout_hosts-OneUpgrade task_id event_id user b hs more w'
            (rollout_host-OneUpgrade task_id event_id user b h ts w one))

  -- Where no host has two agent upgrades that have not ended, a rollout, whether it ends in an error or
  -- not, leaves no host with two.
  pub rollout-OneUpgrade :
      (task_id event_id : ℕ → ℕ) (user : User) (admin : Bool) (i : ℕ) (host_ids : List ℕ)
      (w : World S)
      → OneUpgrade w.db
      → OneUpgrade (rollout_agent_binary url env task_id event_id user admin i host_ids w).1.db
  unfolding rollout_agent_binary
  rollout-OneUpgrade task_id event_id user admin i host_ids w one = start admin
    where
      start :
          (a : Bool)
          → OneUpgrade (rollout_agent_binary url env task_id event_id user a i host_ids w).1.db
      start false = one
      start true =
          One-continue (or_raise (get_binary w.db i) (api not_found))
            (λ (b : AgentBinary) (v : World S).
              rollout_hosts url env task_id event_id user b
                (rows_where (is_targeted b host_ids) v.db.hosts) [] v)
            w one
            (λ b.
              rollout_hosts-OneUpgrade task_id event_id user b
                (rows_where (is_targeted b host_ids) w.db.hosts) [] w one)
