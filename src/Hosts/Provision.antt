-- ===== src/Hosts/Provision.antt =====
-- app/services/hosts.py without the texts that it writes, and the host check of app/preflight.py: the
-- queues, the account and the rights of each host on the broker.
pub mod Ready
pub mod Checked
use open_v_center_backend.Prelude.{
  ℕ, String, ◌≡◌, Bool, true, false, not, ◌&&◌, Option, none, some, List, [], ◌∷◌, ◌++◌, ◌==◌, map,
  ◌||◌, str_eq, or_text, if◌then◌else◌, is_some,
}
use Prim.Native.String.{◌++◌ as str_append}
use open_v_center_backend.Text.{Text, text_eq}
use open_v_center_backend.Text.Words.{strip}
use open_v_center_backend.Vms.Paths.{codes}
use open_v_center_backend.Models.{Db, put_host}
use open_v_center_backend.Models.Topology.{Host, Cluster}
use open_v_center_backend.Errors.{
  Result, ok, err, broker_failed, api_error, invalid, raise_if, ◌>>=◌,
}
use open_v_center_backend.Organization.{require_cluster, other_hypervisor}
use open_v_center_backend.Hosts.Messaging.{QueueKind, all_kinds, queue_name, queue_args}
use open_v_center_backend.Hosts.Broker.{Broker, Rights}

abbrev pub ref_of : Host → Text
ref_of h = codes h.short_id

-- new_agent_rmq_user
abbrev pub new_agent_rmq_user : String → String
new_agent_rmq_user host_ref = str_append "agent-" host_ref

abbrev pub is_missing : Option String → Bool
is_missing none = true
is_missing (some s) = str_eq s ""

abbrev filled : Option String → String → Option String
filled o new = if is_missing o then some new else o

-- ensure_host_agent_credentials, with the password that it would draw
unfoldable pub ensure_host_agent_credentials : String → Host → Host
ensure_host_agent_credentials drawn h = record h {
  agent_rmq_user = filled h.agent_rmq_user (new_agent_rmq_user h.short_id);
  agent_rmq_password = filled h.agent_rmq_password drawn;
}

-- Its result: whether the row changed.
unfoldable pub credentials_changed : Host → Bool
credentials_changed h = is_missing h.agent_rmq_user || is_missing h.agent_rmq_password

abbrev pub text_of : Option String → Text
text_of none = []
text_of (some s) = codes s

abbrev pub own_rights : Host → Rights
own_rights h = record { own = ref_of h; write = ref_of h }

-- A call on the broker, and what follows where it did not raise.
abbrev pub outcome : {S : Type 0} → Bool × S → Result (Unit {0}) × S
outcome (true, s) = (ok tt, s)
outcome (false, s) = (err broker_failed, s)

abbrev pub and_then : {S A : Type 0} → Result (Unit {0}) × S → (S → Result A × S) → Result A × S
and_then (ok u, s) f = f s
and_then (err e, s) f = (err e, s)

-- The hosts with their credentials filled in, where the setting asks for it.
abbrev pub managed : Bool → (ℕ → String) → List Host → List Host
managed true drawn hs = map (λ h. ensure_host_agent_credentials (drawn h.id) h) hs
managed false drawn hs = hs

abbrev pub new_host : ℕ → String → String → Option ℕ → String → Host
new_host id short_id name cluster_id hypervisor = record {
  id = id;
  short_id = short_id;
  cluster_id = cluster_id;
  name = name;
  fqdn = none;
  ip_address = none;
  hypervisor = hypervisor;
  agent_rmq_user = none;
  agent_rmq_password = none;
  agent_version = none;
  agent_last_seen = none;
  agent_refresh_vm = none;
  agent_refresh_host = none;
  hardware = none;
}

-- What create_host refuses before it makes a row.
unfoldable pub check_cluster : Option ℕ → String → Db → Result (Unit {0})
check_cluster cluster_id hypervisor db = require_cluster cluster_id db >>= λ c.
    raise_if (other_hypervisor c hypervisor) (api_error invalid 400)

abbrev pub add_host : Host → Db → Db
add_host h db = record db { hosts = db.hosts ++ h ∷ [] }

module _ (broker : Broker) where
  open broker use {
    State, has_queue, rights, declare, queue_delete, upsert_user, set_permissions, delete_user,
  }

  unfoldable pub declare_kinds : ℕ → Text → List QueueKind → State → Result (Unit {0}) × State
  declare_kinds max_length host_ref [] s = (ok tt, s)
  declare_kinds max_length host_ref (k ∷ ks) s =
      and_then (outcome (declare (queue_name host_ref k) (queue_args max_length k) s))
        (λ s'. declare_kinds max_length host_ref ks s')

  -- declare_host_queues, as provision_host_queues calls it
  unfoldable pub declare_host_queues : ℕ → Text → State → Result (Unit {0}) × State
  unfolding declare_kinds
  declare_host_queues max_length host_ref s = declare_kinds max_length host_ref all_kinds s

  -- ensure_host_agent_user, on a row that has its credentials
  unfoldable pub ensure_host_agent_user : Host → State → Result (Unit {0}) × State
  ensure_host_agent_user h s =
      and_then (outcome (upsert_user (text_of h.agent_rmq_user) (text_of h.agent_rmq_password) s))
        (λ s'. outcome (set_permissions (text_of h.agent_rmq_user) (own_rights h) s'))

  -- The loop of ensure_all_host_queues and of the check.
  unfoldable pub declare_all : ℕ → List Host → State → Result (Unit {0}) × State
  unfolding declare_host_queues
  declare_all max_length [] s = (ok tt, s)
  declare_all max_length (h ∷ hs) s =
      and_then (declare_host_queues max_length (ref_of h) s) (λ s'. declare_all max_length hs s')

  -- `queue_name(h.short_id, kind) in present`, for all kinds of all hosts
  unfoldable pub has_kinds : State → Text → List QueueKind → Bool
  has_kinds s host_ref [] = true
  has_kinds s host_ref (k ∷ ks) =
      if has_queue s (queue_name host_ref k) then has_kinds s host_ref ks else false

  unfoldable pub none_missing : State → List Host → Bool
  unfolding has_kinds
  none_missing s [] = true
  none_missing s (h ∷ hs) = if has_kinds s (ref_of h) all_kinds then none_missing s hs else false

  -- A PreflightError where it is false.
  abbrev pub check : Bool → State → Result (Unit {0}) × State
  check true s = (ok tt, s)
  check false s = (err broker_failed, s)

  -- The loop over the hosts with their credentials.
  unfoldable pub check_users : List Host → State → Result (Unit {0}) × State
  unfolding ensure_host_agent_user
  check_users [] s = (ok tt, s)
  check_users (h ∷ hs) s = and_then (ensure_host_agent_user h s) (λ s'.
      and_then (check (is_some (rights s' (text_of h.agent_rmq_user))) s')
        (λ s''. check_users hs s''))

  abbrev pub manage_users : Bool → List Host → State → Result (Unit {0}) × State
  manage_users true hs s = check_users hs s
  manage_users false hs s = (ok tt, s)

  -- _check_hosts_messaging, on the hosts of the database; the rows come back with what it commits. Reads
  -- of the broker are taken to succeed.
  unfoldable pub check_hosts_messaging :
      ℕ → Bool → (ℕ → String) → List Host → State → Result (Unit {0}) × State
  unfolding declare_all none_missing check_users ensure_host_agent_credentials
  check_hosts_messaging max_length manage drawn hs s = and_then (declare_all max_length hs s) (λ s'.
      and_then (check (none_missing s' hs) s')
        (λ s''. manage_users manage (managed manage drawn hs) s''))

  -- The calls for a new row.
  unfoldable pub provision : ℕ → Host → Db → State → Result (Host × Db) × State
  unfolding declare_host_queues ensure_host_agent_user
  provision max_length h db s =
      and_then (declare_host_queues max_length (ref_of h) s)
        (λ s'. and_then (ensure_host_agent_user h s') (λ s''. (ok (h, add_host h db), s'')))

  abbrev pub provision_checked :
      ℕ → Host → Db → State → Result (Unit {0}) → Result (Host × Db) × State
  provision_checked max_length h db s (ok u) = provision max_length h db s
  provision_checked max_length h db s (err e) = (err e, s)

  -- create_host: the id, the short id and the password are those that it would draw.
  unfoldable pub create_host :
      ℕ → ℕ → String → String → String → Option ℕ → String → Db → State → Result (Host × Db) × State
  unfolding check_cluster provision ensure_host_agent_credentials
  create_host max_length id short_id drawn name cluster_id hypervisor db s =
      provision_checked max_length
        (ensure_host_agent_credentials drawn
          (new_host id short_id (strip name) cluster_id hypervisor))
        db s (check_cluster cluster_id hypervisor db)

  abbrev go_on : (State → State) → Bool × State → State
  go_on f (true, s) = f s
  go_on f (false, s) = s

  -- delete_host_queues in deprovision_host_messaging: the first call that fails ends it, and is logged.
  unfoldable pub delete_kinds : Text → List QueueKind → State → State
  delete_kinds host_ref [] s = s
  delete_kinds host_ref (k ∷ ks) s =
      go_on (λ s'. delete_kinds host_ref ks s') (queue_delete (queue_name host_ref k) s)

  -- deprovision_host_messaging: nothing that fails is raised.
  unfoldable pub deprovision_host_messaging : Text → Option String → State → State
  unfolding delete_kinds
  deprovision_host_messaging host_ref agent_rmq_user s =
      let s' = delete_kinds host_ref all_kinds s in
      if is_missing agent_rmq_user then s' else (delete_user (text_of agent_rmq_user) s').1
