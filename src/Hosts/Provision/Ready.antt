-- ===== src/Hosts/Provision/Ready.antt =====
-- When a host's agent can work: its queues, its account and its rights; and what the calls of the
-- provisioning do to them.
use mathlib.Core.Path.{subst}
use open_v_center_backend.Prelude.{
  ℕ, ◌≡◌, refl, ap, ◌∙◌, Bool, true, false, some, List, [], ◌∷◌, arith, All, if◌then◌else◌,
}
use open_v_center_backend.Text.{Text, text_eq}
use open_v_center_backend.Text.Laws.{text_eq_refl}
use open_v_center_backend.Models.Topology.{Host}
use open_v_center_backend.Errors.{Result, ok, err}
use open_v_center_backend.Hosts.Messaging.{
  QueueKind, request, response, agent_status, vm_inventory, host_inventory, template_inventory,
  iso_inventory, vm_metrics, host_metrics, all_kinds, queue_name, queue_args, QueueArgs,
}
use open_v_center_backend.Hosts.Broker.{Broker, Rights}
use open_v_center_backend.Hosts.Provision.{
  ref_of, text_of, own_rights, outcome, and_then, declare_kinds, declare_host_queues,
  ensure_host_agent_user, declare_all,
}

-- The account of a host's agent.
abbrev pub user_of : Host → Text
user_of h = text_of h.agent_rmq_user

-- The steps of a sequence that raised nothing.
pub and_then_ok :
    {S A : Type 0} (r : Result (Unit {0}) × S) (f : S → Result A × S) (a : A) (t : S)
    → and_then r f ≡ (ok a, t)
    → (u : S) × (r ≡ (ok tt, u)) × (f u ≡ (ok a, t))
and_then_ok (ok u, s) f a t h = (s, refl, h)
and_then_ok (err e, s) f a t h = cc

pub outcome_ok : {S : Type 0} (r : Bool × S) (t : S) → outcome r ≡ (ok tt, t) → r ≡ (true, t)
outcome_ok (true, s) t h = ap (λ x. (true, x)) (ap (λ x. x.1) h)
outcome_ok (false, s) t h = cc

module _ (broker : Broker) where
  open broker use {
    State, has_queue, password, rights, declare, upsert_user, set_permissions, queue-declare,
    accounts-declare, password-upsert, others-upsert, rights-set, others-set,
  }

  abbrev pub HasQueues : State → Host → Type 0
  HasQueues s h = (k : QueueKind) → has_queue s (queue_name (ref_of h) k) ≡ true

  abbrev pub HasAccount : State → Host → Type 0
  HasAccount s h =
      (password s (user_of h) ≡ some (text_of h.agent_rmq_password))
      × (rights s (user_of h) ≡ some (own_rights h))

  abbrev pub IsReady : State → Host → Type 0
  IsReady s h = HasQueues s h × HasAccount s h

  -- Queues are only added, and accounts stay as they are.
  pub record Declares (s t : State) : Type 0 where
    pub grown : (m : Text) → has_queue s m ≡ true → has_queue t m ≡ true
    pub passwords : (m : Text) → password t m ≡ password s m
    pub permissions : (m : Text) → rights t m ≡ rights s m

  Declares-refl : (s : State) → Declares s s
  Declares-refl s = record { grown = λ m h. h; passwords = λ m. refl; permissions = λ m. refl }

  Declares-trans : (s t u : State) → Declares s t → Declares t u → Declares s u
  Declares-trans s t u d e = record {
    grown = λ m h. e.grown m (d.grown m h);
    passwords = λ m. e.passwords m ∙ d.passwords m;
    permissions = λ m. e.permissions m ∙ d.permissions m;
  }

  declare-Declares : (n : Text) (a : QueueArgs) (s : State) → Declares s (declare n a s).1
  declare-Declares n a s = record {
    grown = λ m h. ground (arith, queue-declare n m a s, h);
    passwords = λ m. (accounts-declare n m a s).0;
    permissions = λ m. (accounts-declare n m a s).1;
  }

  declare_step :
      (n : Text) (a : QueueArgs) (s t : State)
      → declare n a s ≡ (true, t)
      → Declares s t × (has_queue t n ≡ true)
  declare_step n a s t e =
      let there : has_queue (declare n a s).1 n ≡ true =
        ground (arith, queue-declare n n a s, ap (λ x. x.0) e, text_eq_refl n) in
      (subst (λ x. Declares s x) (ap (λ x. x.1) e) (declare-Declares n a s), rw e at there)

  declare_kinds_lem :
      (max_length : ℕ) (host_ref : Text) (ks : List QueueKind) (s t : State)
      → declare_kinds broker max_length host_ref ks s ≡ (ok tt, t)
      → Declares s t × All (λ k. has_queue t (queue_name host_ref k) ≡ true) ks
  unfolding declare_kinds
  declare_kinds_lem max_length host_ref [] s t h =
      (subst (λ x. Declares s x) (ap (λ x. x.1) h) (Declares-refl s), tt)
  declare_kinds_lem max_length host_ref (k ∷ ks) s t h =
      let n = queue_name host_ref k in
      let (u, first, later) =
        and_then_ok (outcome (declare n (queue_args max_length k) s))
          (λ x. declare_kinds broker max_length host_ref ks x) tt t h in
      let (one, there) =
        declare_step n (queue_args max_length k) s u
          (outcome_ok (declare n (queue_args max_length k) s) u first) in
      let (more, rest) = declare_kinds_lem max_length host_ref ks u t later in
      (Declares-trans s u t one more, (more.grown n there, rest))

  every_queue :
      (s : State) (h : Host)
      → All (λ k. has_queue s (queue_name (ref_of h) k) ≡ true) all_kinds
      → HasQueues s h
  every_queue s h q request = q.0
  every_queue s h q response = q.1.0
  every_queue s h q agent_status = q.1.1.0
  every_queue s h q vm_inventory = q.1.1.1.0
  every_queue s h q host_inventory = q.1.1.1.1.0
  every_queue s h q template_inventory = q.1.1.1.1.1.0
  every_queue s h q iso_inventory = q.1.1.1.1.1.1.0
  every_queue s h q vm_metrics = q.1.1.1.1.1.1.1.0
  every_queue s h q host_metrics = q.1.1.1.1.1.1.1.1.0

  pub declare_host_queues_lem :
      (max_length : ℕ) (h : Host) (s t : State)
      → declare_host_queues broker max_length (ref_of h) s ≡ (ok tt, t)
      → Declares s t × HasQueues t h
  unfolding declare_host_queues
  declare_host_queues_lem max_length h s t e =
      let (grown, queues) = declare_kinds_lem max_length (ref_of h) all_kinds s t e in
      (grown, every_queue t h queues)

  pub declare_all_lem :
      (max_length : ℕ) (hs : List Host) (s t : State)
      → declare_all broker max_length hs s ≡ (ok tt, t)
      → Declares s t × All (HasQueues t) hs
  unfolding declare_all
  declare_all_lem max_length [] s t e =
      (subst (λ x. Declares s x) (ap (λ x. x.1) e) (Declares-refl s), tt)
  declare_all_lem max_length (h ∷ hs) s t e =
      let (u, first, later) =
        and_then_ok (declare_host_queues broker max_length (ref_of h) s)
          (λ x. declare_all broker max_length hs x) tt t e in
      let (one, queues) = declare_host_queues_lem max_length h s u first in
      let (more, rest) = declare_all_lem max_length hs u t later in
      (
        Declares-trans s u t one more,
        ((λ k. more.grown (queue_name (ref_of h) k) (queues k)), rest),
      )

  -- What a provisioned account leaves alone: queues, and other accounts.
  pub record Keeps (n : Text) (s t : State) : Type 0 where
    pub queues : (m : Text) → has_queue t m ≡ has_queue s m
    pub passwords : (m : Text) → text_eq n m ≡ false → password t m ≡ password s m
    pub permissions : (m : Text) → text_eq n m ≡ false → rights t m ≡ rights s m

  module _ (n p : Text) (r : Rights) (s u t : State) (first : upsert_user n p s ≡ (true, u))
      (second : set_permissions n r u ≡ (true, t)) where
    password_after : (m : Text) → password t m ≡ (if text_eq n m then some p else password s m)
    password_after m =
        let up = password-upsert n m p s in
        let set = others-set n m r u in (rw second at set).1 ∙ (rw first at up)

    rights_after : (m : Text) → rights t m ≡ (if text_eq n m then some r else rights s m)
    rights_after m =
        let up = others-upsert n m p s in
        let set = rights-set n m r u in
        let same : rights u m ≡ rights s m = (rw first at up).1 in (rw second at set) ∙ (rw same)

    queues_after : (m : Text) → has_queue t m ≡ has_queue s m
    queues_after m =
        let up = others-upsert n m p s in
        let set = others-set n m r u in (rw second at set).0 ∙ (rw first at up).0

    ensured : Keeps n s t × ((password t n ≡ some p) × (rights t n ≡ some r))
    ensured = (
      record {
        queues = queues_after;
        passwords = λ m other. password_after m ∙ (rw (other, if◌then◌else◌));
        permissions = λ m other. rights_after m ∙ (rw (other, if◌then◌else◌));
      },
      (
        password_after n ∙ rw (text_eq_refl n, if◌then◌else◌),
        rights_after n ∙ rw (text_eq_refl n, if◌then◌else◌),
      ),
    )

  pub ensure_host_agent_user_lem :
      (h : Host) (s t : State)
      → ensure_host_agent_user broker h s ≡ (ok tt, t)
      → Keeps (user_of h) s t × HasAccount t h
  unfolding ensure_host_agent_user
  ensure_host_agent_user_lem h s t e =
      let n = user_of h in
      let p = text_of h.agent_rmq_password in
      let (u, first, second) =
        and_then_ok (outcome (upsert_user n p s))
          (λ x. outcome (set_permissions n (own_rights h) x)) tt t e in
      ensured n p (own_rights h) s u t (outcome_ok (upsert_user n p s) u first)
        (outcome_ok (set_permissions n (own_rights h) u) t second)
