-- ===== src/Hosts/Provision/Checked.antt =====
-- What the start-up check and the creation of a host leave on the broker.
use mathlib.Core.Path.{subst}
use open_v_center_backend.Prelude.{
  All, Bool, Bool-cases, List, Option, Option-cases, String, [], ap, arith, eq_iff, false, find,
  find_sound, inl, inr, is_some, none, refl, some, sym, true, ℕ, ◌++◌, ◌==◌, ◌∙◌, ◌∷◌, ◌≡◌, ◌⊎◌,
}
use open_v_center_backend.Text.{Text, text_eq}
use open_v_center_backend.Text.Words.{strip}
use open_v_center_backend.Models.{Db}
use open_v_center_backend.Models.Topology.{Host, Cluster}
use open_v_center_backend.Errors.{Result, ok, err}
use open_v_center_backend.Hosts.Messaging.{queue_name}
use open_v_center_backend.Hosts.Broker.{Broker}
use open_v_center_backend.Hosts.Provision.{
  ref_of, and_then, check, check_users, declare_all, declare_host_queues, ensure_host_agent_user,
  ensure_host_agent_credentials, none_missing, managed, check_hosts_messaging, provision, add_host,
  new_host, check_cluster, provision_checked, create_host,
}
use open_v_center_backend.Hosts.Provision.Ready.{
  user_of, and_then_ok, HasQueues, HasAccount, IsReady, Keeps, declare_all_lem,
  declare_host_queues_lem, ensure_host_agent_user_lem,
}

-- Accounts of their own for all hosts.
abbrev pub OwnUsers : List Host → Type 0
OwnUsers [] = Unit
OwnUsers (h ∷ hs) = All (λ g. text_eq (user_of g) (user_of h) ≡ false) hs × OwnUsers hs

row_of : Host → Result (Host × Db) → Host
row_of h (ok r) = r.0
row_of h (err e) = h

db_of : Db → Result (Host × Db) → Db
db_of db (ok r) = r.1
db_of db (err e) = db

-- A row of a table.
abbrev pub Among : Cluster → List Cluster → Type 0
Among c [] = ⊥
Among c (x ∷ cs) = (x ≡ c) ⊎ Among c cs

-- No cluster, or one of the table with this hypervisor.
abbrev pub MayJoin : Option ℕ → String → List Cluster → Type 0
MayJoin cluster_id hypervisor clusters =
    (cluster_id ≡ none)
    ⊎ ((c : Cluster) × (cluster_id ≡ some c.id) × Among c clusters × (c.hypervisor ≡ hypervisor))

find-Among :
    (i : ℕ) (cs : List Cluster) (c : Cluster) → find (λ r. r.id == i) cs ≡ some c → Among c cs
unfolding find
find-Among i [] c h = cc
find-Among i (x ∷ cs) c h = elim (Bool-cases (x.id == i)) [
  | inl e ↦ inl (ground (arith, e, h))
  | inr e ↦ inr (find-Among i cs c (ground (arith, e, h)))
]

check_cluster-MayJoin :
    (cluster_id : Option ℕ) (hypervisor : String) (db : Db)
    → check_cluster cluster_id hypervisor db ≡ ok tt
    → MayJoin cluster_id hypervisor db.clusters
unfolding check_cluster
check_cluster-MayJoin none hypervisor db h = inl refl
check_cluster-MayJoin (some i) hypervisor db h =
    elim (Option-cases (find (λ r. Cluster.id r == i) db.clusters)) [
      | inl missing ↦ cc (rw missing at h)
      | inr (c, there) ↦ inr (
        c,
        ground (arith, find_sound (λ r. Cluster.id r == i) db.clusters c there),
        find-Among i db.clusters c there,
        ground (arith, there, h, eq_iff c.hypervisor hypervisor),
      )
    ]

asked_for :
    (drawn : String) (id : ℕ) (short_id name : String) (cluster_id : Option ℕ) (hypervisor : String)
    (h : Host)
    → ensure_host_agent_credentials drawn (new_host id short_id (strip name) cluster_id hypervisor)
      ≡ h
    → (h.id ≡ id)
      × (h.short_id ≡ short_id)
      × (h.hypervisor ≡ hypervisor)
      × (h.cluster_id ≡ cluster_id)
unfolding ensure_host_agent_credentials
asked_for drawn id short_id name cluster_id hypervisor h e = (
  sym (ap (λ x. x.id) e),
  sym (ap (λ x. x.short_id) e),
  sym (ap (λ x. x.hypervisor) e),
  sym (ap (λ x. x.cluster_id) e),
)

module _ (broker : Broker) where
  open broker use {State, has_queue, password, rights}

  check_ok : (b : Bool) (s t : State) → check broker b s ≡ (ok tt, t) → s ≡ t
  check_ok true s t h = ap (λ x. x.1) h
  check_ok false s t h = cc

  Keeps-HasAccount :
      (n : Text) (s t : State) (h : Host)
      → Keeps broker n s t
      → text_eq n (user_of h) ≡ false
      → HasAccount broker s h
      → HasAccount broker t h
  Keeps-HasAccount n s t h k other a =
      (k.passwords (user_of h) other ∙ a.0, k.permissions (user_of h) other ∙ a.1)

  Keeps-HasQueues :
      (n : Text) (s t : State) (h : Host)
      → Keeps broker n s t
      → HasQueues broker s h
      → HasQueues broker t h
  Keeps-HasQueues n s t h k q kind = k.queues (queue_name (ref_of h) kind) ∙ q kind

  -- The loop over the accounts: those of the hosts are made, another one stays as it is.
  record Ensured (hs : List Host) (s t : State) : Type 0 where
    pub accounts : All (HasAccount broker t) hs
    pub queues : (m : Text) → has_queue t m ≡ has_queue s m
    pub kept :
        (h : Host)
        → All (λ g. text_eq (user_of g) (user_of h) ≡ false) hs
        → HasAccount broker s h
        → HasAccount broker t h

  check_users_lem :
      (hs : List Host) (s t : State)
      → OwnUsers hs
      → check_users broker hs s ≡ (ok tt, t)
      → Ensured hs s t
  unfolding check_users
  check_users_lem [] s t own e =
      subst (λ x. Ensured [] s x) (ap (λ x. x.1) e)
        (record { accounts = tt; queues = λ m. refl; kept = λ h o a. a })
  check_users_lem (h ∷ hs) s t own e =
      let after = λ (x : State).
        and_then (check broker (is_some (rights x (user_of h))) x) (λ y. check_users broker hs y) in
      let (u, first, later) = and_then_ok (ensure_host_agent_user broker h s) after tt t e in
      let (v, checked, rest) =
        and_then_ok (check broker (is_some (rights u (user_of h))) u) (λ y. check_users broker hs y)
          tt t later in
      let same = check_ok (is_some (rights u (user_of h))) u v checked in
      let (keeps, account) = ensure_host_agent_user_lem broker h s u first in
      let tail = check_users_lem hs u t own.1 (rw same rest) in
      record {
        accounts = (tail.kept h own.0 account, tail.accounts);
        queues = λ m. tail.queues m ∙ keeps.queues m;
        kept = λ g o a. tail.kept g o.1 (Keeps-HasAccount (user_of h) s u g keeps o.0 a);
      }

  -- Both halves of being ready, for all hosts.
  both-IsReady :
      (s t : State) (drawn : ℕ → String) (hs : List Host)
      → ((m : Text) → has_queue t m ≡ has_queue s m)
      → All (HasQueues broker s) hs
      → All (HasAccount broker t) (managed true drawn hs)
      → All (IsReady broker t) (managed true drawn hs)
  unfolding ensure_host_agent_credentials
  both-IsReady s t drawn [] same q a = tt
  both-IsReady s t drawn (h ∷ hs) same q a =
      (((λ k. same (queue_name (ref_of h) k) ∙ q.0 k), a.0), both-IsReady s t drawn hs same q.1 a.1)

  -- Where the start-up check of the hosts passes with its management of accounts, and the hosts' accounts
  -- have different names, every host has all its queues, and its account with its password and the rights
  -- of its own queues.
  pub check_hosts-IsReady :
      (max_length : ℕ) (drawn : ℕ → String) (hs : List Host) (s t : State)
      → OwnUsers (managed true drawn hs)
      → check_hosts_messaging broker max_length true drawn hs s ≡ (ok tt, t)
      → All (IsReady broker t) (managed true drawn hs)
  unfolding check_hosts_messaging
  check_hosts-IsReady max_length drawn hs s t own e =
      let rows = managed true drawn hs in
      let after = λ (x : State).
        and_then (check broker (none_missing broker x hs) x) (λ y. check_users broker rows y) in
      let (u, first, later) = and_then_ok (declare_all broker max_length hs s) after tt t e in
      let (v, checked, rest) =
        and_then_ok (check broker (none_missing broker u hs) u) (λ y. check_users broker rows y) tt
          t later in
      let same = check_ok (none_missing broker u hs) u v checked in
      let (grown, queues) = declare_all_lem broker max_length hs s u first in
      let users = check_users_lem rows u t own (rw same rest) in
      both-IsReady u t drawn hs users.queues queues users.accounts

  -- The calls for a new row make its agent ready, and leave another one ready.
  pub provision-IsReady :
      (max_length : ℕ) (h other : Host) (db db' : Db) (s t : State)
      → provision broker max_length h db s ≡ (ok (h, db'), t)
      → text_eq (user_of h) (user_of other) ≡ false
      → IsReady broker s other
      → IsReady broker t h × IsReady broker t other
  unfolding provision
  provision-IsReady max_length h other db db' s t e differ ready =
      let (u, first, later) =
        and_then_ok (declare_host_queues broker max_length (ref_of h) s)
          (λ x. and_then (ensure_host_agent_user broker h x) (λ y. (ok (h, add_host h db), y)))
          (h, db') t e in
      let (v, second, final) =
        and_then_ok (ensure_host_agent_user broker h u) (λ y. (ok (h, add_host h db), y)) (h, db') t
          later in
      let same : v ≡ t = ap (λ x. x.1) final in
      let (grown, queues) = declare_host_queues_lem broker max_length h s u first in
      let (keeps, account) = ensure_host_agent_user_lem broker h u v second in
      let other_account : HasAccount broker u other = (
        grown.passwords (user_of other) ∙ ready.1.0,
        grown.permissions (user_of other) ∙ ready.1.1,
      ) in
      (
        subst (λ x. IsReady broker x h) same
            (Keeps-HasQueues (user_of h) u v h keeps queues, account),
        subst (λ x. IsReady broker x other) same
            (
              Keeps-HasQueues (user_of h) u v other keeps
                  (λ k. grown.grown (queue_name (ref_of other) k) (ready.0 k)),
              Keeps-HasAccount (user_of h) u v other keeps differ other_account,
            ),
      )

  provision_row :
      (max_length : ℕ) (h h' : Host) (db db' : Db) (s t : State)
      → provision broker max_length h db s ≡ (ok (h', db'), t)
      → (h ≡ h') × (add_host h db ≡ db')
  unfolding provision row_of db_of
  provision_row max_length h h' db db' s t e =
      let (u, first, later) =
        and_then_ok (declare_host_queues broker max_length (ref_of h) s)
          (λ x. and_then (ensure_host_agent_user broker h x) (λ y. (ok (h, add_host h db), y)))
          (h', db') t e in
      let (v, second, final) =
        and_then_ok (ensure_host_agent_user broker h u) (λ y. (ok (h, add_host h db), y)) (h', db')
          t later in
      (ap (λ r. row_of h r.0) final, ap (λ r. db_of db r.0) final)

  checked_first :
      (max_length : ℕ) (h : Host) (db : Db) (s : State) (r : Result (Unit {0})) (a : Host × Db)
      (t : State)
      → provision_checked broker max_length h db s r ≡ (ok a, t)
      → (r ≡ ok tt) × (provision broker max_length h db s ≡ (ok a, t))
  checked_first max_length h db s (ok u) a t e = (refl, e)
  checked_first max_length h db s (err x) a t e = cc

  -- A host that create_host returns is the new row of the table, with the id, the short id, the hypervisor
  -- and the cluster that were asked for; the cluster, if one was given, is a row of the table that runs this
  -- hypervisor; the agent of the host is ready, and another host that was ready is so still, where its
  -- account has another name.
  pub create_host-IsReady :
      (max_length id : ℕ) (short_id drawn name : String) (cluster_id : Option ℕ)
      (hypervisor : String) (h other : Host) (db db' : Db) (s t : State)
      → create_host broker max_length id short_id drawn name cluster_id hypervisor db s
        ≡ (ok (h, db'), t)
      → text_eq (user_of h) (user_of other) ≡ false
      → IsReady broker s other
      → (db'.hosts ≡ db.hosts ++ h ∷ [])
        × ((h.id ≡ id)
            × (h.short_id ≡ short_id)
            × (h.hypervisor ≡ hypervisor)
            × (h.cluster_id ≡ cluster_id))
        × MayJoin cluster_id hypervisor db.clusters
        × IsReady broker t h
        × IsReady broker t other
  unfolding create_host
  create_host-IsReady max_length id short_id drawn name cluster_id hypervisor h other db db' s t e
        differ ready =
      let new =
        ensure_host_agent_credentials drawn
          (new_host id short_id (strip name) cluster_id hypervisor) in
      let (passed, made) =
        checked_first max_length new db s (check_cluster cluster_id hypervisor db) (h, db') t e in
      let (row, table) = provision_row max_length new h db db' s t made in
      let (mine, others) =
        provision-IsReady max_length h other db db' s t
          (subst (λ x. provision broker max_length x db s ≡ (ok (h, db'), t)) row made) differ
          ready in
      (
        ap (λ d. d.hosts) (sym table) ∙ ap (λ x. db.hosts ++ x ∷ []) row,
        asked_for drawn id short_id name cluster_id hypervisor h row,
        check_cluster-MayJoin cluster_id hypervisor db passed,
        mine,
        others,
      )
