-- ===== src/Audit.antt =====
-- app/services/audit.py: recording an event, settling the events of a task, and retention.
pub mod Changes
pub mod Listing
use open_v_center_backend.Prelude.{
  ℕ, ◌+◌, ◌*◌, String, Bool, true, false, ◌&&◌, Option, none, some, List, [], ◌∷◌, ◌++◌, ltb, ◌==◌,
  any, has_id, or_text, update_where, delete_where, if◌then◌else◌,
}
use open_v_center_backend.Json.{Dict, end}
use open_v_center_backend.Models.{Db}
use open_v_center_backend.Models.VmRows.{Vm}
use open_v_center_backend.Models.Topology.{Cluster, Host, Folder, Vlan}
use open_v_center_backend.Models.Records.{
  User, AgentBinary, Tag, TagCategory, Outcome, pending, AuditEvent, ActorType, user, system,
}

-- `Target`
pub data Target : Type 0 where
  vm_target : Vm → Target
  host_target : Host → Target
  cluster_target : Cluster → Target
  folder_target : Folder → Target
  vlan_target : Vlan → Target
  tag_target : Tag → Target
  category_target : TagCategory → Target
  binary_target : AgentBinary → Target

-- _TargetRef
pub record TargetRef : Type 0 where
  pub type : String
  pub id : Option ℕ
  pub name : Option String
  pub host_id : Option ℕ
  pub cluster_id : Option ℕ

abbrev target_ref : String → ℕ → String → Option ℕ → Option ℕ → TargetRef
target_ref t i n h c = record { type = t; id = some i; name = some n; host_id = h; cluster_id = c }

-- _ref
unfoldable pub ref : Target → TargetRef
ref (vm_target v) = target_ref "vm" v.id v.name (some v.host_id) v.cluster_id
ref (host_target h) = target_ref "host" h.id h.name (some h.id) h.cluster_id
ref (cluster_target c) = target_ref "cluster" c.id c.name none (some c.id)
ref (folder_target f) = target_ref "folder" f.id f.name f.host_id f.cluster_id
ref (vlan_target l) = target_ref "vlan" l.id l.name l.host_id l.cluster_id
ref (tag_target t) = target_ref "tag" t.id t.name none none
ref (category_target c) = target_ref "tag_category" c.id c.name none none
ref (binary_target b) = target_ref "agent_binary" b.id b.version none none

abbrev actor_kind : Option User → ActorType
actor_kind none = system
actor_kind (some u) = user

abbrev actor_email_of : Option User → Option String
actor_email_of none = none
actor_email_of (some u) = some u.email

abbrev actor_name_of : Option User → String
actor_name_of none = "Open vCenter"
actor_name_of (some u) = or_text u.display_name u.email

-- An event of a task starts out pending; any other is settled at once.
abbrev first_outcome : Option ℕ → Outcome
first_outcome none = Outcome.succeeded
first_outcome (some task) = pending

-- `details or None`
abbrev details_or_none : Dict → Option Dict
details_or_none end = none
details_or_none (Dict.entry k v d) = some (Dict.entry k v d)

-- record(db, actor, action, target, task=task, details=details), with the id and the time drawn.
unfoldable pub record_event : ℕ → ℕ → Option User → String → Target → Option ℕ → Dict → Db → Db
unfolding ref
record_event event_id now actor action target task details db =
    let r = ref target in
    record db {
      events =
          db.events
          ++ record {
            id = event_id;
            occurred_at = now;
            actor_type = actor_kind actor;
            actor_email = actor_email_of actor;
            actor_name = some (actor_name_of actor);
            action = action;
            target_type = r.type;
            target_id = r.id;
            target_name = r.name;
            host_id = r.host_id;
            cluster_id = r.cluster_id;
            task_id = task;
            outcome = first_outcome task;
            error = none;
            details = details_or_none details;
          }
            ∷ [];
    }

abbrev pub is_pending : Outcome → Bool
is_pending pending = true
is_pending _ = false

abbrev pub pending_for : List ℕ → AuditEvent → Bool
pending_for ids e = any (λ i. has_id e.task_id i) ids && is_pending e.outcome

-- settle_task_events: an empty list of ids updates nothing.
unfoldable pub settle_task_events : List ℕ → Outcome → Option String → Db → Db
settle_task_events ids outcome error db = record db {
  events =
      update_where (pending_for ids) (λ e. record e { outcome = outcome; error = error }) db.events;
}

-- prune_events: 0 days keeps everything; otherwise an event goes if it occurred before the cutoff.
unfoldable pub prune_events : ℕ → ℕ → Db → Db
prune_events now retention_days db = if retention_days == 0 then db else record db {
  events = delete_where (λ e. ltb (e.occurred_at + retention_days * 86400) now) db.events;
}
