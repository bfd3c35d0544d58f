-- ===== src/Models/Records.antt =====
-- app/models/{rbac,tag,audit,image}.py: users and their grants, tags, audit events, images.
use open_v_center_backend.Prelude.{ℕ, String, Bool, Option, List}
use open_v_center_backend.Json.{Dict}

-- `roles` is the comma-separated column, split.
pub record User : Type 0 where
  pub id : ℕ
  pub email : String
  pub display_name : Option String
  pub roles : List String

-- SCOPE_LEVELS
pub data Level : Type 0 where
  global cluster host folder : Level

pub record ScopeGrant : Type 0 where
  pub user_id : ℕ
  pub level : Level
  pub scope_id : Option ℕ

pub record TagCategory : Type 0 where
  pub id : ℕ
  pub name : String

pub record Tag : Type 0 where
  pub id : ℕ
  pub category_id : Option ℕ
  pub name : String
  pub color : String

-- A row of `vm_tags`.
pub record VmTag : Type 0 where
  pub vm_id : ℕ
  pub tag_id : ℕ

-- AUDIT_OUTCOMES
pub data Outcome : Type 0 where
  pending succeeded failed timeout : Outcome

pub data ActorType : Type 0 where
  user system : ActorType

pub record AuditEvent : Type 0 where
  pub id : ℕ
  pub occurred_at : ℕ
  pub actor_type : ActorType
  pub actor_email : Option String
  pub actor_name : Option String
  pub action : String
  pub target_type : String
  pub target_id : Option ℕ
  pub target_name : Option String
  pub host_id : Option ℕ
  pub cluster_id : Option ℕ
  pub task_id : Option ℕ
  pub outcome : Outcome
  pub error : Option String
  pub details : Option Dict

pub record Template : Type 0 where
  pub id : String
  pub host_id : ℕ
  pub name : String
  pub path : String
  pub size_bytes : ℕ
  pub disk_size_bytes : ℕ
  pub cpu_count : ℕ
  pub memory_mb : ℕ
  pub notes : Option String
  pub guest_os : Option String
  pub image_created_at : Option ℕ

pub record Iso : Type 0 where
  pub id : ℕ
  pub host_id : ℕ
  pub name : String
  pub path : String
  pub size_bytes : ℕ
  pub checksum : Option String

-- app/models/agent_binary.py
pub record AgentBinary : Type 0 where
  pub id : ℕ
  pub version : String
  pub hypervisor : String
  pub filename : String
  pub size_bytes : ℕ
  pub checksum_sha256 : String
  pub content_type : String
  pub storage_backend : String
  pub storage_key : String
  pub notes : Option String
  pub is_active : Bool
  pub uploaded_by : String
