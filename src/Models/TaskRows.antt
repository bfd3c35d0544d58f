-- ===== src/Models/TaskRows.antt =====
-- app/models/task.py and app/messaging/protocol.py: the tasks that the agents run, and the two
-- envelopes that go over the queues.
use open_v_center_backend.Prelude.{ℕ, String, Bool, true, false, Option}
use open_v_center_backend.Json.{Json, Dict}

-- TASK_STATUSES
pub data TaskStatus : Type 0 where
  queued running succeeded failed timeout : TaskStatus

-- `status in TERMINAL_TASK_STATUSES`
abbrev pub is_terminal : TaskStatus → Bool
is_terminal queued = false
is_terminal running = false
is_terminal succeeded = true
is_terminal failed = true
is_terminal timeout = true

-- `target_type`: "vm" or "host".
pub data TargetType : Type 0 where
  vm host : TargetType

pub record AgentRequest : Type 0 where
  pub id : ℕ
  pub function : String
  pub params : Dict
  pub requested_by : String
  pub issued_at : ℕ

-- The status text of a response: any text but the first two counts as a failure.
pub data ResponseStatus : Type 0 where
  running succeeded : ResponseStatus
  other : String → ResponseStatus

pub record AgentResponse : Type 0 where
  pub id : ℕ
  pub function : String
  pub status : ResponseStatus
  pub progress : Option ℕ
  pub progress_message : Option String
  pub result : Option Json
  pub error : Option String
  pub vm_id : Option String
  pub vm_state : Option String
  pub vm_status : Option Dict
  pub template : Option Dict
  pub finished_at : Option ℕ

pub record Task : Type 0 where
  pub id : ℕ
  pub kind : String
  pub status : TaskStatus
  pub target_type : TargetType
  pub target_id : ℕ
  pub target_name : Option String
  pub host_id : ℕ
  pub requested_by : String
  pub progress : Option ℕ
  pub progress_message : Option String
  pub created_at : ℕ
  pub started_at : Option ℕ
  pub finished_at : Option ℕ
  pub result : Option String
  pub error : Option String
  pub request_payload : Option AgentRequest
  pub response_payload : Option AgentResponse
  pub correlation_id : Option ℕ
