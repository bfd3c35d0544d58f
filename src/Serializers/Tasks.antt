-- ===== src/Serializers/Tasks.antt =====
-- task_out and task_detail_out.
use open_v_center_backend.Prelude.{ℕ, String, Option}
use open_v_center_backend.Models.TaskRows.{
  Task, TaskStatus, TargetType, AgentRequest, AgentResponse,
}

pub record TaskOut : Type 0 where
  pub id : ℕ
  pub kind : String
  pub status : TaskStatus
  pub target_type : TargetType
  pub target_id : ℕ
  pub target_name : Option String
  pub requested_by : String
  pub progress : Option ℕ
  pub progress_message : Option String
  pub created_at : ℕ
  pub started_at : Option ℕ
  pub finished_at : Option ℕ
  pub result : Option String
  pub error : Option String
  pub correlation_id : Option ℕ

unfoldable pub task_out : Task → TaskOut
task_out t = record {
  id = t.id;
  kind = t.kind;
  status = t.status;
  target_type = t.target_type;
  target_id = t.target_id;
  target_name = t.target_name;
  requested_by = t.requested_by;
  progress = t.progress;
  progress_message = t.progress_message;
  created_at = t.created_at;
  started_at = t.started_at;
  finished_at = t.finished_at;
  result = t.result;
  error = t.error;
  correlation_id = t.correlation_id;
}

-- The fields of the task, and the two payloads.
pub record TaskDetailOut : Type 0 where
  pub task : TaskOut
  pub request_payload : Option AgentRequest
  pub response_payload : Option AgentResponse

unfoldable pub task_detail_out : Task → TaskDetailOut
unfolding task_out
task_detail_out t = record {
  task = task_out t;
  request_payload = t.request_payload;
  response_payload = t.response_payload;
}
