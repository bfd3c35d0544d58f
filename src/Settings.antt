-- ===== src/Settings.antt =====
-- app/config.py: the settings that the modelled code reads. Times are in seconds.
use open_v_center_backend.Prelude.{ℕ, String}

pub record Settings : Type 0 where
  pub vm_state_ttl_seconds : ℕ
  pub agent_offline_after_seconds : ℕ
  pub metrics_retention_seconds : ℕ
  pub admin_role : String
  pub task_timeout_seconds : ℕ
  pub audit_retention_days : ℕ

abbrev pub default_settings : Settings
default_settings = record {
  vm_state_ttl_seconds = 3600;
  agent_offline_after_seconds = 120;
  metrics_retention_seconds = 3600;
  admin_role = "ADMINISTRATOR";
  task_timeout_seconds = 300;
  audit_retention_days = 365;
}
