-- ===== src/Server/Policy.antt =====
-- Agent configuration in layers: AgentConfig, AgentConfigPolicy and LogPolicy of
-- server/src/models.rs and server/src/platform_log.rs, and `apply_policy` with its helpers of
-- server/src/repository.rs.
use lightai_platform.Prelude.{ℕ, ◌*◌, String, Option, none, some, List, [], unwrap_or}

pub record LogPolicy : Type 0 where
  pub log_dir : String
  pub log_level : String
  pub log_max_file_bytes : ℕ
  pub log_retention_files : ℕ
  pub log_retention_days : ℕ

abbrev pub default_log_policy : LogPolicy
default_log_policy = record {
  log_dir = "logs";
  log_level = "info";
  log_max_file_bytes = 10 * 1024 * 1024;
  log_retention_files = 5;
  log_retention_days = 7;
}

pub record AgentConfig : Type 0 where
  pub config_version : ℕ
  pub heartbeat_interval_secs : ℕ
  pub metrics_sample_interval_secs : ℕ
  pub task_poll_interval_secs : ℕ
  pub config_refresh_interval_secs : ℕ
  pub command_timeout_secs : ℕ
  pub environment_check_timeout_secs : ℕ
  pub allowed_model_dirs : List String
  pub collector_timeout_secs : ℕ
  pub collector_max_output_bytes : ℕ
  pub log_policy : LogPolicy
  pub last_config_updated_at : Option ℕ

abbrev pub default_config : AgentConfig
default_config = record {
  config_version = 0;
  heartbeat_interval_secs = 15;
  metrics_sample_interval_secs = 15;
  task_poll_interval_secs = 15;
  config_refresh_interval_secs = 60;
  command_timeout_secs = 5;
  environment_check_timeout_secs = 5;
  allowed_model_dirs = [];
  collector_timeout_secs = 5;
  collector_max_output_bytes = 1024 * 1024;
  log_policy = default_log_policy;
  last_config_updated_at = none;
}

pub record AgentConfigPolicy : Type 0 where
  pub heartbeat_interval_secs : Option ℕ
  pub metrics_sample_interval_secs : Option ℕ
  pub command_timeout_secs : Option ℕ
  pub environment_check_timeout_secs : Option ℕ
  pub allowed_model_dirs : Option (List String)
  pub collector_timeout_secs : Option ℕ
  pub collector_max_output_bytes : Option ℕ
  pub log_dir : Option String
  pub log_level : Option String
  pub log_max_file_bytes : Option ℕ
  pub log_retention_files : Option ℕ
  pub log_retention_days : Option ℕ

-- `AgentConfigPolicy::default()`
abbrev pub default_policy : AgentConfigPolicy
default_policy = record {
  heartbeat_interval_secs = none;
  metrics_sample_interval_secs = none;
  command_timeout_secs = none;
  environment_check_timeout_secs = none;
  allowed_model_dirs = none;
  collector_timeout_secs = none;
  collector_max_output_bytes = none;
  log_dir = none;
  log_level = none;
  log_max_file_bytes = none;
  log_retention_files = none;
  log_retention_days = none;
}

-- AGENT_CONFIG_VERSION
abbrev pub agent_config_version : ℕ
agent_config_version = 1

-- HEARTBEAT_INTERVAL_SECS
abbrev pub heartbeat_interval : ℕ
heartbeat_interval = 15

unfoldable pub default_agent_config : ℕ → AgentConfig
default_agent_config updated_at = record default_config {
  config_version = agent_config_version;
  heartbeat_interval_secs = heartbeat_interval;
  metrics_sample_interval_secs = heartbeat_interval;
  command_timeout_secs = 5;
  environment_check_timeout_secs = 5;
  last_config_updated_at = some updated_at;
}

-- `if let Some(value) = policy.log_dir { config.log_policy.log_dir = value; }` and the like
unfoldable pub apply_log_layer : LogPolicy → AgentConfigPolicy → LogPolicy
apply_log_layer log policy = record log {
  log_dir = unwrap_or policy.log_dir log.log_dir;
  log_level = unwrap_or policy.log_level log.log_level;
  log_max_file_bytes = unwrap_or policy.log_max_file_bytes log.log_max_file_bytes;
  log_retention_files = unwrap_or policy.log_retention_files log.log_retention_files;
  log_retention_days = unwrap_or policy.log_retention_days log.log_retention_days;
}

unfoldable pub apply_policy_layer : AgentConfig → AgentConfigPolicy → AgentConfig
unfolding apply_log_layer
apply_policy_layer config policy = record config {
  heartbeat_interval_secs = unwrap_or policy.heartbeat_interval_secs config.heartbeat_interval_secs;
  metrics_sample_interval_secs =
      unwrap_or policy.metrics_sample_interval_secs config.metrics_sample_interval_secs;
  command_timeout_secs = unwrap_or policy.command_timeout_secs config.command_timeout_secs;
  environment_check_timeout_secs =
      unwrap_or policy.environment_check_timeout_secs config.environment_check_timeout_secs;
  allowed_model_dirs = unwrap_or policy.allowed_model_dirs config.allowed_model_dirs;
  collector_timeout_secs = unwrap_or policy.collector_timeout_secs config.collector_timeout_secs;
  collector_max_output_bytes =
      unwrap_or policy.collector_max_output_bytes config.collector_max_output_bytes;
  log_policy = apply_log_layer config.log_policy policy;
}

unfoldable pub apply_policy :
    AgentConfig → AgentConfigPolicy → AgentConfigPolicy → ℕ → ℕ → AgentConfig
unfolding apply_policy_layer
apply_policy config global node version updated_at =
    record (apply_policy_layer (apply_policy_layer config global) node) {
      config_version = version;
      last_config_updated_at = some updated_at;
    }
