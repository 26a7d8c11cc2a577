-- ===== src/Server/Tests.antt =====
-- Sample data: a small fleet, with one node that is online.
pub mod Config
pub mod Reconcile
pub mod Tasks
pub mod Trash
pub mod Instances
pub mod Runtimes
pub mod ModelFiles
pub mod Models
pub mod Gateway
pub mod Logs
pub mod Sessions
pub mod Users
use lightai_platform.Prelude.{ℕ, String, Bool, true, Option, none, some, List, [], ◌∷◌}
use lightai_platform.Server.Policy.{AgentConfigPolicy, default_policy}
use lightai_platform.Server.Serde.{Serde}
use lightai_platform.Server.Tables.{Db, Node, Runtime, Model, ModelFile, Instance, Task}
use lightai_platform.Server.AgentTasks.Lifecycle.{queued_task}

abbrev pub sample_policy : AgentConfigPolicy
sample_policy = record default_policy { command_timeout_secs = some 9 }

-- Values as texts: each is an object that holds its own text under every key.
abbrev pub text_json : Serde
text_json = record {
  Value = String;
  from_str = λ s. some s;
  to_string = λ v. v;
  null = "null";
  string = λ s. s;
  number = λ n. "0";
  object = λ fields. "{}";
  set = λ v k x. v;
  get = λ v k. some v;
  as_str = λ v. some v;
  as_i64 = λ v. none;
  as_u64 = λ v. none;
  as_array = λ v. none;
  is_object = λ v. true;
  policy_from_str = λ s. some sample_policy;
  policy_to_string = λ p. "policy";
}

abbrev pub node_one : Node
node_one = record { id = "n1"; name = "one"; hostname = "one.local"; last_heartbeat_at = some 400 }

abbrev pub vllm : Runtime
vllm = record {
  id = "r1";
  node_id = some "n1";
  name = "vLLM";
  backend = "vllm";
  deploy_type = "host";
  version = some "0.6";
  base_url = none;
  health_url = none;
  endpoint_url = none;
  binary_path = some "/usr/bin/vllm";
  docker_image = none;
  working_dir = none;
  log_dir = none;
  allowed_model_dirs_json = none;
  params_json = none;
  enabled = true;
  last_checked_at = some 300;
  check_status = some "available";
  check_message = none;
  created_at = 1;
  updated_at = 300;
}

abbrev pub file_one : ModelFile
file_one = record {
  id = "f1";
  model_id = "m1";
  node_id = "n1";
  path = "/models/m1";
  path_type = some "directory";
  status = "verified";
  size_bytes = none;
  last_verified_at = some 200;
  last_error = none;
  verify_task_id = none;
  deleted_at = none;
  created_at = 1;
  updated_at = 200;
}

abbrev pub instance : String → String → Instance
instance id status = record {
  id = id;
  model_id = some "m1";
  model_file_id = some "f1";
  node_id = some "n1";
  runtime_environment_id = some "r1";
  name = "chat";
  backend = "vllm";
  deploy_type = "local";
  status = status;
  base_url = none;
  endpoint_url = none;
  health_url = none;
  runtime_version = some "0.6";
  model_name = none;
  description = none;
  params_json = none;
  process_id = none;
  process_ref = none;
  log_tail = none;
  command = none;
  last_checked_at = none;
  last_error = none;
  created_at = 5;
  updated_at = 5;
}

-- a start of the instance i1 whose lease is over at the time 420, a start of i2 that waits, and one
-- of an instance that is gone
abbrev pub late_start : Task
late_start = record (queued_task "t1" "n1" "start_model_instance" "i1" 380) {
  status = "running";
  lease_until = some 410;
  attempt_count = 1;
  started_at = some 380;
}

abbrev pub waiting_start : Task
waiting_start = queued_task "t2" "n1" "start_model_instance" "i2" 400

abbrev pub lost_start : Task
lost_start = queued_task "t3" "n1" "start_model_instance" "i9" 100

abbrev pub fleet : Db
fleet = record {
  nodes = node_one ∷ [];
  policies = [];
  runtime_environments = vllm ∷ [];
  models = [];
  model_files = file_one ∷ [];
  model_instances = instance "i1" "starting" ∷ instance "i2" "stopped" ∷ [];
  agent_tasks = late_start ∷ waiting_start ∷ [];
  model_file_trash = [];
}

abbrev pub fleet_with_lost_start : Db
fleet_with_lost_start = record fleet { agent_tasks = lost_start ∷ late_start ∷ waiting_start ∷ [] }
