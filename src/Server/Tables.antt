-- ===== src/Server/Tables.antt =====
-- The rows of the tables that the server keeps (migrations/0002, 0003 and 0005) and the database
-- as the record of its tables. A status or kind column is a text, as in the schema: nothing in the
-- database holds it to a list of values. Times are seconds since 1970.
use lightai_platform.Prelude.{ℕ, String, Bool, Option, List, ◌==◌}
use lightai_platform.Prelude.Int.{ℤ}

pub record Node : Type 0 where
  pub id : String
  pub name : String
  pub hostname : String
  pub last_heartbeat_at : Option ℕ

-- a row of agent_config_policies
pub record PolicyRow : Type 0 where
  pub scope : String
  pub node_id : String
  pub policy_json : String
  pub version : ℕ
  pub updated_at : ℕ

pub record Runtime : Type 0 where
  pub id : String
  pub node_id : Option String
  pub name : String
  pub backend : String
  pub deploy_type : String
  pub version : Option String
  pub base_url : Option String
  pub health_url : Option String
  pub endpoint_url : Option String
  pub binary_path : Option String
  pub docker_image : Option String
  pub working_dir : Option String
  pub log_dir : Option String
  pub allowed_model_dirs_json : Option String
  pub params_json : Option String
  pub enabled : Bool
  pub last_checked_at : Option ℕ
  pub check_status : Option String
  pub check_message : Option String
  pub created_at : ℕ
  pub updated_at : ℕ

pub record Model : Type 0 where
  pub id : String
  pub name : String
  pub display_name : Option String
  pub model_type : String
  pub model_path : Option String
  pub description : Option String
  pub default_backend : Option String
  pub params_json : Option String
  pub created_at : ℕ
  pub updated_at : ℕ
  pub deleted_at : Option ℕ

pub record ModelFile : Type 0 where
  pub id : String
  pub model_id : String
  pub node_id : String
  pub path : String
  pub path_type : Option String
  pub status : String
  pub size_bytes : Option ℤ
  pub last_verified_at : Option ℕ
  pub last_error : Option String
  pub verify_task_id : Option String
  pub deleted_at : Option ℕ
  pub created_at : ℕ
  pub updated_at : ℕ

pub record Instance : Type 0 where
  pub id : String
  pub model_id : Option String
  pub model_file_id : Option String
  pub node_id : Option String
  pub runtime_environment_id : Option String
  pub name : String
  pub backend : String
  pub deploy_type : String
  pub status : String
  pub base_url : Option String
  pub endpoint_url : Option String
  pub health_url : Option String
  pub runtime_version : Option String
  pub model_name : Option String
  pub description : Option String
  pub params_json : Option String
  pub process_id : Option ℤ
  pub process_ref : Option String
  pub log_tail : Option String
  pub command : Option String
  pub last_checked_at : Option ℕ
  pub last_error : Option String
  pub created_at : ℕ
  pub updated_at : ℕ

pub record Task : Type 0 where
  pub id : String
  pub node_id : String
  pub kind : String
  pub status : String
  pub payload_json : String
  pub result_json : Option String
  pub error_message : Option String
  pub lease_until : Option ℕ
  pub attempt_count : ℕ
  pub created_at : ℕ
  pub started_at : Option ℕ
  pub completed_at : Option ℕ
  pub updated_at : ℕ

pub record Trash : Type 0 where
  pub id : String
  pub model_file_id : Option String
  pub model_id : Option String
  pub node_id : Option String
  pub path : String
  pub reason : Option String
  pub status : String
  pub file_deleted_at : Option ℕ
  pub cleanup_task_id : Option String
  pub last_error : Option String
  pub note : Option String
  pub created_at : ℕ
  pub updated_at : ℕ

pub record Db : Type 0 where
  pub nodes : List Node
  pub policies : List PolicyRow
  pub runtime_environments : List Runtime
  pub models : List Model
  pub model_files : List ModelFile
  pub model_instances : List Instance
  pub agent_tasks : List Task
  pub model_file_trash : List Trash

-- WHERE id = ?
abbrev pub task_is : String → Task → Bool
task_is id t = t.id == id

abbrev pub instance_is : String → Instance → Bool
instance_is id i = i.id == id

abbrev pub file_is : String → ModelFile → Bool
file_is id f = f.id == id

abbrev pub trash_is : String → Trash → Bool
trash_is id t = t.id == id

abbrev pub node_is : String → Node → Bool
node_is id n = n.id == id

abbrev pub runtime_is : String → Runtime → Bool
runtime_is id r = r.id == id

abbrev pub model_is : String → Model → Bool
model_is id m = m.id == id
