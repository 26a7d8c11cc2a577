-- ===== src/Agent/Gateway.antt =====
-- The agent's supervisor of the gateway's process, agent/src/gateway_supervisor.rs. What the node answers
-- (/proc, /bin/kill, the file system, the start of a program, the HTTP check) and what Rust's library
-- and the crate reqwest make of a path, a URL and bytes are arguments. Its state is what the supervisor
-- can change: the file of the record, and the processes that it started and signalled, the last first.
pub mod Spec
pub mod Start
pub mod Log
pub mod Stop
pub mod Check
pub mod Laws
use lightai_platform.Prelude.{
  ℕ, zero, suc, ◌+◌, ◌-◌, ◌*◌, min, String, Bool, true, false, not, ◌&&◌, ◌||◌, Option, none, some,
  List, [], ◌∷◌, ◌==◌, ◌<>◌, nat_eq, leb, ltb, length, if◌then◌else◌, is_some,
}
use lightai_platform.Prelude.Text.{any_char}
use lightai_platform.Agent.Launch.{Outcome, ok, err}
use lightai_platform.Server.Gateway.{Url, is_loopback}

pub record GatewayProcessSpec : Type 0 where
  pub binary_path : String
  pub config_path : String
  pub work_dir : String
  pub log_path : String
  pub state_path : String
  pub health_url : String

pub record GatewayCommandSpec : Type 0 where
  pub program : String
  pub args : List String
  pub current_dir : String
  pub log_path : String

pub record GatewayProcessRecord : Type 0 where
  pub process_id : ℕ
  pub process_start_time : Option ℕ
  pub health_url : String
  pub command : String
  pub log_path : String
  pub started_at : ℕ

-- `process_ref` is the text of `process_id`
pub record GatewayTaskResult : Type 0 where
  pub gateway_status : String
  pub message : String
  pub process_id : Option ℕ
  pub health_url : Option String
  pub log_tail : Option String
  pub command : Option String

-- the file of the record: absent, not to be read as a record, with the error of that, or a record
pub data RecordFile : Type 0 where
  missing : RecordFile
  unreadable : String → RecordFile
  stored : GatewayProcessRecord → RecordFile

pub record Supervisor : Type 0 where
  pub record_file : RecordFile
  pub spawned : List ℕ
  pub signals : List ℕ

-- `spawn` and the id of the child
pub data Spawned : Type 0 where
  spawn_failed : String → Spawned
  without_id : Spawned
  child : ℕ → Spawned

pub data Health : Type 0 where
  no_client request_failed : String → Health
  answered : ℕ → Health

pub data LogFile : Type 0 where
  no_log : LogFile
  log_failed : String → LogFile
  log_bytes : List ℕ → LogFile

-- what the node does; a command is none where it succeeds, and else its error
pub record GatewayNode : Type 0 where
  pub now : ℕ
  pub process_start_time : ℕ → Option ℕ
  pub kill : ℕ → Option String
  pub prepare_state_path : Option String
  pub prepare_log_path : Option String
  pub open_log : Option String
  pub clone_log : Option String
  pub spawn : GatewayCommandSpec → Spawned
  pub save : GatewayProcessRecord → Option (String × RecordFile)
  pub remove_file : RecordFile → RecordFile
  pub health : String → Health
  pub read_log : String → LogFile

-- `std::path::Path`, `reqwest::Url::parse`, `platform_log::sanitize` of the bytes as text, `join`
pub record Readers : Type 0 where
  pub file_name : String → Option String
  pub has_parent_dir : String → Bool
  pub is_root : String → Bool
  pub parse_url : String → Option Url
  pub sanitize : List ℕ → String
  pub join : List String → String

abbrev pub gateway_log_file : String
gateway_log_file = "lightai-gateway.log"

abbrev pub failed : String → GatewayTaskResult
failed message = record {
  gateway_status = "failed";
  message = message;
  process_id = none;
  health_url = none;
  log_tail = none;
  command = none;
}

-- the result that names the process of a record
abbrev pub process_result : String → String → GatewayProcessRecord → GatewayTaskResult
process_result status message r = record {
  gateway_status = status;
  message = message;
  process_id = some r.process_id;
  health_url = some r.health_url;
  log_tail = none;
  command = some r.command;
}

-- the first error
abbrev pub first_error : Option String → Option String → Option String
first_error none rest = rest
first_error (some e) rest = some e

-- `map_err` of a step with its own text
abbrev pub map_error : String → Option String → Option String
map_error what none = none
map_error what (some e) = some (what <> e)

abbrev pub refuse : Bool → String → Option String
refuse b e = if b then some e else none

unfoldable pub load_record : RecordFile → Outcome (Option GatewayProcessRecord)
load_record missing = ok none
load_record (unreadable e) = err e
load_record (stored r) = ok (some r)

abbrev pub same_start : Option ℕ → ℕ → Bool
same_start none current = true
same_start (some expected) current = nat_eq current expected

-- the message of a check that fails, and none where the process of the record runs
abbrev pub check_start : GatewayProcessRecord → Option ℕ → Option String
check_start r none = some "Gateway process not found; may have exited"
check_start r (some current) =
    refuse (not (same_start r.process_start_time current))
      "PID reused by another process; cannot confirm as managed Gateway"

module _ (os : GatewayNode) where
  unfoldable pub check_record : GatewayProcessRecord → Option String
  check_record r = check_start r (os.process_start_time r.process_id)
