-- ===== src/Agent/Processes.antt =====
-- The processes and containers that an agent manages: the store of their records
-- (agent/src/managed_process.rs), the stop of an instance (agent/src/tasks/process.rs) and, for containers,
-- agent/src/tasks/docker_backend.rs. What the node answers (/proc, /bin/kill, docker, the file system)
-- is an argument.
pub mod Store
pub mod Stop
use lightai_platform.Prelude.{
  ℕ, String, Bool, true, false, not, ◌&&◌, ◌||◌, Option, none, some, List, [], ◌∷◌, ◌++◌, ◌==◌,
  ◌<>◌, nat_eq, map, if◌then◌else◌, or_else, is_some,
}
use lightai_platform.Prelude.Rows.{select_one, delete, insert, select}
use lightai_platform.Agent.Launch.{Outcome, ok, err}

pub record ManagedProcessRecord : Type 0 where
  pub instance_id : String
  pub process_id : ℕ
  pub process_start_time : Option ℕ
  pub base_url : Option String
  pub endpoint_url : Option String
  pub command : Option String
  pub log_path : Option String
  pub started_at : ℕ
  pub container_id : Option String
  pub container_name : Option String
  pub deploy_type : Option String

-- the file of the records: absent, not to be read as records, with the error of that, or records
pub data StoreFile : Type 0 where
  missing : StoreFile
  unreadable : String → StoreFile
  stored : List ManagedProcessRecord → StoreFile

-- a child of the agent that is still in its registry
pub record ProcessHandle : Type 0 where
  pub instance_id : String
  pub process_id : ℕ
  pub command : String

-- The agent's view of its node. `signals` are the processes that /bin/kill was run on, the last first.
pub record AgentNode : Type 0 where
  pub store : Option StoreFile
  pub registry : List ProcessHandle
  pub signals : List ℕ

pub record ProcessCheck : Type 0 where
  pub is_running : Bool
  pub message : String

-- What the node does: the start time of a live process, the failure of a command, the answer of
-- `docker inspect`, and what a write of the store that fails leaves behind.
pub record Commands : Type 0 where
  pub process_start_time : ℕ → Option ℕ
  pub kill : ℕ → Option String
  pub kill_child : ℕ → Option String
  pub docker_stop : String → Option String
  pub inspect : String → Outcome ProcessCheck
  pub write : List ManagedProcessRecord → Option (String × StoreFile)

pub record ManagedInstanceReport : Type 0 where
  pub instance_id : String
  pub status : String
  pub message : String
  pub process_id : ℕ
  pub base_url : Option String
  pub endpoint_url : Option String
  pub command : Option String
  pub log_path : Option String

-- the fields of the result that are not always none, but for the tail of the log
pub record ModelInstanceTaskResult : Type 0 where
  pub instance_status : String
  pub message : String
  pub command : Option String

abbrev pub is_docker_type : Option String → Bool
is_docker_type none = false
is_docker_type (some t) = t == "docker"

abbrev pub is_docker : ManagedProcessRecord → Bool
is_docker r = is_docker_type r.deploy_type

abbrev pub container_ref : ManagedProcessRecord → Option String
container_ref r = or_else r.container_id r.container_name

module _ (os : Commands) where
  abbrev pub inspected : Outcome ProcessCheck → ProcessCheck
  inspected (ok check) = check
  inspected (err e) = record {
    is_running = false;
    message = "Docker container check failed: " <> e;
  }

  abbrev pub check_container : Option String → ProcessCheck
  check_container none = record { is_running = false; message = "missing container ID or name" }
  check_container (some ref) = inspected (os.inspect ref)

  -- the start time that is expected, where one was recorded
  abbrev pub same_start : Option ℕ → ℕ → Bool
  same_start none current = true
  same_start (some expected) current = nat_eq current expected

  abbrev pub check_process : ManagedProcessRecord → Option ℕ → ProcessCheck
  check_process r none = record {
    is_running = false;
    message = "Managed process not found; may have exited abnormally";
  }
  check_process r (some current) =
      if same_start r.process_start_time current
      then record {
        is_running = true;
        message = "Agent restarted and recovered managed process: still running";
      }
      else record {
        is_running = false;
        message =
            "PID reused by another process; cannot confirm as platform managed instance; management stopped";
      }

  unfoldable pub check_record : ManagedProcessRecord → ProcessCheck
  check_record r =
      if is_docker r
      then check_container (container_ref r)
      else check_process r (os.process_start_time r.process_id)
