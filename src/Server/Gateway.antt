-- ===== src/Server/Gateway.antt =====
-- The tasks of the gateway of a node: server/src/domain/gateway.rs. `reqwest::Url` and the decoder
-- of a response, crates that are not part of the repository, are parameters.
pub mod Laws
use lightai_platform.Prelude.{
  ℕ, String, ◌<>◌, Bool, not, ◌&&◌, ◌||◌, Option, none, some, List, [], ◌∷◌, ◌++◌, ◌==◌, ◌⊎◌, inl,
  inr, is_some, map_option, unwrap_or, if◌then◌else◌, false,
}
use lightai_platform.Prelude.Int.{ℤ}
use lightai_platform.Server.Serde.{Serde}
use lightai_platform.Server.Tables.{Task}
use lightai_platform.Server.Exec.{
  DomainError, bad_request, conflict, internal, Exec, pure, fail, modify, need, refuse_if, ◌>>=◌,
  ◌>>◌,
}
use lightai_platform.Server.Support.{validate_path, ensure_node_exists, node_online}
use lightai_platform.Server.AgentTasks.Sweep.{mark_task_timed_out}
use lightai_platform.Server.AgentTasks.Lifecycle.{queued_task}
use lightai_platform.Server.TaskRequest.{insert_task, answer_of}
use lightai_platform.Server.Waiting.{Waiting, Turn, then_wait, wait_for_task}

pub record GatewayTaskRequest : Type 0 where
  pub binary_path : Option String
  pub config_path : Option String
  pub work_dir : Option String
  pub log_path : Option String
  pub state_path : Option String
  pub health_url : Option String
  pub max_bytes : Option ℕ

pub record GatewayTaskResponse : Type 0 where
  pub gateway_status : String
  pub message : String
  pub process_id : Option ℤ
  pub process_ref : Option String
  pub health_url : Option String
  pub log_tail : Option String
  pub command : Option String

-- what `reqwest::Url` gives of a URL
pub record Url : Type 0 where
  pub scheme : String
  pub host_str : Option String
  pub path : String
  pub query : Option String

-- `reqwest::Url::parse`, and `serde_json::from_str` with the text of its error
pub record GatewayCrates : Type 0 where
  pub parse_url : String → Option Url
  pub response_from_str : String → String ⊎ GatewayTaskResponse

-- the kinds whose request is checked
abbrev pub starts : String → Bool
starts task_kind = task_kind == "start_gateway" || task_kind == "restart_gateway"

unfoldable pub validate_required_path : String → Option String → Exec Unit
validate_required_path field none = fail (bad_request (field <> " is required"))
validate_required_path field (some value) = validate_path field value

unfoldable pub ensure_node_can_run_gateway_task : ℕ → String → Exec Unit
ensure_node_can_run_gateway_task now node_id = do
  ensure_node_exists node_id
  online ← node_online now node_id
  refuse_if (not online) (conflict "Node Agent offline, cannot execute Gateway task")

abbrev pub is_loopback : Option String → Bool
is_loopback none = false
is_loopback (some host) = host == "127.0.0.1" || host == "localhost" || host == "::1"

abbrev pub gateway_timed_out : DomainError
gateway_timed_out = conflict "Gateway task timed out; confirm Agent is online and retry"

-- what is asked of a URL, once it is parsed
unfoldable pub check_parsed_url : String → Url → Exec Unit
check_parsed_url field parsed = do
  refuse_if (not (parsed.scheme == "http" || parsed.scheme == "https"))
      (bad_request (field <> " must use http:// or https://"))
  refuse_if (not (is_loopback parsed.host_str))
      (bad_request (field <> " must target localhost or loopback"))
  refuse_if (not (parsed.path == "/health")) (bad_request (field <> " path must be /health"))
  refuse_if (is_some parsed.query) (bad_request (field <> " must not include query parameters"))

module _ (js : Serde) (crates : GatewayCrates) where
  unfoldable pub validate_required_url : String → Option String → Exec Unit
  validate_required_url field value = do
    text ← need value (bad_request (field <> " is required"))
    parsed ← need (crates.parse_url text) (bad_request (field <> " is invalid"))
    check_parsed_url field parsed

  -- the paths and the URL of a request to start
  unfoldable pub validate_start : GatewayTaskRequest → Exec Unit
  validate_start r = do
    validate_required_path "binary_path" r.binary_path
    validate_required_path "config_path" r.config_path
    validate_required_path "work_dir" r.work_dir
    validate_required_path "log_path" r.log_path
    validate_required_url "health_url" r.health_url

  unfoldable pub validate_gateway_request : String → GatewayTaskRequest → Exec Unit
  validate_gateway_request task_kind r =
      if starts task_kind
      then validate_start r
      else if task_kind == "stop_gateway"
          || task_kind == "check_gateway"
          || task_kind == "read_gateway_log"
      then pure tt
      else fail (bad_request "Gateway task kind is invalid")

  -- a field that is there if the value is
  abbrev pub insert_opt : String → Option String → List (String × js.Value)
  insert_opt key none = []
  insert_opt key (some value) = (key, js.string value) ∷ []

  abbrev max_bytes_field : Option ℕ → List (String × js.Value)
  max_bytes_field none = []
  max_bytes_field (some n) = ("max_bytes", js.number n) ∷ []

  unfoldable pub gateway_payload : String → GatewayTaskRequest → js.Value
  gateway_payload task_kind r = js.object (
      (if starts task_kind
        then insert_opt "binary_path" r.binary_path
          ++ insert_opt "config_path" r.config_path
          ++ insert_opt "work_dir" r.work_dir
          ++ insert_opt "log_path" r.log_path
          ++ insert_opt "health_url" r.health_url
        else [])
      ++ max_bytes_field r.max_bytes)

  abbrev decoded : String ⊎ GatewayTaskResponse → Exec GatewayTaskResponse
  decoded (inl error) = fail (internal error)
  decoded (inr response) = pure response

  abbrev response_of : Option String → Exec GatewayTaskResponse
  response_of none = fail (conflict "Gateway task has no result")
  response_of (some result_json) = decoded (crates.response_from_str result_json)

  unfoldable pub gateway_response_from_row : Task → Exec GatewayTaskResponse
  gateway_response_from_row t = response_of t.result_json

  -- the message of a task that has failed: that of its result, if it can be read
  abbrev decoded_message : Option String → String ⊎ GatewayTaskResponse → String
  decoded_message error_message (inl error) = unwrap_or error_message "Gateway task failed"
  decoded_message error_message (inr response) = response.message

  abbrev pub gateway_failure : Option String → Option String → String
  gateway_failure error_message none = unwrap_or error_message "Gateway task failed"
  gateway_failure error_message (some result_json) =
      decoded_message error_message (crates.response_from_str result_json)

  unfoldable pub gateway_answer : ℕ → Task → Option (Exec GatewayTaskResponse)
  gateway_answer now t =
      answer_of t (gateway_response_from_row t)
        (fail (conflict (gateway_failure t.error_message t.result_json))) (fail gateway_timed_out)

  unfoldable pub gateway_give_up : String → ℕ → Exec GatewayTaskResponse
  gateway_give_up task_id now = do mark_task_timed_out now task_id; fail gateway_timed_out

  unfoldable pub wait_for_gateway_task : String → List Turn → Waiting GatewayTaskResponse
  wait_for_gateway_task task_id = wait_for_task gateway_answer (gateway_give_up task_id) task_id

  -- the statements before the wait
  unfoldable pub queue_gateway_task : ℕ → String → String → String → GatewayTaskRequest → Exec Unit
  queue_gateway_task now task_id node_id task_kind r = do
    ensure_node_can_run_gateway_task now node_id
    validate_gateway_request task_kind r
    modify (
        insert_task
          (queued_task task_id node_id task_kind (js.to_string (gateway_payload task_kind r)) now))

  unfoldable pub run_gateway_task :
      ℕ → String → String → String → GatewayTaskRequest → List Turn → Waiting GatewayTaskResponse
  run_gateway_task now task_id node_id task_kind r turns =
      then_wait (queue_gateway_task now task_id node_id task_kind r)
        (λ _. wait_for_gateway_task task_id turns)

  module _ (now : ℕ) (task_id node_id : String) (r : GatewayTaskRequest) (turns : List Turn) where
    unfoldable pub start_gateway : Waiting GatewayTaskResponse
    start_gateway = run_gateway_task now task_id node_id "start_gateway" r turns

    unfoldable pub stop_gateway : Waiting GatewayTaskResponse
    stop_gateway = run_gateway_task now task_id node_id "stop_gateway" r turns

    unfoldable pub restart_gateway : Waiting GatewayTaskResponse
    restart_gateway = run_gateway_task now task_id node_id "restart_gateway" r turns

    unfoldable pub check_gateway : Waiting GatewayTaskResponse
    check_gateway = run_gateway_task now task_id node_id "check_gateway" r turns

    unfoldable pub read_gateway_log : Waiting GatewayTaskResponse
    read_gateway_log = run_gateway_task now task_id node_id "read_gateway_log" r turns
