-- ===== src/Agent/Tests/Gateway.antt =====
-- A gateway that is started, started again and stopped.
use lightai_platform.Prelude.{◌≡◌, refl, ◌==◌, none, some, [], nat_eq, if◌then◌else◌, false}
use lightai_platform.Server.Gateway.{Url}
use lightai_platform.Agent.Gateway.{
  GatewayProcessSpec, Supervisor, GatewayNode, Readers, missing, child, answered, no_log,
}
use lightai_platform.Agent.Gateway.Spec.{validate}
use lightai_platform.Agent.Gateway.Start.{start_gateway}
use lightai_platform.Agent.Gateway.Laws.{Tracked, start_gateway-Tracked}
use lightai_platform.Agent.Gateway.Laws.Once.{start_gateway_once}

abbrev health : Url
health = record { scheme = "http"; host_str = some "127.0.0.1"; path = "/health"; query = none }

abbrev readers : Readers
readers = record {
  file_name = λ path. some "lightai-gateway.log";
  has_parent_dir = λ path. false;
  is_root = λ path. path == "/";
  parse_url = λ url. some health;
  sanitize = λ bytes. "log";
  join = λ parts. "--config g.toml";
}

-- process 30 is the child
abbrev host : GatewayNode
host = record {
  now = 100;
  process_start_time = λ pid. if nat_eq pid 30 then some 99 else none;
  kill = λ pid. none;
  prepare_state_path = none;
  prepare_log_path = none;
  open_log = none;
  clone_log = none;
  spawn = λ command. child 30;
  save = λ r. none;
  remove_file = λ file. missing;
  health = λ url. answered 200;
  read_log = λ path. no_log;
}

-- the disk is full
abbrev full_host : GatewayNode
full_host = record host { save = λ r. some ("no space left", missing) }

abbrev spec : GatewayProcessSpec
spec = record {
  binary_path = "/opt/gateway";
  config_path = "g.toml";
  work_dir = "/opt";
  log_path = "/var/log/lightai-gateway.log";
  state_path = "/var/gateway.json";
  health_url = "http://127.0.0.1:9080/health";
}

abbrev idle : Supervisor
idle = record { record_file = missing; spawned = []; signals = [] }

spec_is_valid : validate readers spec ≡ none
unfolding validate
spec_is_valid = refl

gateway_starts : (start_gateway host readers spec idle).0.gateway_status ≡ "running"
unfolding start_gateway
gateway_starts = refl

start_gateway-Tracked_example : Tracked host readers idle (start_gateway host readers spec idle)
start_gateway-Tracked_example = start_gateway-Tracked host readers spec idle gateway_starts

gateway_is_child : (start_gateway host readers spec idle).0.process_id ≡ some 30
unfolding start_gateway
gateway_is_child = refl

once_example :
    let first = start_gateway host readers spec idle in
    let second = start_gateway full_host readers spec first.1 in
    (second.0.gateway_status ≡ "running") × (second.0.process_id ≡ some 30) × (second.1 ≡ first.1)
once_example =
    start_gateway_once host full_host readers spec idle 30 99 gateway_starts gateway_is_child refl
      refl
