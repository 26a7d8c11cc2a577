-- ===== src/Server/Tests/Gateway.antt =====
-- A gateway that is to be started with a health URL of another host.
use lightai_platform.Prelude.{◌≡◌, refl, none, some, [], inl}
use lightai_platform.Server.Exec.{DomainError, err}
use lightai_platform.Server.Gateway.{GatewayTaskRequest, GatewayCrates, run_gateway_task}
use lightai_platform.Server.Gateway.Laws.{unsafe_gateway_refused}
use lightai_platform.Server.Tests.{text_json, fleet}

-- every URL is one of the host whose name is its text
abbrev sample_crates : GatewayCrates
sample_crates = record {
  parse_url =
      λ s. some (record { scheme = "http"; host_str = some s; path = "/health"; query = none });
  response_from_str = λ s. inl "not a response";
}

abbrev remote_request : GatewayTaskRequest
remote_request = record {
  binary_path = some "/opt/gateway";
  config_path = some "/etc/gateway.toml";
  work_dir = some "/var/lib/gateway";
  log_path = some "/var/log/gateway.log";
  state_path = none;
  health_url = some "example.org";
  max_bytes = none;
}

unsafe_gateway_example :
    (e : DomainError) × (run_gateway_task text_json sample_crates 420 "t9" "n1" "start_gateway"
        remote_request [] fleet
      ≡ some (err e, fleet))
unsafe_gateway_example =
    unsafe_gateway_refused text_json sample_crates remote_request 420 "t9" "n1" "start_gateway" []
      fleet refl refl
