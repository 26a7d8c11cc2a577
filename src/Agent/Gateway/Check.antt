-- ===== src/Agent/Gateway/Check.antt =====
-- `check_gateway` of agent/src/gateway_supervisor.rs.
use lightai_platform.Prelude.{ℕ, String, ◌&&◌, Option, none, some, ◌<>◌, leb, ltb, if◌then◌else◌}
use lightai_platform.Agent.Launch.{Outcome, ok, err}
use lightai_platform.Agent.Gateway.{
  failed, process_result, load_record, check_record, GatewayProcessRecord, GatewayTaskResult,
  Supervisor, GatewayNode, Health, no_client, request_failed, answered,
}

module _ (os : GatewayNode) where
  abbrev pub health_result : (ℕ → String) → GatewayProcessRecord → Health → GatewayTaskResult
  health_result show_status r (no_client e) =
      failed ("Gateway health check client initialization failed: " <> e)
  health_result show_status r (request_failed e) = failed ("Gateway health check failed: " <> e)
  health_result show_status r (answered status) =
      if leb 200 status && ltb status 300
      then process_result "running" ("Gateway health check succeeded: HTTP " <> show_status status)
          r
      else failed ("Gateway health check failed: HTTP " <> show_status status)

  abbrev pub check_running : (ℕ → String) → GatewayProcessRecord → Option String → GatewayTaskResult
  check_running show_status r (some e) = failed e
  check_running show_status r none = health_result show_status r (os.health r.health_url)

  abbrev pub check_loaded : (ℕ → String) → Outcome (Option GatewayProcessRecord) → GatewayTaskResult
  check_loaded show_status (err e) = failed ("Failed to load Gateway state: " <> e)
  check_loaded show_status (ok none) = failed "Gateway is not running"
  check_loaded show_status (ok (some r)) = check_running show_status r (check_record os r)

  -- the display of a status is that of the crate http
  unfoldable pub check_gateway : (ℕ → String) → Supervisor → GatewayTaskResult
  unfolding load_record check_record
  check_gateway show_status s = check_loaded show_status (load_record s.record_file)
