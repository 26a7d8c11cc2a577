-- ===== src/Agent/Gateway/Stop.antt =====
-- `stop_gateway` of agent/src/gateway_supervisor.rs.
use lightai_platform.Prelude.{String, Option, none, some, ◌∷◌, ◌<>◌}
use lightai_platform.Agent.Launch.{Outcome, ok, err}
use lightai_platform.Agent.Gateway.{
  failed, process_result, load_record, check_record, GatewayProcessRecord, GatewayTaskResult,
  Supervisor, GatewayNode,
}

module _ (os : GatewayNode) where
  abbrev pub stop_signalled :
      GatewayProcessRecord → Supervisor → Option String → GatewayTaskResult × Supervisor
  stop_signalled r s (some e) = (failed e, s)
  stop_signalled r s none = (
    process_result "stopped" "Gateway stopped" r,
    record s { record_file = os.remove_file s.record_file },
  )

  -- the signal to a process that runs
  abbrev pub stop_checked :
      GatewayProcessRecord → Supervisor → Option String → GatewayTaskResult × Supervisor
  stop_checked r s (some not_running) = stop_signalled r s none
  stop_checked r s none =
      stop_signalled r (record s { signals = r.process_id ∷ s.signals }) (os.kill r.process_id)

  abbrev pub not_running : GatewayTaskResult
  not_running = record {
    gateway_status = "stopped";
    message = "Gateway is not running";
    process_id = none;
    health_url = none;
    log_tail = none;
    command = none;
  }

  abbrev pub stop_loaded :
      Supervisor → Outcome (Option GatewayProcessRecord) → GatewayTaskResult × Supervisor
  stop_loaded s (err e) = (failed ("Failed to load Gateway state: " <> e), s)
  stop_loaded s (ok none) = (not_running, s)
  stop_loaded s (ok (some r)) = stop_checked r s (check_record os r)

  unfoldable pub stop_gateway : Supervisor → GatewayTaskResult × Supervisor
  unfolding load_record check_record
  stop_gateway s = stop_loaded s (load_record s.record_file)
