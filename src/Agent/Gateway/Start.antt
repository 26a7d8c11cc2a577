-- ===== src/Agent/Gateway/Start.antt =====
-- `start_gateway` of agent/src/gateway_supervisor.rs.
use lightai_platform.Prelude.{ℕ, String, Option, none, some, ◌∷◌, ◌<>◌, if◌then◌else◌, is_some}
use lightai_platform.Agent.Launch.{Outcome, ok, err}
use lightai_platform.Agent.Gateway.{
  failed, process_result, first_error, map_error, load_record, check_record, GatewayProcessSpec,
  GatewayProcessRecord, GatewayTaskResult, Supervisor, GatewayNode, Readers, RecordFile, stored,
  Spawned, spawn_failed, without_id, child,
}
use lightai_platform.Agent.Gateway.Spec.{validate, command_spec}

module _ (os : GatewayNode) where
  -- a record whose process runs
  abbrev pub running_record : Outcome (Option GatewayProcessRecord) → Option GatewayProcessRecord
  running_record (err e) = none
  running_record (ok none) = none
  running_record (ok (some r)) = if is_some (check_record os r) then none else some r

  -- the errors of the steps before the start of the program
  abbrev pub prepared : Option String
  prepared =
      first_error (map_error "Failed to prepare Gateway state path: " os.prepare_state_path) (
        first_error (map_error "Failed to prepare Gateway log path: " os.prepare_log_path) (
          first_error (map_error "Failed to open Gateway log file: " os.open_log)
            (map_error "Failed to clone Gateway log file: " os.clone_log)))

  abbrev pub recorded :
      GatewayProcessRecord
      → Supervisor
      → Option (String × RecordFile)
      → GatewayTaskResult × Supervisor
  recorded r s none =
      (process_result "running" "Gateway started" r, record s { record_file = stored r })
  recorded r s (some (e, left)) =
      (failed ("Failed to save Gateway state: " <> e), record s { record_file = left })

  module _ (rd : Readers) where
    abbrev pub record_of : GatewayProcessSpec → ℕ → GatewayProcessRecord
    record_of spec pid =
        let command = command_spec rd spec in
        record {
          process_id = pid;
          process_start_time = os.process_start_time pid;
          health_url = spec.health_url;
          command = command.program <> (" " <> rd.join command.args);
          log_path = spec.log_path;
          started_at = os.now;
        }

    abbrev pub after_spawn :
        GatewayProcessSpec → Supervisor → Spawned → GatewayTaskResult × Supervisor
    after_spawn spec s (spawn_failed e) = (failed ("Failed to start Gateway: " <> e), s)
    after_spawn spec s without_id = (failed "Failed to start Gateway: missing child process id", s)
    after_spawn spec s (child pid) =
        let r = record_of spec pid in
        recorded r (record s { spawned = pid ∷ s.spawned }) (os.save r)

    abbrev pub start_prepared :
        GatewayProcessSpec → Supervisor → Option String → GatewayTaskResult × Supervisor
    start_prepared spec s (some e) = (failed e, s)
    start_prepared spec s none = after_spawn spec s (os.spawn (command_spec rd spec))

    abbrev pub start_unless_running :
        GatewayProcessSpec
        → Supervisor
        → Option GatewayProcessRecord
        → GatewayTaskResult × Supervisor
    start_unless_running spec s (some r) =
        (process_result "running" "Gateway is already running" r, s)
    start_unless_running spec s none = start_prepared spec s prepared

    abbrev pub start_valid :
        GatewayProcessSpec → Supervisor → Option String → GatewayTaskResult × Supervisor
    start_valid spec s (some e) = (failed e, s)
    start_valid spec s none =
        start_unless_running spec s (running_record (load_record s.record_file))

    unfoldable pub start_gateway : GatewayProcessSpec → Supervisor → GatewayTaskResult × Supervisor
    unfolding validate load_record check_record
    start_gateway spec s = start_valid spec s (validate rd spec)
