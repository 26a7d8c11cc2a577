-- ===== src/Agent/Gateway/Log.antt =====
-- `read_gateway_log` of agent/src/gateway_supervisor.rs.
use lightai_platform.Prelude.{
  ℕ, ◌*◌, min, String, Option, none, some, List, [], ◌∷◌, ◌<>◌, leb, length, if◌then◌else◌,
}
use lightai_platform.Agent.Launch.{Outcome, ok, err}
use lightai_platform.Agent.Gateway.{
  failed, first_error, load_record, GatewayProcessRecord, GatewayTaskResult, Supervisor,
  GatewayNode, Readers, LogFile, no_log, log_failed, log_bytes,
}
use lightai_platform.Agent.Gateway.Spec.{validate_controlled_path, validate_log_name}

-- the last `n` of the bytes, or all
unfoldable pub last_bytes : ℕ → List ℕ → List ℕ
last_bytes n [] = []
last_bytes n (b ∷ bs) =
    let rest = last_bytes n bs in if leb (length (b ∷ bs)) n then b ∷ bs else rest

module _ (os : GatewayNode) where
  module _ (rd : Readers) where
    abbrev pub log_result : LogFile → GatewayTaskResult
    log_result no_log = failed "Gateway log file not found"
    log_result (log_failed e) = failed ("Failed to read Gateway log file: " <> e)
    log_result (log_bytes bytes) = record {
      gateway_status = "log_available";
      message = "Gateway log read succeeded";
      process_id = none;
      health_url = none;
      log_tail = some (rd.sanitize bytes);
      command = none;
    }

    -- the bytes that are read of the log
    abbrev pub tail_of : ℕ → LogFile → LogFile
    tail_of max_bytes (log_bytes bytes) = log_bytes (last_bytes (min max_bytes (512 * 1024)) bytes)
    tail_of max_bytes no_log = no_log
    tail_of max_bytes (log_failed e) = log_failed e

    abbrev pub read_checked : ℕ → String → Option String → GatewayTaskResult
    read_checked max_bytes path (some e) = failed e
    read_checked max_bytes path none = log_result (tail_of max_bytes (os.read_log path))

    abbrev pub read_loaded : ℕ → Outcome (Option GatewayProcessRecord) → GatewayTaskResult
    read_loaded max_bytes (err e) = failed ("Failed to load Gateway state: " <> e)
    read_loaded max_bytes (ok none) = failed "Gateway is not running"
    read_loaded max_bytes (ok (some r)) = read_checked max_bytes r.log_path (
        first_error (validate_controlled_path rd "log_path" r.log_path)
          (validate_log_name rd r.log_path))

    unfoldable pub read_gateway_log : ℕ → Supervisor → GatewayTaskResult
    unfolding load_record validate_controlled_path last_bytes
    read_gateway_log max_bytes s = read_loaded max_bytes (load_record s.record_file)
