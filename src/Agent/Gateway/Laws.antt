-- ===== src/Agent/Gateway/Laws.antt =====
-- What the supervisor of the gateway promises.
pub mod Once
use lightai_platform.Prelude.{
  ℕ, ◌*◌, ◌≤◌, min, String, ◌≡◌, refl, ap, true, Option, none, some, List, [], ◌∷◌, length, arith,
  Option-cases, inl, inr, ◌⊎◌,
}
use lightai_platform.Agent.Gateway.{
  process_result, load_record, same_start, check_record, GatewayProcessSpec, GatewayProcessRecord,
  GatewayTaskResult, Supervisor, GatewayNode, Readers, RecordFile, missing, unreadable, stored,
  Spawned, spawn_failed, without_id, child, LogFile, no_log, log_failed, log_bytes,
}
use lightai_platform.Agent.Gateway.Spec.{validate, command_spec}
use lightai_platform.Agent.Gateway.Start.{
  prepared, recorded, record_of, after_spawn, running_record, start_prepared, start_unless_running,
  start_valid, start_gateway,
}
use lightai_platform.Agent.Gateway.Log.{last_bytes, tail_of}
use lightai_platform.Agent.Gateway.Stop.{stop_signalled, stop_checked, stop_loaded, stop_gateway}

module _ (os : GatewayNode) where
  -- The process of the record is alive, and started when the record says, if it says when.
  abbrev pub Confirmed : GatewayProcessRecord → Type 0
  Confirmed r =
      (t : ℕ) × (os.process_start_time r.process_id ≡ some t)
      × (same_start r.process_start_time t ≡ true)

  pub check-Confirmed : (r : GatewayProcessRecord) → check_record os r ≡ none → Confirmed r
  unfolding check_record
  check-Confirmed r h = elim (Option-cases (os.process_start_time r.process_id)) [
    | inl e ↦ ground (arith, h, e)
    | inr (t, e) ↦ (t, e, ground (arith, h, e))
  ]

  pub Confirmed-check : (r : GatewayProcessRecord) → Confirmed r → check_record os r ≡ none
  unfolding check_record
  Confirmed-check r (t, e, same) = ground (arith, e, same)

  stop_signalled_lem :
      (r : GatewayProcessRecord) (s : Supervisor) (o : Option String)
      → (stop_signalled os r s o).1.signals ≡ s.signals
  stop_signalled_lem r s none = refl
  stop_signalled_lem r s (some e) = refl

  -- /bin/kill was not run, or it was on the process of the stored record
  abbrev pub Signalled : Supervisor → Supervisor → Type 0
  Signalled s after =
      (after.signals ≡ s.signals)
      ⊎ ((r : GatewayProcessRecord) × (s.record_file ≡ stored r)
          × (after.signals ≡ r.process_id ∷ s.signals)
          × Confirmed r)

  checked-Signalled :
      (r : GatewayProcessRecord) (s : Supervisor) (o : Option String)
      → s.record_file ≡ stored r
      → check_record os r ≡ o
      → Signalled s (stop_checked os r s o).1
  checked-Signalled r s (some e) f k = inl refl
  checked-Signalled r s none f k = inr (
    r,
    f,
    stop_signalled_lem r (record s { signals = r.process_id ∷ s.signals }) (os.kill r.process_id),
    check-Confirmed r k,
  )

  file-Signalled :
      (s : Supervisor) (file : RecordFile)
      → s.record_file ≡ file
      → Signalled s (stop_loaded os s (load_record file)).1
  unfolding load_record
  file-Signalled s missing f = inl refl
  file-Signalled s (unreadable e) f = inl refl
  file-Signalled s (stored r) f = checked-Signalled r s (check_record os r) f refl

  -- The stop of the gateway runs /bin/kill on no process, or on that of the stored record, and only
  -- while a process of that number is alive which started when the record says, if it says when.
  pub stop_gateway-Signalled : (s : Supervisor) → Signalled s (stop_gateway os s).1
  unfolding stop_gateway
  stop_gateway-Signalled s = file-Signalled s s.record_file refl

  module _ (rd : Readers) where
    -- nothing was started, or one process was and the file has its record
    abbrev pub Tracked : Supervisor → GatewayTaskResult × Supervisor → Type 0
    Tracked s x =
        (x.1.spawned ≡ s.spawned)
        ⊎ ((r : GatewayProcessRecord) × (x.1.spawned ≡ r.process_id ∷ s.spawned)
            × (x.1.record_file ≡ stored r))

    after_spawn-Tracked :
        (spec : GatewayProcessSpec) (s : Supervisor) (o : Spawned)
        → (after_spawn os rd spec s o).0.gateway_status ≡ "running"
        → Tracked s (after_spawn os rd spec s o)
    after_spawn-Tracked spec s (spawn_failed e) h = inl refl
    after_spawn-Tracked spec s without_id h = inl refl
    after_spawn-Tracked spec s (child pid) h = saved-Tracked (os.save (record_of os rd spec pid)) h
      where
        saved-Tracked :
            (o : Option (String × RecordFile))
            → (recorded os
                (record_of os rd spec pid)
                (record s { spawned = pid ∷ s.spawned })
                o).0.gateway_status
              ≡ "running"
            → Tracked s
                (recorded os (record_of os rd spec pid) (record s { spawned = pid ∷ s.spawned }) o)
        saved-Tracked none k = inr (record_of os rd spec pid, refl, refl)
        saved-Tracked (some (e, left)) k = cc

    unless_running-Tracked :
        (spec : GatewayProcessSpec) (s : Supervisor) (o : Option GatewayProcessRecord)
        → (start_unless_running os rd spec s o).0.gateway_status ≡ "running"
        → Tracked s (start_unless_running os rd spec s o)
    unless_running-Tracked spec s (some r) h = inl refl
    unless_running-Tracked spec s none h = prepared-Tracked (prepared os) h
      where
        prepared-Tracked :
            (o : Option String)
            → (start_prepared os rd spec s o).0.gateway_status ≡ "running"
            → Tracked s (start_prepared os rd spec s o)
        prepared-Tracked none k = after_spawn-Tracked spec s _ k
        prepared-Tracked (some e) k = inl refl

    -- A start that answers that the gateway is running has started no process, or one whose record is
    -- stored, so that a later stop finds it.
    pub start_gateway-Tracked :
        (spec : GatewayProcessSpec) (s : Supervisor)
        → (start_gateway os rd spec s).0.gateway_status ≡ "running"
        → Tracked s (start_gateway os rd spec s)
    unfolding start_gateway
    start_gateway-Tracked spec s h = valid-Tracked (validate rd spec) h
      where
        valid-Tracked :
            (o : Option String)
            → (start_valid os rd spec s o).0.gateway_status ≡ "running"
            → Tracked s (start_valid os rd spec s o)
        valid-Tracked none k = unless_running-Tracked spec s _ k
        valid-Tracked (some e) k = inl refl

    -- A start that runs the program and then fails to store its record answers with a failure, and
    -- the process that it started goes on without a record.
    pub unsaved_gateway_is_lost :
        (spec : GatewayProcessSpec) (s : Supervisor) (pid : ℕ) (e : String)
        → validate rd spec ≡ none
        → s.record_file ≡ missing
        → prepared os ≡ none
        → os.spawn (command_spec rd spec) ≡ child pid
        → os.save (record_of os rd spec pid) ≡ some (e, missing)
        → ((start_gateway os rd spec s).0.gateway_status ≡ "failed")
          × ((start_gateway os rd spec s).1.spawned ≡ pid ∷ s.spawned)
          × ((start_gateway os rd spec s).1.record_file ≡ missing)
    unfolding start_gateway load_record
    unsaved_gateway_is_lost spec s pid e valid file ready started lost =
        rw (valid, file, ready, started, lost) (refl, refl, refl)

last_bytes_bound : (n : ℕ) (bs : List ℕ) → length (last_bytes n bs) ≤ n
unfolding last_bytes
last_bytes_bound n [] = omega arith
last_bytes_bound n (b ∷ bs) = ground (arith, last_bytes_bound n bs)

-- what is read of a log
abbrev pub bytes_of : LogFile → List ℕ
bytes_of no_log = []
bytes_of (log_failed e) = []
bytes_of (log_bytes bs) = bs

-- No more of the log is read than is asked for, and never more than 512 KiB.
pub gateway_log_bound :
    (os : GatewayNode) (rd : Readers) (max_bytes : ℕ) (file : LogFile)
    → (length (bytes_of (tail_of os rd max_bytes file)) ≤ max_bytes)
      × (length (bytes_of (tail_of os rd max_bytes file)) ≤ 512 * 1024)
gateway_log_bound os rd max_bytes no_log = (omega arith, omega arith)
gateway_log_bound os rd max_bytes (log_failed e) = (omega arith, omega arith)
gateway_log_bound os rd max_bytes (log_bytes bs) =
    let h = last_bytes_bound (min max_bytes (512 * 1024)) bs in (omega (arith, h), omega (arith, h))
