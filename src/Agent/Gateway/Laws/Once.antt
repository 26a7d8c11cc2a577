-- ===== src/Agent/Gateway/Laws/Once.antt =====
-- Two starts of the gateway in a row, agent/src/gateway_supervisor.rs.
use lightai_platform.Prelude.{
  ℕ, String, ◌≡◌, refl, ap, true, Option, none, some, ◌∷◌, arith, Option-cases, inl, inr,
}
use lightai_platform.Agent.Gateway.{
  process_result, load_record, same_start, check_record, GatewayProcessSpec, GatewayProcessRecord,
  GatewayTaskResult, Supervisor, GatewayNode, Readers, RecordFile, missing, unreadable, stored,
  Spawned, spawn_failed, without_id, child,
}
use lightai_platform.Agent.Gateway.Spec.{validate, command_spec}
use lightai_platform.Agent.Gateway.Start.{
  prepared, recorded, record_of, after_spawn, running_record, start_prepared, start_unless_running,
  start_valid, start_gateway,
}
use lightai_platform.Agent.Gateway.Laws.{Confirmed, check-Confirmed, Confirmed-check}

module _ (os : GatewayNode) where
  module _ (rd : Readers) where
    -- a start while the process of the stored record runs
    already_running :
        (spec : GatewayProcessSpec) (s : Supervisor) (r : GatewayProcessRecord)
        → validate rd spec ≡ none
        → s.record_file ≡ stored r
        → Confirmed os r
        → start_gateway os rd spec s ≡ (process_result "running" "Gateway is already running" r, s)
    unfolding start_gateway load_record
    already_running spec s r valid file confirmed =
        let same = Confirmed-check os r confirmed in rw (valid, file, same) refl

    -- the file has a record of this process, which agrees with its start
    abbrev Recorded : ℕ → ℕ → GatewayTaskResult × Supervisor → Type 0
    Recorded pid t x =
        (r : GatewayProcessRecord) × (x.1.record_file ≡ stored r)
        × (r.process_id ≡ pid)
        × (same_start r.process_start_time t ≡ true)

    running_inv :
        (f : RecordFile) (r : GatewayProcessRecord)
        → running_record os (load_record f) ≡ some r
        → (f ≡ stored r) × (check_record os r ≡ none)
    unfolding load_record
    running_inv missing r h = cc
    running_inv (unreadable e) r h = cc
    running_inv (stored x) r h = elim (Option-cases (check_record os x)) [
      | inl e ↦ let same : x ≡ r = ground (arith, h, e) in (ap stored same, rw same at e)
      | inr (m, e) ↦ ground (arith, h, e)
    ]

    module _ (spec : GatewayProcessSpec) (s : Supervisor) (pid t : ℕ)
        (alive : os.process_start_time pid ≡ some t) where
      recorded-Recorded :
          (child_id : ℕ) (o : Option (String × RecordFile))
          → let x =
              recorded os
                (record_of os rd spec child_id)
                (record s { spawned = child_id ∷ s.spawned })
                o in
            x.0.gateway_status ≡ "running" → x.0.process_id ≡ some pid → Recorded pid t x
      recorded-Recorded child_id none h k =
          let same : child_id ≡ pid = ground (arith, k) in
          (record_of os rd spec child_id, refl, same, rw same (rw alive (ground arith)))
      recorded-Recorded child_id (some (e, left)) h k = cc

      after_spawn-Recorded :
          (o : Spawned)
          → (after_spawn os rd spec s o).0.gateway_status ≡ "running"
          → (after_spawn os rd spec s o).0.process_id ≡ some pid
          → Recorded pid t (after_spawn os rd spec s o)
      after_spawn-Recorded (spawn_failed e) h k = cc
      after_spawn-Recorded without_id h k = cc
      after_spawn-Recorded (child child_id) h k =
          recorded-Recorded child_id (os.save (record_of os rd spec child_id)) h k

      prepared-Recorded :
          (o : Option String)
          → (start_prepared os rd spec s o).0.gateway_status ≡ "running"
          → (start_prepared os rd spec s o).0.process_id ≡ some pid
          → Recorded pid t (start_prepared os rd spec s o)
      prepared-Recorded none h k = after_spawn-Recorded (os.spawn (command_spec rd spec)) h k
      prepared-Recorded (some e) h k = cc

      unless_running-Recorded :
          (o : Option GatewayProcessRecord)
          → running_record os (load_record s.record_file) ≡ o
          → (start_unless_running os rd spec s o).0.gateway_status ≡ "running"
          → (start_unless_running os rd spec s o).0.process_id ≡ some pid
          → Recorded pid t (start_unless_running os rd spec s o)
      unless_running-Recorded none e h k = prepared-Recorded (prepared os) h k
      unless_running-Recorded (some r) e h k =
          let (file, check) = running_inv s.record_file r e in
          let (started, at, same) = check-Confirmed os r check in
          let named : r.process_id ≡ pid = ground (arith, k) in
          let when : started ≡ t = ground (arith, at, alive, named) in
          (r, file, named, rw when at same)

      valid-Recorded :
          (o : Option String)
          → (start_valid os rd spec s o).0.gateway_status ≡ "running"
          → (start_valid os rd spec s o).0.process_id ≡ some pid
          → (o ≡ none) × Recorded pid t (start_valid os rd spec s o)
      valid-Recorded none h k = (refl, unless_running-Recorded _ refl h k)
      valid-Recorded (some e) h k = cc

      start-Recorded :
          (start_gateway os rd spec s).0.gateway_status ≡ "running"
          → (start_gateway os rd spec s).0.process_id ≡ some pid
          → (validate rd spec ≡ none) × Recorded pid t (start_gateway os rd spec s)
      unfolding start_gateway
      start-Recorded h k = valid-Recorded (validate rd spec) h k

-- A gateway is started once: where a start answers that the gateway is running as a process, whether
-- it started that process or found it, and the process is alive, with the same start, at a second
-- start with the same specification, then the second start answers with the same process and changes
-- nothing, so that it starts no other.
pub start_gateway_once :
    (os later : GatewayNode) (rd : Readers) (spec : GatewayProcessSpec) (s : Supervisor) (pid t : ℕ)
    → let first = start_gateway os rd spec s in
      first.0.gateway_status ≡ "running"
      → first.0.process_id ≡ some pid
      → os.process_start_time pid ≡ some t
      → later.process_start_time pid ≡ some t
      → let second = start_gateway later rd spec first.1 in
        (second.0.gateway_status ≡ "running")
        × (second.0.process_id ≡ some pid)
        × (second.1 ≡ first.1)
start_gateway_once os later rd spec s pid t h k alive still =
    let (valid, (r, file, named, same)) = start-Recorded os rd spec s pid t alive h k in
    let first = start_gateway os rd spec s in
    rw (already_running later rd spec first.1 r valid file (t, rw named still, same))
      (refl, ap some named, refl)
