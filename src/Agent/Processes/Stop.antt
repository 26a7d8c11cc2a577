-- ===== src/Agent/Processes/Stop.antt =====
-- The stop of an instance, agent/src/tasks/process.rs, and of a container, agent/src/tasks/docker_backend.rs.
pub mod Laws
use lightai_platform.Prelude.{
  ℕ, String, not, Option, none, some, List, ◌∷◌, ◌==◌, ◌<>◌, if◌then◌else◌,
}
use lightai_platform.Prelude.Rows.{select_one, delete}
use lightai_platform.Agent.Launch.{Outcome, ok, err}
use lightai_platform.Agent.Processes.{
  is_docker, container_ref, check_record, ManagedProcessRecord, ProcessHandle, AgentNode, Commands,
  ModelInstanceTaskResult, StoreFile,
}
use lightai_platform.Agent.Processes.Store.{find, remove}

abbrev pub instance_failure : String → ModelInstanceTaskResult
instance_failure message = record { instance_status = "failed"; message = message; command = none }

abbrev pub stopped : String → Option String → ModelInstanceTaskResult
stopped message command = record {
  instance_status = "stopped";
  message = message;
  command = command;
}

-- the result, unless the record could not be removed
abbrev pub unless_left : String → Option String → ModelInstanceTaskResult → ModelInstanceTaskResult
unless_left what none result = result
unless_left what (some e) result = instance_failure (what <> e)

module _ (os : Commands) where
  abbrev pub stop_container : Option String → Option String
  stop_container none = some "missing container ID or name; cannot stop"
  stop_container (some ref) = os.docker_stop ref

  -- an error, if there is one, and the processes signalled
  unfoldable pub kill_managed : ManagedProcessRecord → List ℕ → Option String × List ℕ
  unfolding check_record
  kill_managed r signals =
      let check = check_record os r in
      if is_docker r
      then (stop_container (container_ref r), signals)
      else if not check.is_running
      then (some check.message, signals)
      else (os.kill r.process_id, r.process_id ∷ signals)

  -- what a removal leaves, its error dropped
  abbrev pub without : String → StoreFile → AgentNode → AgentNode
  without id file node = record node { store = some (remove os file id).1 }

  abbrev pub stop_docker_instance :
      String
      → ManagedProcessRecord
      → StoreFile
      → AgentNode
      → Option String
      → ModelInstanceTaskResult × AgentNode
  stop_docker_instance id r file node none =
      (stopped "Docker container stopped" r.command, without id file node)
  stop_docker_instance id r file node (some message) =
      (stopped message r.command, without id file node)

  -- the answer to a process that was killed by its record
  abbrev pub after_kill :
      String
      → ManagedProcessRecord
      → StoreFile
      → AgentNode
      → Option String × List ℕ
      → ModelInstanceTaskResult × AgentNode
  after_kill id r file node (some message, signals) =
      (stopped message r.command, record (without id file node) { signals = signals })
  after_kill id r file node (none, signals) = (
    unless_left "instance process stopped but failed to clean managed record: "
        (remove os file id).0
        (stopped "instance stopped using platform managed process record" r.command),
    record (without id file node) { signals = signals },
  )

  abbrev pub stop_by_record :
      String
      → StoreFile
      → AgentNode
      → Outcome (Option ManagedProcessRecord)
      → ModelInstanceTaskResult × AgentNode
  stop_by_record id file node (err e) =
      (instance_failure ("failed to read managed process record; refusing to stop: " <> e), node)
  stop_by_record id file node (ok none) = (
    instance_failure "no platform managed process record found; refusing to stop this instance",
    node,
  )
  stop_by_record id file node (ok (some r)) =
      after_kill id r file node (kill_managed r node.signals)

  abbrev pub stop_unregistered :
      String → AgentNode → Option StoreFile → ModelInstanceTaskResult × AgentNode
  stop_unregistered id node none = (
    instance_failure
        "no local process reference found and no managed process record configured; refusing to stop",
    node,
  )
  stop_unregistered id node (some file) = stop_by_record id file node (find file id)

  -- the answer to a child that was killed, with the registry already without it
  abbrev pub after_child :
      String
      → ProcessHandle
      → AgentNode
      → Option StoreFile
      → Option String
      → ModelInstanceTaskResult × AgentNode
  after_child id handle node file (some e) =
      (instance_failure ("failed to stop process: " <> e), node)
  after_child id handle node none none =
      (stopped "local instance process stopped" (some handle.command), node)
  after_child id handle node (some file) none = (
    unless_left "local instance process stopped but failed to clean managed record: "
        (remove os file id).0 (stopped "local instance process stopped" (some handle.command)),
    without id file node,
  )

  abbrev pub stop_registered :
      String → AgentNode → Option ProcessHandle → ModelInstanceTaskResult × AgentNode
  stop_registered id node none = stop_unregistered id node node.store
  stop_registered id node (some handle) =
      let left = record node { registry = delete (λ h. h.instance_id == id) node.registry } in
      after_child id handle left node.store (os.kill_child handle.process_id)

  -- the record of a container, which is looked for first
  abbrev pub docker_record : Outcome (Option ManagedProcessRecord) → Option ManagedProcessRecord
  docker_record (ok (some r)) = if is_docker r then some r else none
  docker_record (ok none) = none
  docker_record (err e) = none

  abbrev pub stop_stored :
      String
      → AgentNode
      → StoreFile
      → Option ManagedProcessRecord
      → ModelInstanceTaskResult × AgentNode
  stop_stored id node file none =
      stop_registered id node (select_one (λ h. h.instance_id == id) node.registry)
  stop_stored id node file (some r) =
      stop_docker_instance id r file node (stop_container (container_ref r))

  abbrev pub stop_with : String → AgentNode → Option StoreFile → ModelInstanceTaskResult × AgentNode
  stop_with id node none =
      stop_registered id node (select_one (λ h. h.instance_id == id) node.registry)
  stop_with id node (some file) = stop_stored id node file (docker_record (find file id))

  unfoldable pub stop_model_instance_with_store :
      String → AgentNode → ModelInstanceTaskResult × AgentNode
  unfolding find remove kill_managed
  stop_model_instance_with_store id node = stop_with id node node.store
