-- ===== src/Server/Instances/Run.antt =====
-- `run_local_instance_task`, `wait_for_model_instance_task`, and start, stop and test, of
-- server/src/domain/instances.rs. The id of the new task and the clock are arguments.
pub mod Laws
use lightai_platform.Prelude.{
  ℕ, String, Bool, not, ◌&&◌, Option, none, some, List, [], ◌∷◌, ◌++◌, ◌==◌, and_then, or_else,
  is_some_and, unwrap_or, map_option, if◌then◌else◌,
}
use lightai_platform.Prelude.Rows.{insert, select_one}
use lightai_platform.Server.Serde.{Serde}
use lightai_platform.Server.Tables.{Db, Task, Instance, instance_is, Runtime, ModelFile}
use lightai_platform.Server.Exec.{
  bad_request, conflict, Exec, pure, fail, gets, modify, need, refuse_if, transaction, ◌>>=◌, ◌>>◌,
}
use lightai_platform.Server.Support.{node_online}
use lightai_platform.Server.InstanceView.{
  InstanceView, model_instance, update_instance, update_instance_check,
}
use lightai_platform.Server.TaskRequest.{insert_task}
use lightai_platform.Server.Waiting.{Waiting, Turn, then_wait, wait_for_task}
use lightai_platform.Server.AgentTasks.Sweep.{mark_task_timed_out}
use lightai_platform.Server.AgentTasks.Lifecycle.{queued_task}
use lightai_platform.Server.Instances.Params.{
  runtime_environment, runtime_environment_usable, verified_model_file_for_instance,
  parse_instance_params,
}

abbrev pub pending : String → ℕ → Instance → Instance
pending status now i = record i { status = status; last_error = none; updated_at = now }

module _ (js : Serde) where
  -- `json!` of an optional text
  abbrev pub optional : Option String → js.Value
  optional none = js.null
  optional (some s) = js.string s

  abbrev shared_fields :
      String → String → Runtime → InstanceView → js.Value → List (String × js.Value)
  shared_fields id runtime_id env i params =
      ("instance_id", js.string id)
      ∷ ("runtime_environment_id", js.string runtime_id)
      ∷ ("backend", js.string env.backend)
      ∷ ("deploy_type", js.string env.deploy_type)
      ∷ ("binary_path", optional env.binary_path)
      ∷ ("working_dir", optional env.working_dir)
      ∷ ("log_dir", optional env.log_dir)
      ∷ ("base_url", optional i.base_url)
      ∷ ("endpoint_url", optional i.endpoint_url)
      ∷ ("params_json", js.string (js.to_string params))
      ∷ []

  abbrev file_fields : Runtime → String → ModelFile → List (String × js.Value)
  file_fields env model_file_id file =
      ("docker_image", optional env.docker_image)
      ∷ ("model_file_id", js.string model_file_id)
      ∷ ("model_path", js.string file.path)
      ∷ ("model_path_type", optional file.path_type)
      ∷ []

  -- the fields of the payload; JSON objects do not order their fields
  unfoldable pub task_fields :
      String → String → Runtime → InstanceView → js.Value → Exec (List (String × js.Value))
  task_fields id runtime_id env i params =
      if env.backend == "ollama" then pure (shared_fields id runtime_id env i params) else do
        model_file_id ← need i.model_file_id (bad_request "Local instance missing model file")
        file ← verified_model_file_for_instance model_file_id
        pure (shared_fields id runtime_id env i params ++ file_fields env model_file_id file)

  -- `payload["key"] = value`, if there is a value
  abbrev set_if : js.Value → String → Option js.Value → js.Value
  set_if payload key none = payload
  set_if payload key (some value) = js.set payload key value

  unfoldable pub task_payload : Runtime → InstanceView → List (String × js.Value) → js.Value
  task_payload env i fields =
      set_if (set_if (js.object fields) "runtime_params" (and_then env.params_json js.from_str))
        "model_name" (map_option js.string i.model_definition_name)

  -- from the checks to the commit
  unfoldable pub queue_instance_task : ℕ → String → String → String → String → Exec Unit
  queue_instance_task now id task_kind pending_status task_id = do
    instance_ ← model_instance now id
    refuse_if (not (instance_.deploy_type == "local"))
        (bad_request "External instances are not started or stopped by the platform")
    node_id ← need instance_.node_id (bad_request "Local instance missing node")
    online ← node_online now node_id
    refuse_if (not online) (conflict "Node Agent offline, cannot execute local instance task")
    runtime_id ←
        need instance_.runtime_environment_id
          (bad_request "Local instance missing runtime environment")
    env ← runtime_environment runtime_id
    refuse_if (not (runtime_environment_usable env.check_status))
        (bad_request "Runtime environment has not passed Agent check")
    params ← parse_instance_params js instance_.params_json
    fields ← task_fields id runtime_id env instance_ params
    transaction (do
      modify (
          insert_task (
            queued_task task_id node_id task_kind (js.to_string (task_payload env instance_ fields))
              now))
      modify (update_instance id (pending pending_status now)))

  abbrev failure_message : Task → String
  failure_message t =
      unwrap_or
        (or_else
          (and_then (and_then t.result_json js.from_str)
            (λ v. and_then (js.get v "message") js.as_str))
          t.error_message)
        "Local instance task failed"

  -- the `match` on the status of the task
  unfoldable pub instance_answer : String → ℕ → Task → Option (Exec InstanceView)
  instance_answer id now t =
      if t.status == "succeeded"
      then some (model_instance now id)
      else if t.status == "failed"
      then some (fail (conflict (failure_message t)))
      else if t.status == "timed_out"
      then some (fail (conflict "Local instance task timed out; confirm Agent is online and retry"))
      else none

  -- the deadline of MODEL_INSTANCE_TASK_TIMEOUT_SECS has passed
  unfoldable pub instance_give_up : String → String → ℕ → Exec InstanceView
  instance_give_up id task_id now = do
    mark_task_timed_out now task_id
    checked ← update_instance_check now id "failed" (some "local instance task timed out")
    fail (conflict "Local instance task timed out; confirm Agent is online and retry")

  unfoldable pub wait_for_model_instance_task : String → String → List Turn → Waiting InstanceView
  wait_for_model_instance_task id task_id =
      wait_for_task (instance_answer id) (instance_give_up id task_id) task_id

  unfoldable pub run_local_instance_task :
      ℕ → String → String → String → String → List Turn → Waiting InstanceView
  run_local_instance_task now id task_kind pending_status task_id turns =
      then_wait (queue_instance_task now id task_kind pending_status task_id)
        (λ _. wait_for_model_instance_task id task_id turns)

  unfoldable pub start_model_instance : ℕ → String → String → List Turn → Waiting InstanceView
  unfolding run_local_instance_task
  start_model_instance now id task_id turns =
      run_local_instance_task now id "start_model_instance" "starting" task_id turns

  unfoldable pub stop_model_instance : ℕ → String → String → List Turn → Waiting InstanceView
  unfolding run_local_instance_task
  stop_model_instance now id task_id turns =
      run_local_instance_task now id "stop_model_instance" "stopping" task_id turns
