-- ===== src/Server/Runtimes/Check.antt =====
-- The check of a runtime environment by the agent of its node, before it is saved:
-- `check_runtime_environment_before_save` of server/src/domain/runtimes.rs.
use lightai_platform.Prelude.{
  ℕ, String, not, Option, none, some, List, [], ◌∷◌, keep_if, unwrap_or, if◌then◌else◌,
}
use lightai_platform.Prelude.Text.{is_blank}
use lightai_platform.Server.Serde.{Serde}
use lightai_platform.Server.Tables.{Task}
use lightai_platform.Server.Exec.{bad_request, conflict, Exec, pure, fail, modify, ◌>>◌}
use lightai_platform.Server.AgentTasks.Sweep.{mark_task_timed_out}
use lightai_platform.Server.AgentTasks.Lifecycle.{queued_task}
use lightai_platform.Server.TaskRequest.{insert_task, answer_of, task_result, text_at}
use lightai_platform.Server.Waiting.{Waiting, Turn, then_wait, wait_for_task}
use lightai_platform.Server.Instances.Params.{runtime_environment_usable}
use lightai_platform.Server.Instances.Run.{optional}
use lightai_platform.Server.Runtimes.Request.{RuntimeEnvironmentRequest}

pub record CheckedRuntimeEnvironment : Type 0 where
  pub check_status : String
  pub version : Option String
  pub message : String
  pub checked_at : ℕ

unfoldable pub ollama_runtime_config_check : ℕ → CheckedRuntimeEnvironment
ollama_runtime_config_check now = record {
  check_status = "available";
  version = none;
  message =
      "Ollama runtime config saved; daemon availability is checked when listing models or starting instances";
  checked_at = now;
}

abbrev pub check_timed_out : String
check_timed_out = "Runtime check timed out; confirm Agent is online and retry"

module _ (js : Serde) where
  -- the message of a result, if it is not blank
  unfoldable pub runtime_check_message : js.Value → String
  runtime_check_message result =
      unwrap_or (keep_if (text_at js result "message") (λ s. not (is_blank s)))
        "Runtime check failed"

  -- the result of the task, or an empty object
  abbrev pub result_or_empty : Task → js.Value
  result_or_empty t = unwrap_or (task_result js t) (js.object [])

  -- what a check that has succeeded says
  unfoldable pub checked_result : ℕ → js.Value → Exec CheckedRuntimeEnvironment
  checked_result now result =
      let check_status = unwrap_or (text_at js result "check_status") "available" in
      if not (runtime_environment_usable (some check_status))
      then fail (bad_request (runtime_check_message result))
      else pure (record {
        check_status = check_status;
        version = text_at js result "version";
        message = runtime_check_message result;
        checked_at = now;
      })

  unfoldable pub check_answer : ℕ → Task → Option (Exec CheckedRuntimeEnvironment)
  check_answer now t =
      answer_of t (checked_result now (result_or_empty t))
        (fail (bad_request (runtime_check_message (result_or_empty t))))
        (fail (conflict check_timed_out))

  unfoldable pub check_give_up : String → ℕ → Exec CheckedRuntimeEnvironment
  check_give_up task_id now = do mark_task_timed_out now task_id; fail (conflict check_timed_out)

  -- the payload of the task
  abbrev pub check_payload : RuntimeEnvironmentRequest → js.Value
  check_payload r = js.object (
      ("name", js.string r.name)
      ∷ ("backend", js.string r.backend)
      ∷ ("deploy_type", js.string r.deploy_type)
      ∷ ("version", optional js r.version)
      ∷ ("binary_path", optional js r.binary_path)
      ∷ ("docker_image", optional js r.docker_image)
      ∷ ("working_dir", optional js r.working_dir)
      ∷ ("params_json", optional js r.params_json)
      ∷ [])

  unfoldable pub check_runtime_environment_before_save :
      ℕ
      → String
      → String
      → RuntimeEnvironmentRequest
      → List Turn
      → Waiting CheckedRuntimeEnvironment
  check_runtime_environment_before_save now task_id node_id r turns =
      then_wait
        (modify (
          insert_task (
            queued_task task_id node_id "check_runtime_environment" (js.to_string (check_payload r))
              now)))
        (λ _. wait_for_task check_answer (check_give_up task_id) task_id turns)
