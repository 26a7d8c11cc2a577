-- ===== src/Server/ModelFiles/Verify.antt =====
-- The verification of a file by the agent of its node, before it is saved:
-- `verify_model_file_before_save` and the wait under it.
use lightai_platform.Prelude.{
  ℕ, String, not, Option, some, List, [], ◌∷◌, ◌==◌, and_then, keep_if, map_option, or_else,
  unwrap_or, if◌then◌else◌,
}
use lightai_platform.Prelude.Int.{ℤ}
use lightai_platform.Prelude.Text.{is_blank}
use lightai_platform.Server.Serde.{Serde}
use lightai_platform.Server.Tables.{Task}
use lightai_platform.Server.Exec.{bad_request, conflict, Exec, pure, fail, modify, ◌>>◌}
use lightai_platform.Server.Support.{node_online}
use lightai_platform.Server.AgentTasks.Sweep.{mark_task_timed_out}
use lightai_platform.Server.AgentTasks.Lifecycle.{queued_task}
use lightai_platform.Server.TaskRequest.{insert_task, answer_of, task_result, text_at}
use lightai_platform.Server.Waiting.{Waiting, Turn, then_wait, at_once, wait_for_task}

pub record VerifiedModelFile : Type 0 where
  pub size_bytes : Option ℤ
  pub path_type : Option String
  pub verified_at : ℕ

abbrev pub verification_timed_out : String
verification_timed_out = "Model file verification timed out; confirm Agent is online and retry"

module _ (js : Serde) where
  unfoldable pub verification_error_message : js.Value → String
  verification_error_message result =
      unwrap_or (keep_if (text_at js result "message") (λ s. not (is_blank s)))
        "Model file verification failed"

  -- what a verification that has succeeded says
  unfoldable pub verified_result : ℕ → js.Value → Exec VerifiedModelFile
  verified_result now result =
      if not (unwrap_or (text_at js result "file_status") "verified" == "verified")
      then fail (bad_request (verification_error_message result))
      else pure (record {
        size_bytes = and_then (js.get result "size_bytes") js.as_i64;
        path_type = or_else (text_at js result "path_type") (some "file");
        verified_at = now;
      })

  abbrev pub verification_failure : Task → String
  verification_failure t =
      unwrap_or (or_else (map_option verification_error_message (task_result js t)) t.error_message)
        "Model file verification failed"

  unfoldable pub verification_answer : ℕ → Task → Option (Exec VerifiedModelFile)
  verification_answer now t =
      answer_of t (verified_result now (unwrap_or (task_result js t) (js.object [])))
        (fail (bad_request (verification_failure t))) (fail (conflict verification_timed_out))

  unfoldable pub verification_give_up : String → ℕ → Exec VerifiedModelFile
  verification_give_up task_id now = do
    mark_task_timed_out now task_id
    fail (conflict verification_timed_out)

  unfoldable pub wait_for_model_file_verification : String → List Turn → Waiting VerifiedModelFile
  wait_for_model_file_verification task_id =
      wait_for_task verification_answer (verification_give_up task_id) task_id

  unfoldable pub verify_model_file_before_save :
      ℕ → String → String → String → List Turn → Waiting VerifiedModelFile
  verify_model_file_before_save now task_id node_id path turns =
      then_wait (node_online now node_id) (λ online.
        if not online
        then at_once (fail (conflict "Node Agent offline, cannot verify model file"))
        else then_wait
            (modify (
              insert_task (
                queued_task task_id node_id "verify_model_file"
                  (js.to_string (js.object (("path", js.string path) ∷ []))) now)))
            (λ _. wait_for_model_file_verification task_id turns))
