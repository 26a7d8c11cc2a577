-- ===== src/Server/AgentTasks/Record.antt =====
-- `record_agent_task_result` of server/src/agent_tasks.rs: the result that an agent posts.
pub mod Laws
pub mod Shown
pub mod Effect
use Prim.Native.Nat.{zero, suc}
use Prim.Native.String
use lightai_platform.Prelude.{
  ℕ, String, ◌<>◌, Bool, true, false, not, ◌&&◌, ◌||◌, Option, none, some, List, [], ◌∷◌, ◌==◌,
  if◌then◌else◌, or_else, and_then, map_option, unwrap_or,
}
use lightai_platform.Prelude.Int.{ℤ}
use lightai_platform.Prelude.Rows.{select_one}
use lightai_platform.Prelude.Text.{is_blank, one_of}
use lightai_platform.Server.Serde.{Serde}
use lightai_platform.Server.Tables.{Db, Task, task_is, ModelFile, Instance}
use lightai_platform.Server.Exec.{
  not_found, bad_request, internal, Exec, pure, gets, modify, need, refuse_if, transaction, ◌>>=◌,
  ◌>>◌,
}
use lightai_platform.Server.AgentTasks.Sweep.{
  is_instance_kind, update_tasks, update_file, update_trash,
}
use lightai_platform.Server.InstanceView.{update_instance}

-- AgentTaskResultRequest, over the type of JSON values
pub record AgentTaskResultRequest (V : Type 0) : Type 0 where
  pub node_id : String
  pub status : String
  pub result : V

-- `value.chars().take(n).collect()`
unfoldable pub take_chars : ℕ → String → String
take_chars zero s = ""
take_chars (suc n) String.[] = ""
take_chars (suc n) (String.◌∷◌ c s) = String.◌∷◌ c (take_chars n s)

module _ (js : Serde) where
  -- `result.get(key).and_then(|value| value.as_str())`, and the like for integers
  abbrev pub result_str : js.Value → String → Option String
  result_str v key = and_then (js.get v key) js.as_str

  abbrev pub result_i64 : js.Value → String → Option ℤ
  result_i64 v key = and_then (js.get v key) js.as_i64

  abbrev pub succeeded : AgentTaskResultRequest js.Value → Bool
  succeeded request = request.status == "succeeded"

  abbrev pub completed : ℕ → AgentTaskResultRequest js.Value → Task → Task
  completed now request t = record t {
    status = request.status;
    result_json = some (js.to_string request.result);
    error_message =
        if request.status == "failed" then result_str request.result "message" else none;
    completed_at = some now;
    updated_at = now;
  }

  -- the task's payload, which the result of four kinds of task needs
  abbrev task_payload : Task → Exec js.Value
  task_payload t = need (js.from_str t.payload_json) (internal "payload_json")

  abbrev pub file_status : AgentTaskResultRequest js.Value → String
  file_status request =
      unwrap_or (result_str request.result "file_status")
        (if succeeded request then "verified" else "failed")

  abbrev pub verified : ℕ → AgentTaskResultRequest js.Value → ModelFile → ModelFile
  verified now request f = record f {
    status = file_status request;
    size_bytes = result_i64 request.result "size_bytes";
    path_type = some (unwrap_or (result_str request.result "path_type") "file");
    last_verified_at = some now;
    last_error =
        if file_status request == "verified"
        then none
        else or_else (result_str request.result "message") (some "File verification failed");
    updated_at = now;
  }

  abbrev pub verify_file : ℕ → AgentTaskResultRequest js.Value → Option String → Exec Unit
  verify_file now request none = pure tt
  verify_file now request (some id) = modify (update_file id (verified now request))

  unfoldable pub record_verify : ℕ → AgentTaskResultRequest js.Value → Task → Exec Unit
  record_verify now request t = do
    payload ← task_payload t
    verify_file now request (result_str payload "model_file_id")

  unfoldable pub record_cleanup : ℕ → AgentTaskResultRequest js.Value → Task → Exec Unit
  record_cleanup now request t = do
    payload ← task_payload t
    trash_id ← need (result_str payload "trash_id") (bad_request "task payload is invalid")
    modify (
        update_trash trash_id (λ item.
          if succeeded request
          then record item {
            status = "cleaned";
            file_deleted_at = some now;
            last_error = none;
            updated_at = now;
          }
          else record item {
            status = "cleanup_failed";
            last_error =
                some (unwrap_or (result_str request.result "message") "File cleanup failed");
            updated_at = now;
          }))

  abbrev pub instance_status : String → AgentTaskResultRequest js.Value → String
  instance_status kind request = unwrap_or (result_str request.result "instance_status") (
      if succeeded request
      then (if kind == "stop_model_instance" then "stopped" else "running")
      else "failed")

  -- the message of a successful test, with the summary of the response behind it
  abbrev test_message : AgentTaskResultRequest js.Value → String
  test_message request =
      let message = unwrap_or (result_str request.result "message") "Test succeeded" in
      let summary = unwrap_or (result_str request.result "response_summary") "" in
      if is_blank summary then message else message <> "：" <> summary

  abbrev pub instance_error : String → AgentTaskResultRequest js.Value → Option String
  instance_error kind request =
      if succeeded request
      then (if kind == "test_model_instance"
          then some (test_message request)
          else if is_instance_kind kind
          then result_str request.result "message"
          else none)
      else or_else (result_str request.result "message") (some "Instance task execution failed")

  abbrev pub reported : ℕ → String → AgentTaskResultRequest js.Value → Instance → Instance
  reported now kind request i =
      let stops = kind == "stop_model_instance" in
      record i {
        status = instance_status kind request;
        base_url = or_else (result_str request.result "base_url") i.base_url;
        endpoint_url = or_else (result_str request.result "endpoint_url") i.endpoint_url;
        process_id =
            if stops then none else or_else (result_i64 request.result "process_id") i.process_id;
        process_ref =
            if stops then none else or_else (result_str request.result "process_ref") i.process_ref;
        log_tail =
            or_else (map_option (take_chars 8192) (result_str request.result "log_tail"))
              i.log_tail;
        command =
            or_else (map_option (take_chars 2048) (result_str request.result "command")) i.command;
        last_checked_at = some now;
        last_error = instance_error kind request;
        updated_at = now;
      }

  unfoldable pub record_instance : ℕ → AgentTaskResultRequest js.Value → Task → Exec Unit
  record_instance now request t = do
    payload ← task_payload t
    instance_id ← need (result_str payload "instance_id") (bad_request "task payload is invalid")
    modify (update_instance instance_id (reported now t.kind request))

  unfoldable pub record_subject : ℕ → AgentTaskResultRequest js.Value → Task → Exec Unit
  unfolding record_verify record_cleanup record_instance
  record_subject now request t =
      if t.kind == "verify_model_file"
      then record_verify now request t
      else if t.kind == "cleanup_model_file"
      then record_cleanup now request t
      else if is_instance_kind t.kind
      then record_instance now request t
      else pure tt

  -- WHERE id = ? AND node_id = ?
  abbrev pub task_of : String → String → Task → Bool
  task_of id node_id t = task_is id t && t.node_id == node_id

  unfoldable pub record_agent_task_result : ℕ → String → AgentTaskResultRequest js.Value → Exec Unit
  unfolding record_subject
  record_agent_task_result now task_id request = do
    stored ← gets (λ db. select_one (task_of task_id request.node_id) db.agent_tasks)
    task ← need stored (not_found "agent task not found")
    refuse_if (not (one_of ("succeeded" ∷ "failed" ∷ []) request.status))
        (bad_request "status is invalid")
    transaction (do
      modify (update_tasks (task_is task_id) (completed now request))
      record_subject now request task)
