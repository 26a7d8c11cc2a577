-- ===== src/Server/Logs.antt =====
-- What is read from an agent, and not stored but for the end of an instance's log:
-- server/src/domain/instance_logs.rs. Unlike the other waits, these do not look for a task that has
-- timed out: it is read again until the deadline.
pub mod Laws
use lightai_platform.Prelude.{
  ℕ, min, ◌*◌, String, ◌<>◌, not, Option, none, some, List, [], ◌∷◌, ◌==◌, and_then, unwrap_or,
  map_option, if◌then◌else◌,
}
use lightai_platform.Server.Serde.{Serde}
use lightai_platform.Server.Tables.{Db, Task, Runtime, Instance, instance_is}
use lightai_platform.Server.Exec.{
  bad_request, conflict, Exec, pure, fail, modify, need, refuse_if, ◌>>=◌, ◌>>◌,
}
use lightai_platform.Server.Support.{node_online}
use lightai_platform.Server.InstanceView.{model_instance, update_instance}
use lightai_platform.Server.Instances.Params.{runtime_environment}
use lightai_platform.Server.AgentTasks.Sweep.{mark_task_timed_out}
use lightai_platform.Server.AgentTasks.Lifecycle.{queued_task}
use lightai_platform.Server.TaskRequest.{insert_task, task_result, text_at}
use lightai_platform.Server.Waiting.{Waiting, Turn, then_wait, wait_for_task}

-- the `match` on the status: a succeeded and a failed task are answered
abbrev pub read_answer : {A : Type 0} → Task → Exec A → String → Option (Exec A)
read_answer t succeeded failure =
    if t.status == "succeeded"
    then some succeeded
    else if t.status == "failed"
    then some (fail (conflict (unwrap_or t.error_message failure)))
    else none

-- at the deadline
unfoldable pub read_give_up : {A : Type 0} → String → String → ℕ → Exec A
read_give_up message task_id now = do mark_task_timed_out now task_id; fail (conflict message)

module _ (js : Serde) where
  -- `unwrap_or_default` of the result
  abbrev pub result_or_null : Task → js.Value
  result_or_null t = unwrap_or (task_result js t) js.null

  abbrev pub content_of : js.Value → String
  content_of result = unwrap_or (text_at js result "content") ""

  unfoldable pub queue_agent_log : ℕ → String → String → ℕ → Exec Unit
  queue_agent_log now task_id node_id max_bytes = do
    online ← node_online now node_id
    refuse_if (not online) (conflict "Node Agent offline, cannot read Agent log")
    modify (
        insert_task (
          queued_task task_id node_id "read_agent_log"
            (js.to_string (
              js.object (
                ("log_type", js.string "agent_service")
                ∷ ("file_name", js.string "lightai-agent.log")
                ∷ ("max_bytes", js.number (min max_bytes (512 * 1024)))
                ∷ [])))
            now))

  abbrev pub agent_log_answer : ℕ → Task → Option (Exec String)
  agent_log_answer now t =
      read_answer t (pure (content_of (result_or_null t))) "Agent log read failed"

  unfoldable pub read_agent_log : ℕ → String → String → ℕ → List Turn → Waiting String
  read_agent_log now task_id node_id max_bytes turns =
      then_wait (queue_agent_log now task_id node_id max_bytes) (λ _.
        wait_for_task agent_log_answer (read_give_up "Agent log read timed out" task_id) task_id
          turns)

  abbrev json_option : Option String → js.Value
  json_option none = js.null
  json_option (some s) = js.string s

  unfoldable pub queue_instance_log : ℕ → String → String → Exec Unit
  queue_instance_log now task_id id = do
    instance_ ← model_instance now id
    refuse_if (not (instance_.deploy_type == "local")) (
        bad_request
          "External instances are not managed by the platform Agent and do not support log refresh. (外部实例不由平台 Agent 管理，不支持读取日志)")
    node_id ← need instance_.node_id (bad_request "Local instance missing node")
    online ← node_online now node_id
    refuse_if (not online) (conflict "Node Agent offline, cannot refresh instance log")
    runtime_id ←
        need instance_.runtime_environment_id
          (bad_request "Local instance missing runtime environment")
    env ← runtime_environment runtime_id
    modify (
        insert_task (
          queued_task task_id node_id "read_instance_log"
            (js.to_string (
              js.object (
                ("instance_id", js.string id)
                ∷ ("backend", js.string env.backend)
                ∷ ("runtime_environment_id", js.string runtime_id)
                ∷ ("log_dir", json_option env.log_dir)
                ∷ ("max_bytes", js.number (64 * 1024))
                ∷ [])))
            now))

  -- the text that is stored: the content, after the message if there is one
  abbrev pub log_tail_of : js.Value → String
  log_tail_of result =
      let message = unwrap_or (text_at js result "message") "" in
      if message == "" then content_of result else "【" <> message <> "】\n" <> content_of result

  abbrev pub with_log_tail : ℕ → String → Instance → Instance
  with_log_tail now text i = record i { log_tail = some text; updated_at = now }

  unfoldable pub store_log_tail : ℕ → String → js.Value → Exec String
  store_log_tail now id result = do
    modify (update_instance id (with_log_tail now (log_tail_of result)))
    pure (log_tail_of result)

  abbrev pub instance_log_answer : String → ℕ → Task → Option (Exec String)
  instance_log_answer id now t =
      read_answer t (store_log_tail now id (result_or_null t)) "Instance log read failed"

  unfoldable pub refresh_instance_logs : ℕ → String → String → List Turn → Waiting String
  refresh_instance_logs now task_id id turns = then_wait (queue_instance_log now task_id id) (λ _.
      wait_for_task (instance_log_answer id) (read_give_up "Instance log read timed out" task_id)
        task_id turns)

  unfoldable pub queue_ollama_list : ℕ → String → String → String → Exec Unit
  queue_ollama_list now task_id node_id runtime_id = do
    online ← node_online now node_id
    refuse_if (not online) (conflict "Node Agent offline, cannot query Ollama models")
    env ← runtime_environment runtime_id
    modify (
        insert_task (
          queued_task task_id node_id "list_ollama_models"
            (js.to_string (
              js.object (
                ("runtime_environment_id", js.string runtime_id)
                ∷ ("runtime_params", unwrap_or (and_then env.params_json js.from_str) js.null)
                ∷ [])))
            now))

  abbrev pub ollama_list_answer : ℕ → Task → Option (Exec (List js.Value))
  ollama_list_answer now t =
      read_answer t
        (pure (unwrap_or (and_then (js.get (result_or_null t) "models") js.as_array) []))
        "Ollama model list query failed"

  unfoldable pub ollama_model_list :
      ℕ → String → String → String → List Turn → Waiting (List js.Value)
  ollama_model_list now task_id node_id runtime_id turns =
      then_wait (queue_ollama_list now task_id node_id runtime_id) (λ _.
        wait_for_task ollama_list_answer (read_give_up "Ollama model list query timed out" task_id)
          task_id turns)
