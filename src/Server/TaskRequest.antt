-- ===== src/Server/TaskRequest.antt =====
-- What the handlers that ask an agent for something share: they insert a queued task and read its
-- row until it has ended (server/src/domain/instances.rs, model_files.rs, model_trash.rs, runtimes.rs,
-- gateway.rs, instance_logs.rs).
use lightai_platform.Prelude.{String, Option, none, some, ◌==◌, and_then, if◌then◌else◌}
use lightai_platform.Prelude.Rows.{insert}
use lightai_platform.Server.Serde.{Serde}
use lightai_platform.Server.Tables.{Db, Task}
use lightai_platform.Server.Exec.{Exec}

-- INSERT INTO agent_tasks
abbrev pub insert_task : Task → Db → Db
insert_task t db = record db { agent_tasks = insert t db.agent_tasks }

-- the `match` on the status of a task: what a succeeded, a failed and a timed-out one is answered
abbrev pub answer_of : {A : Type 0} → Task → Exec A → Exec A → Exec A → Option (Exec A)
answer_of t succeeded failed timed_out =
    if t.status == "succeeded"
    then some succeeded
    else if t.status == "failed"
    then some failed
    else if t.status == "timed_out"
    then some timed_out
    else none

module _ (js : Serde) where
  -- the result of a task, where one that cannot be read is passed over
  abbrev pub task_result : Task → Option js.Value
  task_result t = and_then t.result_json js.from_str

  -- `value.get(key).and_then(|value| value.as_str())`
  abbrev pub text_at : js.Value → String → Option String
  text_at v key = and_then (js.get v key) js.as_str
