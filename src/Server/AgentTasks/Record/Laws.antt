-- ===== src/Server/AgentTasks/Record/Laws.antt =====
-- What the result that an agent posts does to the database.
use lightai_platform.Prelude.{
  ℕ, ◌≡◌, String, true, some, arith, eq_iff, ◌⊎◌, inl, inr, [], ◌∷◌, Option-cases,
}
use lightai_platform.Prelude.Rows.{update, select_one}
use lightai_platform.Prelude.Text.{one_of}
use lightai_platform.Server.Serde.{Serde}
use lightai_platform.Server.Tables.{Db, Task, task_is, instance_is}
use lightai_platform.Server.Exec.{ok, err, reply, after, DomainError}
use lightai_platform.Server.AgentTasks.Sweep.Laws.{instance_kind_other}
use lightai_platform.Server.AgentTasks.Sweep.{update_tasks, is_instance_kind}
use lightai_platform.Server.AgentTasks.Record.{
  AgentTaskResultRequest, completed, reported, record_subject, record_agent_task_result, task_of,
  result_str,
}

agent_tasks-record_subject :
    (js : Serde) (now : ℕ) (request : AgentTaskResultRequest js.Value) (t : Task) (db : Db)
    → (after (record_subject js now request t) db).agent_tasks ≡ db.agent_tasks
unfolding record_subject
agent_tasks-record_subject js now request t db = ground arith

abbrev pub IsFinal : String → Type 0
IsFinal status = (status ≡ "succeeded") ⊎ (status ≡ "failed")

valid_status :
    (status : String) → one_of ("succeeded" ∷ "failed" ∷ []) status ≡ true → IsFinal status
unfolding one_of
valid_status status h = ground (arith, eq_iff status "succeeded", eq_iff status "failed")

final_is_valid :
    (status : String) → IsFinal status → one_of ("succeeded" ∷ "failed" ∷ []) status ≡ true
unfolding one_of
final_is_valid status (inl e) = rw e
final_is_valid status (inr e) = rw e

record_subject_instance :
    (js : Serde) (now : ℕ) (request : AgentTaskResultRequest js.Value) (t : Task) (db : Db)
    (id : String) (payload : js.Value)
    → is_instance_kind t.kind ≡ true
    → js.from_str t.payload_json ≡ some payload
    → result_str js payload "instance_id" ≡ some id
    → record_subject js now request t db ≡ (
      ok tt,
      record db {
        model_instances =
            update (instance_is id) (reported js now t.kind request) db.model_instances;
      },
    )
unfolding record_subject
record_subject_instance js now request t db id payload kind parsed subject =
    ground (arith, instance_kind_other t.kind kind)

module _ (js : Serde) (now : ℕ) (task_id : String) (request : AgentTaskResultRequest js.Value)
    (db : Db) where
  -- A result that is refused, for whatever reason, changes nothing: the writes before the error are
  -- in a transaction.
  pub record_error_unchanged :
      (e : DomainError)
      → reply (record_agent_task_result js now task_id request) db ≡ err e
      → after (record_agent_task_result js now task_id request) db ≡ db
  unfolding record_agent_task_result
  record_error_unchanged e h = ground arith

  -- A result that is accepted is for a task of the node that posts it, and ends every task with
  -- that id as succeeded or failed.
  pub record_ok :
      reply (record_agent_task_result js now task_id request) db ≡ ok tt
      → (t : Task) × (select_one (task_of js task_id request.node_id) db.agent_tasks ≡ some t)
        × IsFinal request.status
        × ((after (record_agent_task_result js now task_id request) db).agent_tasks
            ≡ update (task_is task_id) (completed js now request) db.agent_tasks)
  unfolding record_agent_task_result
  record_ok h =
      elim (Option-cases (select_one (task_of js task_id request.node_id) db.agent_tasks)) [
        | inl e ↦ ground arith
        | inr (t, e) ↦ (
          t,
          e,
          ground (arith, valid_status request.status),
          ground (
            arith,
            agent_tasks-record_subject js now request t
                (update_tasks (task_is task_id) (completed js now request) db),
          ),
        )
      ]

  -- the database after a result of a task that is about an instance
  pub instance_recorded :
      (t : Task) (id : String) (payload : js.Value)
      → select_one (task_of js task_id request.node_id) db.agent_tasks ≡ some t
      → IsFinal request.status
      → is_instance_kind t.kind ≡ true
      → js.from_str t.payload_json ≡ some payload
      → result_str js payload "instance_id" ≡ some id
      → record_agent_task_result js now task_id request db ≡ (
        ok tt,
        record db {
          agent_tasks = update (task_is task_id) (completed js now request) db.agent_tasks;
          model_instances =
              update (instance_is id) (reported js now t.kind request) db.model_instances;
        },
      )
  unfolding record_agent_task_result
  instance_recorded t id payload stored valid kind parsed subject = ground (
    arith,
    final_is_valid request.status valid,
    record_subject_instance js now request t
        (update_tasks (task_is task_id) (completed js now request) db) id payload kind parsed
        subject,
  )
