-- ===== src/Server/AgentTasks/Record/Effect.antt =====
-- What a result that an agent posts makes of the rows of its task and of its instance, column by
-- column (`record_agent_task_result` of server/src/agent_tasks.rs).
use lightai_platform.Prelude.{
  ℕ, ◌≡◌, refl, ap, if◌then◌else◌, String, true, false, none, some, ◌==◌, arith, ◌⊎◌, inl, inr,
  eq_iff,
}
use lightai_platform.Prelude.Rows.{select_one}
use lightai_platform.Prelude.Rows.Laws.{
  select_one-update, select_one-update_other, select_one_sound,
}
use lightai_platform.Prelude.Text.{one_of}
use lightai_platform.Server.Serde.{Serde}
use lightai_platform.Server.Tables.{Db, Task, task_is, Instance, instance_is}
use lightai_platform.Server.Exec.{ok, reply, after}
use lightai_platform.Server.AgentTasks.Record.{
  AgentTaskResultRequest, completed, reported, record_agent_task_result, task_of, result_str,
}
use lightai_platform.Server.AgentTasks.Record.Laws.{IsFinal, instance_recorded}
use lightai_platform.Server.AgentTasks.Record.Shown.{
  instance_kinds, listed_kind, Reported, reported-Reported,
}

other_row :
    (k id : String) (i : Instance)
    → k == id ≡ false
    → instance_is id i ≡ true
    → instance_is k i ≡ false
other_row k id i h e = ground (arith, h, e, eq_iff i.id id, eq_iff i.id k, eq_iff k id)

-- what the row of the task is then
pub record Closed (js : Serde) (now : ℕ) (request : AgentTaskResultRequest js.Value) (t u : Task)
    : Type 0 where
  pub status : u.status ≡ request.status
  pub result_json : u.result_json ≡ some (js.to_string request.result)
  pub completed_at : u.completed_at ≡ some now
  pub error_message :
      (request.status ≡ "succeeded") × (u.error_message ≡ none)
      ⊎ (request.status ≡ "failed") × (u.error_message ≡ result_str js request.result "message")
  pub lease_until : u.lease_until ≡ t.lease_until
  pub attempt_count : u.attempt_count ≡ t.attempt_count

module _ (js : Serde) (now : ℕ) (task_id : String) (request : AgentTaskResultRequest js.Value)
    (db : Db) where
  completed-Closed :
      (t : Task) → IsFinal request.status → Closed js now request t (completed js now request t)
  completed-Closed t final = record {
    status = refl;
    result_json = refl;
    completed_at = refl;
    error_message = elim final [
      | inl done ↦ inl (
        done,
        ap (λ s. if s == "failed" then result_str js request.result "message" else none) done,
      )
      | inr failing ↦ inr (
        failing,
        ap (λ s. if s == "failed" then result_str js request.result "message" else none) failing,
      )
    ];
    lease_until = refl;
    attempt_count = refl;
  }

  -- A result with a valid status, for a task of the posting node that starts, stops, checks or tests
  -- an instance, is accepted whatever the status of the task was. The task is then closed as the
  -- result says, with its text, and with its message as the error of a failure. The instance has the
  -- status and the note that the result gives it, no process after a stop, and the URLs, the log and
  -- the command that are told, or else those that it had; no other instance is changed.
  pub record_instance_lem :
      (t : Task) (id k : String) (payload : js.Value) (i : Instance)
      → select_one (task_of js task_id request.node_id) db.agent_tasks ≡ some t
      → IsFinal request.status
      → one_of instance_kinds t.kind ≡ true
      → js.from_str t.payload_json ≡ some payload
      → result_str js payload "instance_id" ≡ some id
      → select_one (instance_is id) db.model_instances ≡ some i
      → k == id ≡ false
      → let left = after (record_agent_task_result js now task_id request) db in
        (reply (record_agent_task_result js now task_id request) db ≡ ok tt)
        × ((u : Task) × (select_one (task_of js task_id request.node_id) left.agent_tasks ≡ some u)
            × Closed js now request t u)
        × ((j : Instance) × (select_one (instance_is id) left.model_instances ≡ some j)
            × Reported js request now t.kind i j)
        × (select_one (instance_is k) left.model_instances
            ≡ select_one (instance_is k) db.model_instances)
  record_instance_lem t id k payload i stored final listed parsed subject found other =
      let kind = listed_kind t.kind listed in
      let all_of =
        instance_recorded js now task_id request db t id payload stored final kind parsed subject in
      let of_task = task_of js task_id request.node_id in
      let this_task : task_is task_id t ≡ true =
        ground (arith, select_one_sound of_task db.agent_tasks t stored) in
      let this_instance = select_one_sound (instance_is id) db.model_instances i found in
      let task_row =
        select_one-update of_task (task_is task_id) (completed js now request) (λ r. refl)
          db.agent_tasks t stored in
      let instance_row =
        select_one-update (instance_is id) (instance_is id) (reported js now t.kind request)
          (λ r. refl) db.model_instances i found in
      let others =
        select_one-update_other (instance_is k) (instance_is id) (reported js now t.kind request)
          (λ r e. other_row k id r other e) (λ r. refl) db.model_instances in
      rw (reply, after, all_of)
        (
          refl,
          (completed js now request t, rw this_task at task_row, completed-Closed t final),
          (
            reported js now t.kind request i,
            rw this_instance at instance_row,
            reported-Reported js request now t.kind i final kind,
          ),
          others,
        )
