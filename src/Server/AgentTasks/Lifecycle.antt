-- ===== src/Server/AgentTasks/Lifecycle.antt =====
-- The life of a task in the queue (server/src/agent_tasks.rs and the handlers that insert a task):
-- what holds of every stored task, whichever requests arrive and in whichever order.
use lightai_platform.Prelude.{
  ◌||◌, ℕ, ◌+◌, ◌<◌, ◌≡◌, refl, String, Bool, false, true, Option, none, some, List, [], ◌∷◌, arith,
  ◌==◌, inl, inr, All, is_some, subst, ◌&&◌, sym, Bool-cases, Option-cases,
}
use lightai_platform.Prelude.Rows.{select, update, select}
use lightai_platform.Prelude.Rows.Laws.{All-update}
use lightai_platform.Server.Serde.{Serde}
use lightai_platform.Server.Tables.{Db, Task, task_is}
use lightai_platform.Server.Exec.Laws.{unit_cases, next_inv}
use lightai_platform.Server.Exec.{Result, ok, err, reply, after, Result}
use lightai_platform.Server.AgentTasks.Poll.Laws.{agent_tasks-lease, round_cases}
use lightai_platform.Server.AgentTasks.Poll.{
  Ending, found, answer, again, finish_round, poll_round, AgentTaskPollResponse, leased, lease_task,
  poll_agent_task, Round, AgentTaskPollResponse,
}
use lightai_platform.Server.AgentTasks.Record.{
  AgentTaskResultRequest, completed, record_agent_task_result,
}
use lightai_platform.Server.AgentTasks.Record.Laws.{IsFinal, record_ok, record_error_unchanged}
use lightai_platform.Server.AgentTasks.Sweep.Laws.{agent_tasks-fail_subject, UniqueIds, sweep_bulk}
use lightai_platform.Server.AgentTasks.Sweep.{
  queue_timeout_secs, fail_subject, update_tasks, is_open, timed_out, overdue, sweep_rows,
  mark_timed_out_tasks, mark_task_timed_out, update_tasks, fail_subject,
}

-- the row of a task that a handler inserts: status 'queued', no attempt
abbrev pub queued_task : String → String → String → String → ℕ → Task
queued_task id node_id kind payload_json now = record {
  id = id;
  node_id = node_id;
  kind = kind;
  status = "queued";
  payload_json = payload_json;
  result_json = none;
  error_message = none;
  lease_until = none;
  attempt_count = 0;
  created_at = now;
  started_at = none;
  completed_at = none;
  updated_at = now;
}

abbrev pub is_final : String → Bool
is_final status = status == "succeeded" || status == "failed"

-- What a stored task satisfies: its status is one of five, a running task has a lease, a start and
-- an attempt, and a task that an agent has ended has its result.
pub record IsTask (t : Task) : Type 0 where
  pub known : is_open t.status || is_final t.status || (t.status == "timed_out") ≡ true
  pub leased_running :
      (t.status == "running") ≡ true
      → (is_some t.lease_until ≡ true) × (is_some t.started_at ≡ true) × (0 < t.attempt_count)
  pub final_result :
      is_final t.status ≡ true → (is_some t.completed_at ≡ true) × (is_some t.result_json ≡ true)

abbrev pub AllTasks : Db → Type 0
AllTasks db = All IsTask db.agent_tasks

timed_out-IsTask : (now : ℕ) (t : Task) → IsTask t → IsTask (timed_out now t)
timed_out-IsTask now t h = ground arith

leased-IsTask : (now : ℕ) (t : Task) → IsTask t → IsTask (leased now t)
leased-IsTask now t h = ground arith

final-known :
    (status : String)
    → IsFinal status
    → (is_open status || is_final status || (status == "timed_out") ≡ true)
      × ((status == "running") ≡ false)
final-known status (inl e) = rw e (refl, refl)
final-known status (inr e) = rw e (refl, refl)

completed-IsTask :
    (js : Serde) (now : ℕ) (request : AgentTaskResultRequest js.Value) (t : Task)
    → IsFinal request.status
    → IsTask (completed js now request t)
completed-IsTask js now request t f = record {
  known = (final-known request.status f).0;
  leased_running = λ e. cc ((final-known request.status f).1);
  final_result = λ e. (refl, refl);
}

queued_task-IsTask :
    (id node_id kind payload : String) (now : ℕ) → IsTask (queued_task id node_id kind payload now)
queued_task-IsTask id node_id kind payload now = ground arith

sweep_rows-AllTasks :
    (js : Serde) (now : ℕ) (ts : List Task) (db : Db)
    → AllTasks db
    → AllTasks (after (sweep_rows js now ts) db)
unfolding sweep_rows mark_task_timed_out
sweep_rows-AllTasks js now [] db h = h
sweep_rows-AllTasks js now (t ∷ ts) db h =
    let p : Task → Bool = λ u. task_is t.id u && is_open u.status in
    let opened : Db = update_tasks p (timed_out now) db in
    let kept : AllTasks (after (fail_subject js now t) opened) =
      subst (All IsTask) (sym (agent_tasks-fail_subject js now t opened))
        (All-update IsTask p (timed_out now) (λ u _. timed_out-IsTask now u) db.agent_tasks h) in
    next_inv AllTasks (fail_subject js now t opened) (λ _. sweep_rows js now ts) kept
      (λ _ d. sweep_rows-AllTasks js now ts d)

-- The sweep keeps what holds of the tasks, also when it fails on the way.
pub sweep-AllTasks :
    (js : Serde) (now : ℕ) (db : Db)
    → AllTasks db
    → AllTasks (after (mark_timed_out_tasks js now) db)
unfolding mark_timed_out_tasks
sweep-AllTasks js now db h = sweep_rows-AllTasks js now (select (overdue now) db.agent_tasks) db h

pub lease-AllTasks :
    (js : Serde) (now : ℕ) (node_id : String) (t : Task) (db : Db)
    → AllTasks db
    → AllTasks (after (lease_task js now node_id t) db)
lease-AllTasks js now node_id t db h =
    subst (All IsTask) (sym (agent_tasks-lease js now node_id t db))
      (All-update IsTask (task_is t.id) (leased now) (λ u _. leased-IsTask now u) db.agent_tasks h)

-- A result that is posted keeps what holds of the tasks, accepted or not.
pub record-AllTasks :
    (js : Serde) (now : ℕ) (id : String) (request : AgentTaskResultRequest js.Value) (db : Db)
    → AllTasks db
    → AllTasks (after (record_agent_task_result js now id request) db)
record-AllTasks js now id request db h =
    elim (unit_cases (reply (record_agent_task_result js now id request) db)) [
      | inr (e, refused) ↦
          subst AllTasks (sym (record_error_unchanged js now id request db e refused)) h
      | inl accepted ↦
          let (_, _, final, tasks) = record_ok js now id request db accepted in
          subst (All IsTask) (sym tasks) (
            All-update IsTask (task_is id) (completed js now request)
              (λ t _ _. completed-IsTask js now request t final) db.agent_tasks h)
    ]

round-AllTasks :
    (js : Serde) (node_id : String) (current : Option ℕ) (r : Round) (db : Db)
    → ((d : Db) → AllTasks d → AllTasks (r.meanwhile d))
    → AllTasks db
    → AllTasks (after (poll_round js node_id current r) db)
round-AllTasks js node_id current r db k h =
    let swept = sweep-AllTasks js r.now db h in
    elim (round_cases js node_id current r db) [
      | inl e ↦ subst AllTasks (sym e) swept
      | inr e ↦ subst AllTasks (sym e) (k (after (mark_timed_out_tasks js r.now) db) swept)
    ]

-- what holds of the tasks when a poll has its answer
abbrev pub Answered : {A : Type 0} → Option (A × Db) → Type 0
Answered none = Unit
Answered (some (a, db)) = AllTasks db

finish-AllTasks :
    (js : Serde) (node_id : String) (now : ℕ) (r : Result Ending × Db)
    (more : Db → Option (Result (AgentTaskPollResponse js.Value) × Db))
    → AllTasks r.1
    → ((d : Db) → AllTasks d → Answered (more d))
    → Answered (finish_round js node_id now r more)
finish-AllTasks js node_id now (ok (found t), db) more h k = lease-AllTasks js now node_id t db h
finish-AllTasks js node_id now (ok (answer c), db) more h k = h
finish-AllTasks js node_id now (ok again, db) more h k = k db h
finish-AllTasks js node_id now (err e, db) more h k = h

-- A poll keeps what holds of the tasks, if the other requests that run while it waits do.
pub poll-AllTasks :
    (js : Serde) (node_id : String) (current : Option ℕ) (rs : List Round) (db : Db)
    → All (λ r. (d : Db) → AllTasks d → AllTasks (r.meanwhile d)) rs
    → AllTasks db
    → Answered (poll_agent_task js node_id current rs db)
unfolding poll_agent_task
poll-AllTasks js node_id current [] db k h = tt
poll-AllTasks js node_id current (r ∷ rs) db k h =
    finish-AllTasks js node_id r.now (poll_round js node_id current r db)
      (poll_agent_task js node_id current rs) (round-AllTasks js node_id current r db k.0 h)
      (λ d hd. poll-AllTasks js node_id current rs d k.1 hd)

open_is_overdue :
    (now : ℕ) (t : Task)
    → IsTask t
    → t.created_at + queue_timeout_secs < now
    → ((l : ℕ) → t.lease_until ≡ some l → l < now)
    → overdue now t ≡ false
    → is_open t.status ≡ false
open_is_overdue now t h late over kept = elim (Option-cases t.lease_until) [
  | inl e ↦ ground (arith, h.leased_running)
  | inr (l, e) ↦ ground (arith, over l e)
]

-- what is left of a task by the sweep of `now`
closed_by_sweep :
    (now : ℕ) (ts : List Task)
    → All IsTask ts
    → All
        (λ t.
          (t.created_at + queue_timeout_secs < now) × ((l : ℕ) → t.lease_until ≡ some l → l < now))
        ts
    → All (λ t. is_open t.status ≡ false) (update (overdue now) (timed_out now) ts)
unfolding update
closed_by_sweep now [] h late = tt
closed_by_sweep now (t ∷ ts) h late = (
  elim (Bool-cases (overdue now t)) [
    | inl e ↦ rw e refl
    | inr e ↦ rw e (open_is_overdue now t h.0 late.0.0 late.0.1 e)
  ],
  closed_by_sweep now ts h.1 late.1,
)

-- No task stays open for ever: if the stored tasks are as they should be and their ids are unique, a
-- sweep that passes at a time when every lease is over and every task is older than 300 seconds
-- leaves no task queued or running.
pub sweep_closes :
    (js : Serde) (now : ℕ) (db : Db)
    → AllTasks db
    → UniqueIds db.agent_tasks
    → reply (mark_timed_out_tasks js now) db ≡ ok tt
    → All
        (λ t.
          (t.created_at + queue_timeout_secs < now) × ((l : ℕ) → t.lease_until ≡ some l → l < now))
        db.agent_tasks
    → All (λ t. is_open t.status ≡ false) (after (mark_timed_out_tasks js now) db).agent_tasks
sweep_closes js now db h u passed late =
    subst (All (λ t. is_open t.status ≡ false)) (sym (sweep_bulk js now db u passed))
      (closed_by_sweep now db.agent_tasks h late)
