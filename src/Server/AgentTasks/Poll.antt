-- ===== src/Server/AgentTasks/Poll.antt =====
-- `poll_agent_task` and what it calls, of server/src/agent_tasks.rs. The wait between two rounds
-- of the long poll is where other requests run: a schedule says, for each round, what they do.
pub mod Laws
use lightai_platform.Prelude.{
  ℕ, ◌+◌, String, Bool, not, ◌&&◌, Option, none, some, List, [], ◌∷◌, nat_eq, ◌==◌, if◌then◌else◌,
  is_some, is_some_and, or_else,
}
use lightai_platform.Prelude.Rows.{select_one, select_first}
use lightai_platform.Server.Serde.{Serde}
use lightai_platform.Server.Policy.{AgentConfig}
use lightai_platform.Server.Config.{effective_agent_config}
use lightai_platform.Server.Tables.{Db, Task, task_is}
use lightai_platform.Server.Exec.{
  Result, ok, err, internal, Exec, pure, gets, modify, need, ◌>>=◌, ◌>>◌,
}
use lightai_platform.Server.AgentTasks.Sweep.{
  lease_secs, mark_timed_out_tasks, update_tasks, update_file, update_trash, payload_str,
}

-- AgentTaskView, over the type of JSON values
pub record AgentTaskView (V : Type 0) : Type 0 where
  pub id : String
  pub node_id : String
  pub kind : String
  pub status : String
  pub payload : V
  pub lease_until : Option ℕ
  pub attempt_count : ℕ
  pub created_at : ℕ
  pub updated_at : ℕ

pub record AgentTaskPollResponse (V : Type 0) : Type 0 where
  pub task : Option (AgentTaskView V)
  pub agent_config : AgentConfig

-- WHERE node_id = ? AND status = 'queued' ORDER BY created_at LIMIT 1
abbrev pub queued_for : String → Task → Bool
queued_for node_id t = t.node_id == node_id && t.status == "queued"

unfoldable pub next_queued_agent_task : String → Exec (Option Task)
next_queued_agent_task node_id =
    gets (λ db. select_first (queued_for node_id) (λ t. t.created_at) db.agent_tasks)

abbrev pub leased : ℕ → Task → Task
leased now t = record t {
  status = "running";
  started_at = or_else t.started_at (some now);
  lease_until = some (now + lease_secs);
  attempt_count = t.attempt_count + 1;
  updated_at = now;
}

-- One round of the loop: the clock, whether the deadline has passed, what the other requests did
-- while it waited, whether a notification ended the wait, and the clock after it.
pub record Round : Type 0 where
  pub now : ℕ
  pub expired : Bool
  pub meanwhile : Db → Db
  pub woken : Bool
  pub now_after : ℕ

-- how a round ends: with a row, with a response that holds no task, or with one more round
pub data Ending : Type 0 where
  found : Task → Ending
  answer : AgentConfig → Ending
  again : Ending

module _ (js : Serde) where
  unfoldable pub agent_task_from_row : Task → Exec (AgentTaskView js.Value)
  agent_task_from_row t = do
    payload ← need (js.from_str t.payload_json) (internal "payload_json")
    pure (record {
      id = t.id;
      node_id = t.node_id;
      kind = t.kind;
      status = t.status;
      payload = payload;
      lease_until = t.lease_until;
      attempt_count = t.attempt_count;
      created_at = t.created_at;
      updated_at = t.updated_at;
    })

  abbrev start_file : ℕ → Option String → Db → Db
  start_file now none db = db
  start_file now (some id) db =
      update_file id (λ f. record f { status = "verifying"; updated_at = now }) db

  abbrev start_trash : ℕ → Option String → Db → Db
  start_trash now none db = db
  start_trash now (some id) db =
      update_trash id (λ t. record t { status = "cleanup_running"; updated_at = now }) db

  -- what the lease of a verification or of a cleanup does to its subject
  unfoldable pub start_subject : ℕ → Task → Db → Db
  start_subject now t db =
      if t.kind == "verify_model_file"
      then start_file now (payload_str js t.payload_json "model_file_id") db
      else if t.kind == "cleanup_model_file"
      then start_trash now (payload_str js t.payload_json "trash_id") db
      else db

  -- from the row that the loop found to the response
  unfoldable pub lease_task : ℕ → String → Task → Exec (AgentTaskPollResponse js.Value)
  unfolding agent_task_from_row start_subject
  lease_task now node_id t = do
    modify (update_tasks (task_is t.id) (leased now))
    modify (start_subject now t)
    stored ← gets (λ db. select_one (task_is t.id) db.agent_tasks)
    row ← need stored (internal "no rows returned")
    view ← agent_task_from_row row
    config ← effective_agent_config js now node_id
    pure (record { task = some view; agent_config = config })

  wait_round : String → Option ℕ → Round → Exec Ending
  unfolding next_queued_agent_task
  wait_round node_id current r = do
    modify r.meanwhile
    config ← effective_agent_config js r.now_after node_id
    row ← next_queued_agent_task node_id
    pure (
        if not (is_some row)
          && is_some_and current (λ version. not (nat_eq version config.config_version))
        then answer config
        else again)

  unfoldable pub poll_round : String → Option ℕ → Round → Exec Ending
  unfolding next_queued_agent_task wait_round
  poll_round node_id current r = do
    mark_timed_out_tasks js r.now
    row ← next_queued_agent_task node_id
    elim row [
      | some t ↦ pure (found t)
      | none ↦
          if r.expired
          then (do config ← effective_agent_config js r.now node_id; pure (answer config))
          else if r.woken
          then wait_round node_id current r
          else (do modify r.meanwhile; pure again)
    ]

  -- `none`: the schedule is over and the request still waits
  abbrev pub Pending : Type 0
  Pending = Option (Result (AgentTaskPollResponse js.Value) × Db)

  abbrev pub finish_round : String → ℕ → Result Ending × Db → (Db → Pending) → Pending
  finish_round node_id now (ok (found t), db) more = some (lease_task now node_id t db)
  finish_round node_id now (ok (answer config), db) more =
      some (ok (record { task = none; agent_config = config }), db)
  finish_round node_id now (ok again, db) more = more db
  finish_round node_id now (err e, db) more = some (err e, db)

  unfoldable pub poll_agent_task : String → Option ℕ → List Round → Db → Pending
  poll_agent_task node_id current [] db = none
  poll_agent_task node_id current (r ∷ rs) db =
      finish_round node_id r.now (poll_round node_id current r db)
        (poll_agent_task node_id current rs)
