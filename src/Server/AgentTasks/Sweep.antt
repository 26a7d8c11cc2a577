-- ===== src/Server/AgentTasks/Sweep.antt =====
-- `mark_timed_out_tasks` and `mark_task_timed_out` of server/src/agent_tasks.rs.
pub mod Laws
use lightai_platform.Prelude.{
  ℕ, ◌+◌, ◌-◌, String, Bool, false, ◌&&◌, ◌||◌, Option, none, some, List, [], ◌∷◌, ltb, ◌==◌,
  if◌then◌else◌, and_then,
}
use lightai_platform.Prelude.Rows.{select, update}
use lightai_platform.Server.Serde.{Serde}
use lightai_platform.Server.Tables.{Db, Task, task_is, ModelFile, file_is, Trash, trash_is}
use lightai_platform.Server.Exec.{Exec, pure, gets, modify, ◌>>=◌, ◌>>◌}
use lightai_platform.Server.InstanceView.{update_instance_check}

-- AGENT_TASK_LEASE_SECS, AGENT_TASK_QUEUE_TIMEOUT_SECS
abbrev pub lease_secs : ℕ
lease_secs = 30

abbrev pub queue_timeout_secs : ℕ
queue_timeout_secs = 300

-- status IN ('queued', 'running')
abbrev pub is_open : String → Bool
is_open status = status == "queued" || status == "running"

-- UPDATE agent_tasks SET f WHERE p
abbrev pub update_tasks : (Task → Bool) → (Task → Task) → Db → Db
update_tasks p f db = record db { agent_tasks = update p f db.agent_tasks }

abbrev pub timed_out : ℕ → Task → Task
timed_out now t = record t {
  status = "timed_out";
  error_message = some "task execution timed out";
  updated_at = now;
}

unfoldable pub mark_task_timed_out : ℕ → String → Exec Unit
mark_task_timed_out now id =
    modify (update_tasks (λ t. task_is id t && is_open t.status) (timed_out now))

abbrev pub lease_over : ℕ → Option ℕ → Bool
lease_over now none = false
lease_over now (some lease) = ltb lease now

-- the WHERE clause of the sweep; `created_at < now - 300` over the integers
abbrev pub overdue : ℕ → Task → Bool
overdue now t =
    t.status == "running" && lease_over now t.lease_until
    || t.status == "queued" && ltb (t.created_at + queue_timeout_secs) now

abbrev pub is_instance_kind : String → Bool
is_instance_kind kind =
    kind == "start_model_instance"
    || kind == "stop_model_instance"
    || kind == "check_model_instance"
    || kind == "test_model_instance"

abbrev pub verify_timed_out : ℕ → ModelFile → ModelFile
verify_timed_out now f = record f {
  status = "verify_timeout";
  last_error = some "verification timed out";
  updated_at = now;
}

abbrev pub update_file : String → (ModelFile → ModelFile) → Db → Db
update_file id f db = record db { model_files = update (file_is id) f db.model_files }

abbrev pub update_trash : String → (Trash → Trash) → Db → Db
update_trash id f db = record db { model_file_trash = update (trash_is id) f db.model_file_trash }

-- `update_trash_failure` of server/src/domain/model_trash.rs
unfoldable pub update_trash_failure : ℕ → String → String → String → Exec Unit
update_trash_failure now id status message = modify (
    update_trash id
      (λ t. record t { status = status; last_error = some message; updated_at = now }))

module _ (js : Serde) where
  -- `serde_json::from_str(payload)`, `.get(key)` and `.as_str()`, where a failure is passed over
  abbrev pub payload_str : String → String → Option String
  payload_str payload key = and_then (js.from_str payload) (λ v. and_then (js.get v key) js.as_str)

  -- `if let Some(id) = …`: the update of what the task was about
  abbrev pub fail_file : ℕ → Option String → Exec Unit
  fail_file now none = pure tt
  fail_file now (some id) = modify (update_file id (verify_timed_out now))

  abbrev pub fail_trash : ℕ → Option String → Exec Unit
  fail_trash now none = pure tt
  fail_trash now (some id) = update_trash_failure now id "cleanup_timeout" "file cleanup timed out"

  abbrev pub fail_instance : ℕ → Option String → Exec Unit
  fail_instance now none = pure tt
  fail_instance now (some id) = do
    view ← update_instance_check now id "failed" (some "Local instance task timed out")
    pure tt

  unfoldable pub fail_subject : ℕ → Task → Exec Unit
  fail_subject now t =
      if t.kind == "verify_model_file"
      then fail_file now (payload_str t.payload_json "model_file_id")
      else if t.kind == "cleanup_model_file"
      then fail_trash now (payload_str t.payload_json "trash_id")
      else if is_instance_kind t.kind
      then fail_instance now (payload_str t.payload_json "instance_id")
      else pure tt

  -- the loop over the rows that were selected before it
  unfoldable pub sweep_rows : ℕ → List Task → Exec Unit
  sweep_rows now [] = pure tt
  sweep_rows now (t ∷ ts) = do mark_task_timed_out now t.id; fail_subject now t; sweep_rows now ts

  unfoldable pub mark_timed_out_tasks : ℕ → Exec Unit
  unfolding sweep_rows fail_subject mark_task_timed_out
  mark_timed_out_tasks now = do
    rows ← gets (λ db. select (overdue now) db.agent_tasks)
    sweep_rows now rows
