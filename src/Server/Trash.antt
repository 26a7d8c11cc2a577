-- ===== src/Server/Trash.antt =====
-- The trash of model files: server/src/domain/model_trash.rs. The ids of new rows and the clock are
-- arguments. `update_trash_failure` is in AgentTasks/Sweep.
pub mod Ensure
pub mod Laws
use text.Mathlib.Text.{starts_with}
use lightai_platform.Prelude.{
  ℕ, String, Bool, not, Option, none, some, List, [], ◌∷◌, ◌==◌, and_then, is_some, is_some_and,
  map_option, or_else, unwrap_or, if◌then◌else◌,
}
use lightai_platform.Prelude.Rows.{select_one, delete}
use lightai_platform.Server.TaskRequest.{insert_task}
use lightai_platform.Server.Serde.{Serde}
use lightai_platform.Server.Tables.{Db, Task, Model, model_is, node_is, Trash, trash_is}
use lightai_platform.Server.Exec.{
  bad_request, not_found, conflict, Exec, pure, fail, gets, modify, need, refuse_if, ◌>>=◌, ◌>>◌,
}
use lightai_platform.Server.Support.{node_online}
use lightai_platform.Server.Waiting.{Waiting, Turn, then_wait, at_once, wait_for_task}
use lightai_platform.Server.AgentTasks.Sweep.{
  update_trash, update_trash_failure, mark_task_timed_out,
}
use lightai_platform.Server.AgentTasks.Lifecycle.{queued_task}

-- the text before the first occurrence of a marker: `substr(s, 1, instr(s, marker) - 1)`
unfoldable pub text_before : String → String → Option String
text_before marker String.[] = none
text_before marker (String.◌∷◌ c s) =
    let rest = text_before marker s in
    if starts_with (String.◌∷◌ c s) marker then some "" else map_option (λ p. String.◌∷◌ c p) rest

-- the name of a model as it was before its deletion renamed it
abbrev pub shown_name : Model → String
shown_name m =
    if is_some m.deleted_at then unwrap_or (text_before "__deleted__" m.name) m.name else m.name

-- the columns of the row, and those of the joins
pub record ModelFileTrashView : Type 0 where
  pub row : Trash
  pub open row use *
  pub model_name : Option String
  pub node_name : Option String

unfoldable pub model_file_trash_from_row : Db → Trash → ModelFileTrashView
model_file_trash_from_row db t = record {
  row = t;
  model_name =
      map_option shown_name (and_then t.model_id (λ id. select_one (model_is id) db.models));
  node_name =
      map_option (λ n. n.name) (and_then t.node_id (λ id. select_one (node_is id) db.nodes));
}

unfoldable pub model_file_trash_item : String → Exec ModelFileTrashView
model_file_trash_item id = do
  found ← gets (λ db. select_one (trash_is id) db.model_file_trash)
  row ← need found (not_found "trash item not found")
  gets (λ db. model_file_trash_from_row db row)

unfoldable pub delete_model_file_trash : String → Exec Unit
delete_model_file_trash id = do
  found ← gets (λ db. is_some (select_one (trash_is id) db.model_file_trash))
  modify (λ db. record db { model_file_trash = delete (trash_is id) db.model_file_trash })
  refuse_if (not found) (not_found "trash item not found")

abbrev pub offline_message : String
offline_message = "Node Agent offline, cannot clean up file"

abbrev pub timeout_message : String
timeout_message = "file cleanup timed out; confirm Agent is online and retry"

-- the row of an item whose cleanup is queued
abbrev pub cleanup_pending : ℕ → String → Trash → Trash
cleanup_pending now task_id t = record t {
  status = "cleanup_pending";
  cleanup_task_id = some task_id;
  last_error = none;
  updated_at = now;
}

module _ (js : Serde) where
  abbrev failure_message : Task → String
  failure_message t =
      unwrap_or
        (or_else
          (and_then (and_then t.result_json js.from_str)
            (λ v. and_then (js.get v "message") js.as_str))
          t.error_message)
        "File cleanup failed"

  -- the `match` on the status of the task
  unfoldable pub cleanup_answer : String → ℕ → Task → Option (Exec ModelFileTrashView)
  cleanup_answer trash_id now t =
      if t.status == "succeeded"
      then some (model_file_trash_item trash_id)
      else if t.status == "failed"
      then some (fail (conflict (failure_message t)))
      else if t.status == "timed_out"
      then some (fail (conflict timeout_message))
      else none

  -- the deadline of MODEL_FILE_CLEANUP_TIMEOUT_SECS has passed
  unfoldable pub cleanup_give_up : String → String → ℕ → Exec ModelFileTrashView
  cleanup_give_up trash_id task_id now = do
    mark_task_timed_out now task_id
    update_trash_failure now trash_id "cleanup_timeout" "file cleanup timed out"
    fail (conflict timeout_message)

  unfoldable pub wait_for_model_file_cleanup :
      String → String → List Turn → Waiting ModelFileTrashView
  wait_for_model_file_cleanup trash_id task_id =
      wait_for_task (cleanup_answer trash_id) (cleanup_give_up trash_id task_id) task_id

  -- the task of a cleanup
  abbrev pub cleanup_task : String → String → String → ModelFileTrashView → ℕ → Task
  cleanup_task task_id node_id id item now =
      queued_task task_id node_id "cleanup_model_file"
        (js.to_string (js.object (("trash_id", js.string id) ∷ ("path", js.string item.path) ∷ [])))
        now

  -- the two statements that queue the cleanup
  unfoldable pub queue_cleanup : ℕ → String → String → String → ModelFileTrashView → Exec Unit
  queue_cleanup now id task_id node_id item = do
    modify (insert_task (cleanup_task task_id node_id id item now))
    modify (update_trash id (cleanup_pending now task_id))

  -- what follows the query whether the node is online
  unfoldable pub clean_up_online :
      ℕ
      → String
      → String
      → String
      → ModelFileTrashView
      → List Turn
      → Bool
      → Waiting ModelFileTrashView
  clean_up_online now id task_id node_id item turns online =
      if not online
      then at_once (do
        update_trash_failure now id "cleanup_failed" offline_message
        fail (conflict offline_message))
      else then_wait (queue_cleanup now id task_id node_id item)
          (λ _. wait_for_model_file_cleanup id task_id turns)

  -- what follows the check that the item has a node
  unfoldable pub clean_up :
      ℕ → String → String → String → ModelFileTrashView → List Turn → Waiting ModelFileTrashView
  clean_up now id task_id node_id item turns =
      if is_some item.file_deleted_at
      then at_once (pure item)
      else then_wait (node_online now node_id)
          (λ online. clean_up_online now id task_id node_id item turns online)

  unfoldable pub cleanup_model_file_trash :
      ℕ → String → String → List Turn → Waiting ModelFileTrashView
  cleanup_model_file_trash now id task_id turns = then_wait (model_file_trash_item id) (λ item.
      then_wait (need item.node_id (bad_request "trash item has no node"))
        (λ node_id. clean_up now id task_id node_id item turns))
