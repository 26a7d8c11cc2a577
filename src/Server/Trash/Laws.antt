-- ===== src/Server/Trash/Laws.antt =====
-- What a cleanup of a trash item does.
use lightai_platform.Prelude.{
  ℕ, String, Bool, true, false, ◌≡◌, ◌≢◌, none, some, List, any, is_some, if◌then◌else◌, arith,
  Bool-cases, inl, inr,
}
use lightai_platform.Prelude.Rows.{select_one}
use lightai_platform.Server.TaskRequest.{insert_task}
use lightai_platform.Server.Serde.{Serde}
use lightai_platform.Server.Tables.{Db, Trash, trash_is}
use lightai_platform.Server.Exec.{bad_request, need, ok, err, conflict}
use lightai_platform.Server.Support.{node_online, online}
use lightai_platform.Server.Waiting.{then_wait_ends, Turn, wait_ends}
use lightai_platform.Server.AgentTasks.Sweep.{update_trash, update_trash_failure}
use lightai_platform.Server.Trash.{
  ModelFileTrashView, model_file_trash_from_row, model_file_trash_item, cleanup_model_file_trash,
  clean_up, clean_up_online, queue_cleanup, cleanup_answer, cleanup_give_up,
  wait_for_model_file_cleanup, cleanup_task, cleanup_pending, offline_message,
}

-- the row of an item whose cleanup was refused
abbrev pub refused : ℕ → Trash → Trash
refused now t = record t {
  status = "cleanup_failed";
  last_error = some offline_message;
  updated_at = now;
}

module _ (js : Serde) (now : ℕ) (id task_id : String) (turns : List Turn) (db : Db) where
  -- A cleanup of an item with a node has three courses. An item whose file is gone already is
  -- answered as it is, and nothing changes. If the node is offline, the item is marked as failed and
  -- the request is refused, without a task. Otherwise one task is queued for the node, the item is
  -- pending with the id of that task, and the request waits for it.
  pub cleanup_lem :
      (t : Trash) (node_id : String)
      → select_one (trash_is id) db.model_file_trash ≡ some t
      → t.node_id ≡ some node_id
      → let item = model_file_trash_from_row db t in
        cleanup_model_file_trash js now id task_id turns db ≡ (
          if is_some t.file_deleted_at
          then some (ok item, db)
          else if online now node_id db
          then wait_for_model_file_cleanup js id task_id turns (
              update_trash id
                (cleanup_pending now task_id)
                (insert_task (cleanup_task js task_id node_id id item now) db))
          else some (err (conflict offline_message), update_trash id (refused now) db))
  unfolding cleanup_model_file_trash clean_up clean_up_online queue_cleanup model_file_trash_item
      update_trash_failure model_file_trash_from_row
  cleanup_lem t node_id stored node = ground arith

  online_ends :
      (node_id : String) (item : ModelFileTrashView) (up : Bool) (d : Db)
      → any (λ r. r.expired) turns ≡ true
      → clean_up_online js now id task_id node_id item turns up d ≢ none
  unfolding clean_up_online wait_for_model_file_cleanup
  online_ends node_id item false d late e = cc
  online_ends node_id item true d late e =
      then_wait_ends (queue_cleanup js now id task_id node_id item)
        (λ _. wait_for_model_file_cleanup js id task_id turns) d
        (λ _ d'.
          wait_ends (cleanup_answer js id) (cleanup_give_up js id task_id) task_id turns d' late)
        e

  queued_ends :
      (node_id : String) (item : ModelFileTrashView) (d : Db)
      → any (λ r. r.expired) turns ≡ true
      → clean_up js now id task_id node_id item turns d ≢ none
  unfolding clean_up wait_for_model_file_cleanup
  queued_ends node_id item d late = elim (Bool-cases (is_some item.file_deleted_at)) [
    | inl gone ↦ rw gone (λ e. cc)
    | inr kept ↦ rw kept (
        then_wait_ends (node_online now node_id) _ d (λ up d'. online_ends node_id item up d' late))
  ]

  -- A cleanup ends: if the deadline passes in some round of the wait, there is an answer or an error.
  pub cleanup_ends :
      any (λ r. r.expired) turns ≡ true → cleanup_model_file_trash js now id task_id turns db ≢ none
  unfolding cleanup_model_file_trash
  cleanup_ends late = then_wait_ends (model_file_trash_item id) _ db (λ item d.
      then_wait_ends (need item.node_id (bad_request "trash item has no node")) _ d
        (λ node_id d'. queued_ends node_id item d' late))
