-- ===== src/Server/ModelFiles/Edit.antt =====
-- Creation, update, deletion and queued verification of a model file. The ids of new rows and the
-- clock, before and after the wait for the agent, are arguments.
use lightai_platform.Prelude.{
  ℕ, String, Bool, not, none, some, List, [], ◌∷◌, is_some, if◌then◌else◌,
}
use lightai_platform.Prelude.Rows.{select_one, insert}
use lightai_platform.Server.Serde.{Serde}
use lightai_platform.Server.Tables.{Db, ModelFile, file_is}
use lightai_platform.Server.Exec.{
  not_found, Exec, gets, modify, refuse_if, transaction, ◌>>=◌, ◌>>◌,
}
use lightai_platform.Server.Support.{
  validate_non_empty, validate_path, ensure_model_exists, ensure_node_exists, node_online,
}
use lightai_platform.Server.AgentTasks.Sweep.{update_file}
use lightai_platform.Server.AgentTasks.Lifecycle.{queued_task}
use lightai_platform.Server.TaskRequest.{insert_task}
use lightai_platform.Server.Waiting.{Waiting, Turn, then_wait, then_do}
use lightai_platform.Server.Trash.Ensure.{ensure_model_file_trash}
use lightai_platform.Server.ModelFiles.View.{ModelFileView, model_file}
use lightai_platform.Server.ModelFiles.Verify.{VerifiedModelFile, verify_model_file_before_save}

pub record ModelFileRequest : Type 0 where
  pub node_id : String
  pub path : String

-- the row of a verified file
abbrev pub verified_row : String → ℕ → String → ModelFileRequest → VerifiedModelFile → ModelFile
verified_row id now model_id r v = record {
  id = id;
  model_id = model_id;
  node_id = r.node_id;
  path = r.path;
  path_type = v.path_type;
  status = "verified";
  size_bytes = v.size_bytes;
  last_verified_at = some v.verified_at;
  last_error = none;
  verify_task_id = none;
  deleted_at = none;
  created_at = now;
  updated_at = now;
}

abbrev pub insert_file : ModelFile → Db → Db
insert_file f db = record db { model_files = insert f db.model_files }

abbrev pub moved : ℕ → ModelFileRequest → VerifiedModelFile → ModelFile → ModelFile
moved now r v f = record f {
  node_id = r.node_id;
  path = r.path;
  status = "verified";
  size_bytes = v.size_bytes;
  last_verified_at = some v.verified_at;
  path_type = v.path_type;
  last_error = none;
  verify_task_id = none;
  updated_at = now;
}

-- UPDATE model_files SET f WHERE id = ?, and `rows_affected() == 0`
unfoldable pub update_file_row : String → (ModelFile → ModelFile) → Exec Unit
update_file_row id f = do
  found ← gets (λ db. is_some (select_one (file_is id) db.model_files))
  modify (update_file id f)
  refuse_if (not found) (not_found "model file not found")

abbrev pub soft_deleted : ℕ → ModelFile → ModelFile
soft_deleted now f = record f { deleted_at = some now; updated_at = now }

abbrev pub verify_queued : ℕ → String → String → ModelFile → ModelFile
verify_queued now task_id message f = record f {
  status = "verify_pending";
  verify_task_id = some task_id;
  last_error = some message;
  updated_at = now;
}

module _ (js : Serde) where
  -- the checks before the agent is asked
  unfoldable pub check_file_request : ModelFileRequest → Exec Unit
  check_file_request r = do validate_non_empty "path" r.path; validate_path "path" r.path

  unfoldable pub create_model_file :
      ℕ → ℕ → String → String → String → ModelFileRequest → List Turn → Waiting ModelFileView
  create_model_file now later id task_id model_id r turns =
      then_wait
        (do check_file_request r; ensure_model_exists model_id; ensure_node_exists r.node_id)
        (λ _. then_do (verify_model_file_before_save js now task_id r.node_id r.path turns) (λ v. do
          modify (insert_file (verified_row id later model_id r v))
          model_file js later id))

  unfoldable pub update_model_file :
      ℕ → ℕ → String → String → ModelFileRequest → List Turn → Waiting ModelFileView
  update_model_file now later id task_id r turns =
      then_wait (do check_file_request r; ensure_node_exists r.node_id)
        (λ _.
          then_do (verify_model_file_before_save js now task_id r.node_id r.path turns)
            (λ v. do update_file_row id (moved later r v); model_file js later id))

  unfoldable pub delete_model_file : ℕ → String → String → Exec Unit
  delete_model_file now trash_id id = do
    item ←
        ensure_model_file_trash js now trash_id id (some "Remove node file path from model")
          (some "Only removes the model-file association; actual files are not deleted.")
    update_file_row id (soft_deleted now)

  abbrev pub wait_message : Bool → String
  wait_message online =
      if online
      then "Waiting for node Agent to verify"
      else "Waiting for node Agent to come online for verification"

  unfoldable pub queue_model_file_verification : ℕ → String → String → Exec ModelFileView
  queue_model_file_verification now task_id id = do
    file ← model_file js now id
    online ← node_online now file.node_id
    transaction (do
      modify (
          insert_task (
            queued_task task_id file.node_id "verify_model_file"
              (js.to_string (
                js.object
                  (("model_file_id", js.string file.id) ∷ ("path", js.string file.path) ∷ [])))
              now))
      modify (update_file id (verify_queued now task_id (wait_message online))))
    model_file js now id
