-- ===== src/Server/ModelFiles/Laws.antt =====
-- What the handlers of model files promise.
pub mod Summary
use lightai_platform.Prelude.{
  ℕ, String, ◌≡◌, refl, sym, subst, ◌∙◌, ap, ◌&&◌, not, Bool, true, false, Option, some, none, List,
  [], ◌∷◌, any, is_some, arith,
}
use lightai_platform.Prelude.Rows.{update, select_one}
use lightai_platform.Server.Serde.{Serde}
use lightai_platform.Server.Tables.{Db, ModelFile, file_is}
use lightai_platform.Server.Exec.{Exec, Result, ok, err, next, ◌>>=◌}
use lightai_platform.Server.Exec.Laws.{next_inv, next_ok}
use lightai_platform.Server.AgentTasks.Sweep.{update_file}
use lightai_platform.Server.Trash.{ModelFileTrashView}
use lightai_platform.Server.Trash.Ensure.{ensure_model_file_trash}
use lightai_platform.Server.Trash.Ensure.Laws.{HasTrash, ensure_gives}
use lightai_platform.Server.Waiting.{Turn, Ends, ends}
use lightai_platform.Server.ModelFiles.Verify.{
  verify_model_file_before_save, wait_for_model_file_verification,
}
use lightai_platform.Server.ModelFiles.Edit.{
  ModelFileRequest, create_model_file, update_file_row, soft_deleted, delete_model_file,
  create_model_file,
}

-- no row with the id is live
abbrev pub IsGone : String → Db → Type 0
IsGone id db = any (λ f. file_is id f && not (is_some f.deleted_at)) db.model_files ≡ false

gone-update :
    (now : ℕ) (id : String) (fs : List ModelFile)
    → any
        (λ f. file_is id f && not (is_some f.deleted_at))
        (update (file_is id) (soft_deleted now) fs)
      ≡ false
unfolding any update
gone-update now id [] = refl
gone-update now id (f ∷ fs) = ground (arith, gone-update now id fs)

row_deleted :
    (now : ℕ) (id : String) (db db' : Db) (u : Unit)
    → update_file_row id (soft_deleted now) db ≡ (ok u, db')
    → db' ≡ update_file id (soft_deleted now) db
unfolding update_file_row
row_deleted now id db db' u h = ground arith

deleted_inv :
    (now : ℕ) (id : String) (r : Result ModelFileTrashView × Db) (u : Unit) (db' : Db)
    → ((a : ModelFileTrashView) (d : Db) → r ≡ (ok a, d) → HasTrash id d)
    → next r (λ _. update_file_row id (soft_deleted now)) ≡ (ok u, db')
    → HasTrash id db' × IsGone id db'
deleted_inv now id (ok a, d) u db' has h =
    let e = row_deleted now id d db' u h in
    (
      subst (HasTrash id) (sym e) (has a d refl),
      subst (IsGone id) (sym e) (gone-update now id d.model_files),
    )
deleted_inv now id (err x, d) u db' has h = cc

-- A `delete_model_file` that succeeds leaves no live file with the id, and an item of the file in the
-- trash.
pub delete_file_sound :
    (js : Serde) (now : ℕ) (trash_id id : String) (db db' : Db) (u : Unit)
    → delete_model_file js now trash_id id db ≡ (ok u, db')
    → HasTrash id db' × IsGone id db'
unfolding delete_model_file
delete_file_sound js now trash_id id db db' u h =
    deleted_inv now id (ensure_model_file_trash js now trash_id id _ _ db) u db'
      ((ensure_gives js now trash_id id _ _).at db) h

pub verify_file-Ends :
    (js : Serde) (now : ℕ) (task_id node_id path : String) (turns : List Turn)
    → any (λ r. r.expired) turns ≡ true
    → Ends (verify_model_file_before_save js now task_id node_id path turns)
unfolding verify_model_file_before_save wait_for_model_file_verification
verify_file-Ends js now task_id node_id path turns late = search ends depth 14

-- A creation of a model file ends: if the deadline passes in some round of the wait for the agent,
-- there is an answer or an error, whatever the agent and the other requests do.
pub create_file-Ends :
    (js : Serde) (now later : ℕ) (id task_id model_id : String) (r : ModelFileRequest)
    (turns : List Turn)
    → any (λ r. r.expired) turns ≡ true
    → Ends (create_model_file js now later id task_id model_id r turns)
unfolding create_model_file
create_file-Ends js now later id task_id model_id r turns late =
    search (ends, verify_file-Ends) depth 14
