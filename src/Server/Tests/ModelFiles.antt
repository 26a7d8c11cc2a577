-- ===== src/Server/Tests/ModelFiles.antt =====
-- The file of the sample fleet.
use lightai_platform.Server.Trash.{model_file_trash_item}
use lightai_platform.Server.AgentTasks.Sweep.{mark_timed_out_tasks}
use lightai_platform.Prelude.{◌≡◌, refl, some, List, [], ◌∷◌}
use lightai_platform.Prelude.Rows.{select, sort_by, select_one, update}
use lightai_platform.Server.Exec.{ok}
use lightai_platform.Server.Tables.{Db, ModelFile}
use lightai_platform.Server.Trash.Ensure.{
  new_trash, ensure_model_file_trash, found_or_new, newest_trash, create_trash,
}
use lightai_platform.Server.ModelFiles.View.{
  model_file_from_row, model_file, model_file_rows, expire_files,
}
use lightai_platform.Server.ModelFiles.Edit.{soft_deleted, delete_model_file, update_file_row}
use lightai_platform.Server.Tests.{text_json, fleet, file_one}

abbrev fleet_without_file : Db
fleet_without_file = record fleet {
  model_files = soft_deleted 405 file_one ∷ [];
  model_file_trash =
      new_trash 405 "x1" "f1" (model_file_from_row 405 fleet file_one)
        (some "Remove node file path from model")
        (some "Only removes the model-file association; actual files are not deleted.")
      ∷ [];
}

file_is_deleted : delete_model_file text_json 405 "x1" "f1" fleet ≡ (ok tt, fleet_without_file)
unfolding delete_model_file ensure_model_file_trash found_or_new newest_trash create_trash
    model_file model_file_rows mark_timed_out_tasks select sort_by model_file_trash_item select_one
    expire_files model_file_from_row update_file_row update
file_is_deleted = refl

abbrev two_files : List ModelFile
two_files = file_one ∷ record file_one { id = "f2"; status = "verifying" } ∷ []
