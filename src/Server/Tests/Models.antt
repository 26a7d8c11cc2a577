-- ===== src/Server/Tests/Models.antt =====
-- A model of the sample fleet, and its deletion.
use lightai_platform.Server.AgentTasks.Record.{take_chars}
use lightai_platform.Server.Trash.{model_file_trash_item}
use lightai_platform.Server.AgentTasks.Sweep.{mark_timed_out_tasks}
use lightai_platform.Prelude.Rows.{select_one, sort_by, select, update}
use lightai_platform.Prelude.{◌≡◌, ◌<>◌, refl, false, none, some, [], ◌∷◌, any, All, ◌&&◌}
use lightai_platform.Server.Exec.{ok}
use lightai_platform.Server.Tables.{Db, Model}
use lightai_platform.Server.Trash.Ensure.{
  new_trash, ensure_model_file_trash, found_or_new, newest_trash, create_trash,
}
use lightai_platform.Server.Trash.Ensure.Laws.{HasTrash}
use lightai_platform.Server.ModelFiles.View.{
  model_file_from_row, model_file, model_file_rows, expire_files,
}
use lightai_platform.Server.Models.{
  ModelRequest, delete_model, removed, uses_model, is_protected, file_ids, trash_files,
  remove_model, renaming_clashes,
}
use lightai_platform.Server.Models.Laws.{has_live_model, delete_model_sound}
use lightai_platform.Server.Tests.{text_json, fleet, file_one, instance}

abbrev chat_model : Model
chat_model = record {
  id = "m1";
  name = "chat";
  display_name = none;
  model_type = "llm";
  model_path = none;
  description = none;
  default_backend = none;
  params_json = none;
  created_at = 1;
  updated_at = 1;
  deleted_at = none;
}

abbrev idle_fleet : Db
idle_fleet = record fleet {
  models = chat_model ∷ [];
  model_instances = instance "i2" "stopped" ∷ [];
}

abbrev emptied_fleet : Db
emptied_fleet = record idle_fleet {
  models = removed 405 chat_model ∷ [];
  model_file_trash =
      new_trash 405 "xf1" "f1" (model_file_from_row 405 idle_fleet file_one)
        (some "Delete model configuration")
        (some "Model config removed; actual files not deleted. Process individually in Trash.")
      ∷ [];
}

model_is_deleted :
    delete_model text_json 405 (λ f. "x" <> f) "m1" idle_fleet ≡ (ok tt, emptied_fleet)
unfolding delete_model any select_one trash_files sort_by select ensure_model_file_trash
    found_or_new newest_trash create_trash model_file model_file_rows mark_timed_out_tasks
    model_file_trash_item expire_files model_file_from_row remove_model renaming_clashes update
    take_chars
model_is_deleted = refl

delete_model_example :
    (any (λ i. uses_model "m1" i && is_protected i.status) idle_fleet.model_instances ≡ false)
    × All (λ f. HasTrash f emptied_fleet) (file_ids "m1" idle_fleet)
    × (has_live_model "m1" emptied_fleet ≡ false)
delete_model_example =
    delete_model_sound text_json 405 (λ f. "x" <> f) "m1" idle_fleet emptied_fleet tt
      model_is_deleted

abbrev chat_request : ModelRequest
chat_request = record {
  name = "chat";
  display_name = none;
  model_type = "llm";
  model_path = none;
  description = none;
  default_backend = none;
  params_json = none;
  initial_file = some (record { node_id = "n1"; path = "/models/chat" });
}
