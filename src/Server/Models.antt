-- ===== src/Server/Models.antt =====
-- The catalog of models: server/src/domain/model_catalog.rs. The ids of new rows and the clock are
-- arguments. A deletion is soft: it stamps the row and renames it, so that the name is free again.
pub mod Laws
use lightai_platform.Prelude.{
  ℕ, String, ◌<>◌, Bool, not, ◌&&◌, Option, none, some, List, [], ◌∷◌, ◌==◌, any, is_some,
  is_some_and, map, if◌then◌else◌, ◌||◌,
}
use lightai_platform.Prelude.Rows.{select, select_one, insert, update, sort_by}
use lightai_platform.Prelude.{leb}
use lightai_platform.Server.Serde.{Serde}
use lightai_platform.Server.Tables.{Db, Model, model_is, ModelFile, Instance}
use lightai_platform.Server.Exec.{
  DomainError, bad_request, not_found, conflict, internal, Exec, pure, gets, modify, need,
  refuse_if, transaction, ◌>>=◌, ◌>>◌,
}
use lightai_platform.Server.Support.{
  validate_non_empty, validate_model_type, validate_backend, validate_path, validate_json_field,
  ensure_node_exists, live_model,
}
use lightai_platform.Server.Waiting.{Waiting, Turn, then_wait, then_do}
use lightai_platform.Server.AgentTasks.Record.{take_chars}
use lightai_platform.Server.Instances.Edit.{is_live}
use lightai_platform.Server.Runtimes.Request.{if_given}
use lightai_platform.Server.Runtimes.Edit.{is_empty, join_names}
use lightai_platform.Server.Trash.{ModelFileTrashView}
use lightai_platform.Server.Trash.Ensure.{ensure_model_file_trash}
use lightai_platform.Server.ModelFiles.Verify.{VerifiedModelFile, verify_model_file_before_save}
use lightai_platform.Server.ModelFiles.Edit.{ModelFileRequest, verified_row, insert_file}
use lightai_platform.Server.ModelFiles.Summary.{ModelFileSummary, model_file_summary}

pub record ModelRequest : Type 0 where
  pub name : String
  pub display_name : Option String
  pub model_type : String
  pub model_path : Option String
  pub description : Option String
  pub default_backend : Option String
  pub params_json : Option String
  pub initial_file : Option ModelFileRequest

-- the columns of the row, and the summary of its files
pub record ModelView : Type 0 where
  pub row : Model
  pub summary : ModelFileSummary

-- name || '__deleted__' || substr(id, 1, 8)
abbrev pub deleted_name : Model → String
deleted_name m = m.name <> "__deleted__" <> take_chars 8 m.id

-- UNIQUE (name): a row bears the name
abbrev pub named : String → Model → Bool
named name m = m.name == name

-- an UPDATE that renames the rows that satisfy `p` meets a row with a new name of one of them
unfoldable pub renaming_clashes : (Model → Bool) → List Model → Bool
renaming_clashes p models = any (λ m. p m && any (named (deleted_name m)) models) models

abbrev pub update_models : (Model → Bool) → (Model → Model) → Db → Db
update_models p f db = record db { models = update p f db.models }

abbrev pub renamed : ℕ → Model → Model
renamed now m = record m { name = deleted_name m; updated_at = now }

-- WHERE name = ? AND deleted_at IS NOT NULL
abbrev pub deleted_as : String → Model → Bool
deleted_as name m = named name m && is_some m.deleted_at

-- the UPDATE that frees a name that only a deleted model bears
unfoldable pub free_name : ℕ → String → Exec Unit
free_name now name = do
  clash ← gets (λ db. renaming_clashes (deleted_as name) db.models)
  refuse_if clash (internal "UNIQUE constraint failed: models.name")
  modify (update_models (deleted_as name) (renamed now))

abbrev pub name_taken : DomainError
name_taken = conflict "model name already exists; use a different name"

abbrev pub model_row : String → ℕ → ModelRequest → Model
model_row id now r = record {
  id = id;
  name = r.name;
  display_name = r.display_name;
  model_type = r.model_type;
  model_path = r.model_path;
  description = r.description;
  default_backend = r.default_backend;
  params_json = r.params_json;
  created_at = now;
  updated_at = now;
  deleted_at = none;
}

-- INSERT INTO models
unfoldable pub insert_model : Model → Exec Unit
insert_model row = do
  taken ← gets (λ db. any (named row.name) db.models)
  refuse_if taken name_taken
  modify (λ db. record db { models = insert row db.models })

abbrev pub edited_model : ℕ → ModelRequest → Model → Model
edited_model now r m = record m {
  name = r.name;
  display_name = r.display_name;
  model_type = r.model_type;
  model_path = r.model_path;
  description = r.description;
  default_backend = r.default_backend;
  params_json = r.params_json;
  updated_at = now;
}

-- WHERE model_id = ?
abbrev pub uses_model : String → Instance → Bool
uses_model id i = is_some_and i.model_id (λ m. m == id)

-- status IN ('starting', 'running')
abbrev pub is_protected : String → Bool
is_protected status = status == "starting" || status == "running"

abbrev pub removed : ℕ → Model → Model
removed now m = record m { name = deleted_name m; deleted_at = some now; updated_at = now }

-- WHERE model_id = ? AND deleted_at IS NULL
abbrev pub live_file_of : String → ModelFile → Bool
live_file_of id f = f.model_id == id && not (is_some f.deleted_at)

-- the ids of the files, ORDER BY created_at
abbrev pub file_ids : String → Db → List String
file_ids id db =
    map (λ f. f.id)
      (sort_by (λ a b. leb a.created_at b.created_at) (select (live_file_of id) db.model_files))

-- the soft deletion of the row; it is there, and live, for nothing has run since it was looked up
unfoldable pub remove_model : ℕ → String → Exec Unit
remove_model now id = do
  clash ← gets (λ db. renaming_clashes (live_model id) db.models)
  refuse_if clash (internal "UNIQUE constraint failed: models.name")
  found ← gets (λ db. is_some (select_one (live_model id) db.models))
  modify (update_models (live_model id) (removed now))
  refuse_if (not found) (not_found "model not found")

module _ (js : Serde) where
  unfoldable pub model_from_row : ℕ → Model → Exec ModelView
  model_from_row now m = do
    summary ← model_file_summary js now m.id
    pure (record { row = m; summary = summary })

  unfoldable pub model : ℕ → String → Exec ModelView
  model now id = do
    found ← gets (λ db. select_one (model_is id) db.models)
    row ← need found (not_found "model not found")
    model_from_row now row

  -- the checks with which a creation and an update begin
  unfoldable pub check_model_request : ModelRequest → Exec Unit
  check_model_request r = do
    validate_non_empty "name" r.name
    validate_model_type r.model_type
    if_given validate_backend r.default_backend
    if_given (validate_path "model_path") r.model_path
    validate_json_field js "params_json" r.params_json

  -- the checks of the first file
  unfoldable pub check_initial_file : ModelRequest → Exec ModelFileRequest
  check_initial_file r = do
    file ← need r.initial_file (bad_request "initial_file is required")
    validate_non_empty "initial_file.path" file.path
    validate_path "initial_file.path" file.path
    ensure_node_exists file.node_id
    pure file

  -- the transaction of a creation
  unfoldable pub store_model :
      ℕ → String → String → ModelRequest → ModelFileRequest → VerifiedModelFile → Exec Unit
  store_model now id file_id r file v = transaction (do
    free_name now r.name
    insert_model (model_row id now r)
    modify (insert_file (verified_row file_id now id file v)))

  unfoldable pub create_model :
      ℕ → ℕ → String → String → String → ModelRequest → List Turn → Waiting ModelView
  create_model now later id file_id task_id r turns =
      then_wait (do check_model_request r; check_initial_file r)
        (λ file.
          then_do (verify_model_file_before_save js now task_id file.node_id file.path turns)
            (λ v. do store_model later id file_id r file v; model later id))

  unfoldable pub update_model : ℕ → String → ModelRequest → Exec ModelView
  update_model now id r = do
    check_model_request r
    running ← gets (λ db.
        map (λ i. i.name) (select (λ i. uses_model id i && is_live i.status) db.model_instances))
    refuse_if (not (is_empty running)) (
        conflict (
          "Model in use by running instance "
          <> join_names running
          <> ". Cannot modify. Stop the instance first."))
    found ← gets (λ db. is_some (select_one (live_model id) db.models))
    taken ← gets (λ db. found && any (λ m. named r.name m && not (model_is id m)) db.models)
    refuse_if taken name_taken
    modify (update_models (live_model id) (edited_model now r))
    refuse_if (not found) (not_found "model not found")
    model now id

  -- the loop over the files; each new item has an id of its own
  unfoldable pub trash_files : ℕ → (String → String) → List String → Exec Unit
  trash_files now trash_id [] = pure tt
  trash_files now trash_id (f ∷ fs) = do
    item ←
        ensure_model_file_trash js now (trash_id f) f (some "Delete model configuration")
          (some "Model config removed; actual files not deleted. Process individually in Trash.")
    trash_files now trash_id fs

  unfoldable pub delete_model : ℕ → (String → String) → String → Exec Unit
  delete_model now trash_id id = do
    protected ← gets (λ db. any (λ i. uses_model id i && is_protected i.status) db.model_instances)
    refuse_if protected (conflict "model has starting or running instances")
    exists ← gets (λ db. is_some (select_one (live_model id) db.models))
    refuse_if (not exists) (not_found "model not found")
    files ← gets (file_ids id)
    trash_files now trash_id files
    remove_model now id
