-- ===== src/Server/Listings.antt =====
-- The lists that the front end shows: list_runtime_environments (server/src/domain/runtimes.rs),
-- list_model_files (model_files.rs), list_models (model_catalog.rs), list_model_file_trash
-- (model_trash.rs) and list_model_instances (instances.rs). They sort as their queries do.
pub mod Laws
use lightai_platform.Prelude.{
  ℕ, String, Bool, not, ◌&&◌, Option, none, some, List, [], ◌∷◌, ◌==◌, map, is_some, is_some_and,
  leb, if◌then◌else◌, true, false,
}
use lightai_platform.Prelude.Text.{text_leb, column_leb}
use lightai_platform.Prelude.Rows.{select, sort_by}
use lightai_platform.Server.Serde.{Serde}
use lightai_platform.Server.Tables.{Db, Runtime, Model, Trash}
use lightai_platform.Server.Exec.{Exec, pure, gets, ◌>>=◌, ◌>>◌}
use lightai_platform.Server.Support.{ensure_model_exists}
use lightai_platform.Server.InstanceView.{InstanceView, model_instance_from_row}
use lightai_platform.Server.ModelFiles.View.{ModelFileView, model_file_rows}
use lightai_platform.Server.Models.{ModelView, model_from_row}
use lightai_platform.Server.Trash.{ModelFileTrashView, model_file_trash_from_row}

-- ORDER BY node_id, name
abbrev pub runtime_before : Runtime → Runtime → Bool
runtime_before a b =
    if column_leb a.node_id b.node_id
    then (if column_leb b.node_id a.node_id then text_leb a.name b.name else true)
    else false

unfoldable pub list_runtime_environments : Option String → Exec (List Runtime)
list_runtime_environments (some node_id) = gets (λ db.
    sort_by (λ a b. text_leb a.name b.name)
      (select (λ r. is_some_and r.node_id (λ n. n == node_id)) db.runtime_environments))
list_runtime_environments none = gets (λ db. sort_by runtime_before db.runtime_environments)

-- ORDER BY created_at DESC
abbrev pub newer : ModelFileTrashView → ModelFileTrashView → Bool
newer a b = leb b.created_at a.created_at

unfoldable pub list_model_file_trash : Exec (List ModelFileTrashView)
list_model_file_trash =
    gets (λ db. sort_by newer (map (λ t. model_file_trash_from_row db t) db.model_file_trash))

abbrev pub newer_instance : InstanceView → InstanceView → Bool
newer_instance a b = leb b.created_at a.created_at

unfoldable pub list_model_instances : ℕ → Exec (List InstanceView)
list_model_instances now =
    gets (λ db.
      sort_by newer_instance (map (λ i. model_instance_from_row now db i) db.model_instances))

module _ (js : Serde) where
  unfoldable pub list_model_files : ℕ → String → Exec (List ModelFileView)
  list_model_files now model_id = do
    ensure_model_exists model_id
    model_file_rows js now (some model_id) none

  -- the loop over the rows
  unfoldable pub model_views : ℕ → List Model → Exec (List ModelView)
  model_views now [] = pure []
  model_views now (m ∷ ms) = do
    view ← model_from_row js now m
    views ← model_views now ms
    pure (view ∷ views)

  unfoldable pub list_models : ℕ → Exec (List ModelView)
  list_models now = do
    rows ← gets (λ db.
        sort_by (λ a b. text_leb a.name b.name)
          (select (λ m. not (is_some m.deleted_at)) db.models))
    model_views now rows
