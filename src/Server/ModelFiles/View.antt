-- ===== src/Server/ModelFiles/View.antt =====
-- `model_file`, `model_file_rows` and `model_file_from_row`: a query first sweeps the overdue tasks,
-- and marks the files whose verification has timed out, of which it shows the state before.
use lightai_platform.Prelude.{
  ℕ, String, Bool, true, not, ◌&&◌, Option, none, some, List, [], ◌∷◌, ◌==◌, and_then, is_some,
  is_some_and, map, map_option, if◌then◌else◌, false,
}
use lightai_platform.Prelude.Rows.{select, select_one, sort_by, first}
use lightai_platform.Prelude.Text.{column_leb, text_leb}
use lightai_platform.Server.Serde.{Serde}
use lightai_platform.Server.Tables.{Db, ModelFile, model_is, node_is, task_is}
use lightai_platform.Server.Exec.{not_found, Exec, pure, gets, modify, need, ◌>>=◌, ◌>>◌}
use lightai_platform.Server.Support.{seen_recently}
use lightai_platform.Server.AgentTasks.Sweep.{mark_timed_out_tasks, update_file, verify_timed_out}

-- the columns of the row, and those of the joins
pub record ModelFileView : Type 0 where
  pub row : ModelFile
  pub open row use *
  pub model_name : Option String
  pub node_name : Option String
  pub node_status : String
  pub verify_task_status : Option String

abbrev node_status_of : ℕ → Option ℕ → String
node_status_of now none = "registered"
node_status_of now (some last_seen) =
    if seen_recently now (some last_seen) then "online" else "offline"

unfoldable pub model_file_from_row : ℕ → Db → ModelFile → ModelFileView
model_file_from_row now db f =
    let node = select_one (node_is f.node_id) db.nodes in
    record {
      row = f;
      model_name = map_option (λ m. m.name) (select_one (model_is f.model_id) db.models);
      node_name = map_option (λ n. n.name) node;
      node_status = node_status_of now (and_then node (λ n. n.last_heartbeat_at));
      verify_task_status =
          map_option (λ t. t.status)
            (and_then f.verify_task_id (λ id. select_one (task_is id) db.agent_tasks));
    }

-- (? IS NULL OR column = ?)
abbrev pub matches : Option String → String → Bool
matches none column = true
matches (some wanted) column = column == wanted

abbrev pub wanted_file : Option String → Option String → ModelFile → Bool
wanted_file model_id file_id f =
    matches model_id f.model_id && matches file_id f.id && not (is_some f.deleted_at)

-- ORDER BY n.name, mf.path
abbrev pub before : ModelFileView → ModelFileView → Bool
before a b =
    if column_leb a.node_name b.node_name
    then (if column_leb b.node_name a.node_name then text_leb a.path b.path else true)
    else false

-- the loop over the rows
unfoldable pub expire_files : ℕ → List ModelFileView → Db → Db
expire_files now [] db = db
expire_files now (v ∷ vs) db = expire_files now vs (
    if v.status == "verifying" && is_some_and v.verify_task_status (λ s. s == "timed_out")
    then update_file v.id (verify_timed_out now) db
    else db)

module _ (js : Serde) where
  unfoldable pub model_file_rows : ℕ → Option String → Option String → Exec (List ModelFileView)
  model_file_rows now model_id file_id = do
    mark_timed_out_tasks js now
    rows ← gets (λ db. sort_by before (
        map (λ f. model_file_from_row now db f)
          (select (wanted_file model_id file_id) db.model_files)))
    modify (expire_files now rows)
    pure rows

  unfoldable pub model_file : ℕ → String → Exec ModelFileView
  model_file now id = do
    rows ← model_file_rows now none (some id)
    need (first rows) (not_found "model file not found")
