-- ===== src/Server/InstanceView.antt =====
-- A model instance as the API shows it: `model_instance`, `model_instance_from_row` and
-- `update_instance_check` of server/src/domain/instances.rs.
pub mod Laws
use lightai_platform.Prelude.{ℕ, String, Bool, Option, none, some, map_option, and_then}
use lightai_platform.Prelude.Rows.{select_one, update}
use lightai_platform.Server.Tables.{
  Db, Instance, instance_is, model_is, file_is, node_is, runtime_is,
}
use lightai_platform.Server.Exec.{Exec, not_found, pure, gets, modify, need, ◌>>=◌, ◌>>◌}
use lightai_platform.Server.Support.{seen_recently}

-- the columns of the row, and those that the joins add
pub record InstanceView : Type 0 where
  pub row : Instance
  pub open row use *
  pub model_definition_name : Option String
  pub model_file_path : Option String
  pub node_name : Option String
  pub node_online : Bool
  pub last_heartbeat_at : Option ℕ
  pub runtime_environment_name : Option String

unfoldable pub model_instance_from_row : ℕ → Db → Instance → InstanceView
model_instance_from_row now db i =
    let node = and_then i.node_id (λ id. select_one (node_is id) db.nodes) in
    let seen = and_then node (λ n. n.last_heartbeat_at) in
    record {
      row = i;
      model_definition_name =
          map_option (λ m. m.name) (and_then i.model_id (λ id. select_one (model_is id) db.models));
      model_file_path =
          map_option (λ f. f.path)
            (and_then i.model_file_id (λ id. select_one (file_is id) db.model_files));
      node_name = map_option (λ n. n.name) node;
      node_online = seen_recently now seen;
      last_heartbeat_at = seen;
      runtime_environment_name =
          map_option (λ r. r.name)
            (and_then i.runtime_environment_id
              (λ id. select_one (runtime_is id) db.runtime_environments));
    }

unfoldable pub model_instance : ℕ → String → Exec InstanceView
model_instance now id = do
  found ← gets (λ db. select_one (instance_is id) db.model_instances)
  row ← need found (not_found "model instance not found")
  gets (λ db. model_instance_from_row now db row)

-- UPDATE model_instances SET f WHERE id = ?
abbrev pub update_instance : String → (Instance → Instance) → Db → Db
update_instance id f db = record db {
  model_instances = update (instance_is id) f db.model_instances;
}

abbrev pub checked : ℕ → String → Option String → Instance → Instance
checked now status error i = record i {
  status = status;
  last_checked_at = some now;
  last_error = error;
  updated_at = now;
}

unfoldable pub update_instance_check : ℕ → String → String → Option String → Exec InstanceView
unfolding model_instance
update_instance_check now id status error = do
  modify (update_instance id (checked now status error))
  model_instance now id
