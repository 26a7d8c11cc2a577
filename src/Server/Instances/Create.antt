-- ===== src/Server/Instances/Create.antt =====
-- `create_model_instance` and `create_local_model_instance` of server/src/domain/instances.rs. The
-- id of the new row and the clock are arguments.
pub mod Laws
use Prim.Native.String.{len}
use lightai_platform.Prelude.{
  ℕ, String, Bool, true, not, ◌&&◌, ◌||◌, Option, none, some, List, [], ◌∷◌, ltb, ◌==◌, and_then,
  is_some, is_some_and, keep_if, map_option, unwrap_or, if◌then◌else◌,
}
use lightai_platform.Prelude.Rows.{select_one, insert}
use lightai_platform.Prelude.Text.{is_blank, is_control, any_char, trim}
use lightai_platform.Server.Serde.{Serde}
use lightai_platform.Server.Tables.{Db, Instance, Model, Runtime, model_is, node_is, runtime_is}
use lightai_platform.Server.Exec.{
  bad_request, internal, Exec, pure, gets, modify, need, refuse_if, ◌>>=◌, ◌>>◌,
}
use lightai_platform.Server.Support.{
  live_model, validate_non_empty, validate_backend, validate_json_field,
}
use lightai_platform.Server.InstanceView.{InstanceView, model_instance}
use lightai_platform.Server.Instances.Params.{
  Http, validate_optional_non_empty, validate_base_url_required, validate_instance_deploy_type,
  validate_instance_status, validate_instance_urls, runtime_environment, runtime_environment_usable,
  verified_model_file_for_instance, parse_instance_params,
}

pub record ModelInstanceCreateRequest : Type 0 where
  pub model_id : Option String
  pub model_file_id : Option String
  pub node_id : Option String
  pub runtime_environment_id : Option String
  pub name : String
  pub deploy_type : Option String
  pub backend : Option String
  pub base_url : Option String
  pub endpoint_url : Option String
  pub health_url : Option String
  pub runtime_version : Option String
  pub model_name : Option String
  pub description : Option String
  pub status : Option String
  pub params_json : Option String

-- INSERT INTO model_instances
abbrev pub insert_instance : Instance → Db → Db
insert_instance i db = record db { model_instances = insert i db.model_instances }

-- a model that the request names is there, and not deleted
abbrev model_known : Option String → Db → Bool
model_known none db = true
model_known (some id) db = is_some (select_one (live_model id) db.models)

-- node_id REFERENCES nodes(id), runtime_environment_id REFERENCES runtime_environments(id)
abbrev references_hold : Option String → Option String → Db → Bool
references_hold node_id runtime_id db =
    (not (is_some node_id) || is_some (and_then node_id (λ id. select_one (node_is id) db.nodes)))
    && (not (is_some runtime_id)
        || is_some (and_then runtime_id (λ id. select_one (runtime_is id) db.runtime_environments)))

-- the row of an external instance
abbrev pub external_row : String → ℕ → String → String → ModelInstanceCreateRequest → Instance
external_row id now backend deploy_type r = record {
  id = id;
  model_id = r.model_id;
  model_file_id = none;
  node_id = r.node_id;
  runtime_environment_id = r.runtime_environment_id;
  name = r.name;
  backend = backend;
  deploy_type = deploy_type;
  status = unwrap_or r.status "unknown";
  base_url = r.base_url;
  endpoint_url = r.endpoint_url;
  health_url = r.health_url;
  runtime_version = r.runtime_version;
  model_name = r.model_name;
  description = r.description;
  params_json = r.params_json;
  process_id = none;
  process_ref = none;
  log_tail = none;
  command = none;
  last_checked_at = none;
  last_error = none;
  created_at = now;
  updated_at = now;
}

-- The model and the file of a local instance; Ollama names its model in the parameters instead.
pub record Subject : Type 0 where
  pub model_id : Option String
  pub model_file_id : Option String

-- the row of a local instance
abbrev pub local_row :
    String → ℕ → ModelInstanceCreateRequest → String → String → Runtime → Subject → Instance
local_row id now request node_id runtime_id env subject =
    record (external_row id now env.backend "local" request) {
      model_id = subject.model_id;
      model_file_id = subject.model_file_id;
      node_id = some node_id;
      runtime_environment_id = some runtime_id;
      status = "stopped";
      base_url = none;
      endpoint_url = none;
      health_url = none;
      runtime_version = env.version;
    }

module _ (js : Serde) where
  -- the name of an Ollama model: not blank, at most 256 bytes, no control character
  unfoldable pub ollama_subject : js.Value → Exec Subject
  ollama_subject params = do
    name ←
        need (keep_if (and_then (js.get params "ollama_model") js.as_str) (λ s. not (is_blank s)))
          (bad_request "ollama_model is required for Ollama backend instances")
    refuse_if (ltb 256 (len name) || any_char is_control name)
        (bad_request "ollama_model contains invalid characters")
    pure (record { model_id = none; model_file_id = none })

  unfoldable pub file_subject : String → Option String → Exec Subject
  file_subject node_id wanted = do
    model_file_id ← need wanted (bad_request "Local instance requires a verified model file")
    file ← verified_model_file_for_instance model_file_id
    refuse_if (not (file.node_id == node_id))
        (bad_request "Model file does not belong to the selected node")
    pure (record { model_id = some file.model_id; model_file_id = some model_file_id })

  unfoldable pub local_subject : Runtime → String → js.Value → Option String → Exec Subject
  local_subject env node_id params wanted =
      if env.backend == "ollama" then ollama_subject params else file_subject node_id wanted

  unfoldable pub create_local_model_instance :
      ℕ → String → ModelInstanceCreateRequest → Exec InstanceView
  create_local_model_instance now id request = do
    validate_json_field js "params_json" request.params_json
    params ← parse_instance_params js request.params_json
    node_id ← need request.node_id (bad_request "Local instance requires a node")
    runtime_environment_id ←
        need request.runtime_environment_id
          (bad_request "Local instance requires a runtime environment")
    env ← runtime_environment runtime_environment_id
    refuse_if (not (is_some_and env.node_id (λ n. n == node_id)))
        (bad_request "Runtime environment does not belong to the selected node")
    refuse_if (not (runtime_environment_usable env.check_status))
        (bad_request "Runtime environment has not passed Agent check")
    subject ← local_subject env node_id params request.model_file_id
    modify (insert_instance (local_row id now request node_id runtime_environment_id env subject))
    model_instance now id

  unfoldable pub create_model_instance :
      Http → ℕ → String → ModelInstanceCreateRequest → Exec InstanceView
  create_model_instance http now id request = do
    validate_non_empty "name" request.name
    validate_instance_status (unwrap_or request.status "unknown")
    let deploy_type = unwrap_or request.deploy_type "external"
    validate_instance_deploy_type deploy_type
    if deploy_type == "local" then create_local_model_instance now id request else do
      let backend =
          unwrap_or (keep_if (map_option trim request.backend) (λ s. not (s == ""))) "custom"
      validate_backend backend
      validate_base_url_required request.base_url
      validate_optional_non_empty "model_name" request.model_name
      validate_instance_urls http request.base_url request.endpoint_url request.health_url
      validate_json_field js "params_json" request.params_json
      known ← gets (model_known request.model_id)
      refuse_if (not known) (bad_request "model not found")
      linked ← gets (references_hold request.node_id request.runtime_environment_id)
      refuse_if (not linked) (internal "FOREIGN KEY constraint failed")
      modify (insert_instance (external_row id now backend deploy_type request))
      model_instance now id
