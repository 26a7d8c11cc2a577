-- ===== src/Server/Instances/Edit.antt =====
-- `update_model_instance` and `delete_model_instance` of server/src/domain/instances.rs.
pub mod Kept
pub mod Laws
use lightai_platform.Prelude.{
  ℕ, String, Bool, not, ◌&&◌, ◌||◌, Option, none, some, List, [], ◌∷◌, ◌==◌, is_some, keep_if,
  or_else, unwrap_or, if◌then◌else◌,
}
use lightai_platform.Prelude.Rows.{select_one, delete}
use lightai_platform.Prelude.Text.{is_blank}
use lightai_platform.Server.Serde.{Serde}
use lightai_platform.Server.Tables.{Db, Instance, instance_is}
use lightai_platform.Server.Exec.{
  conflict, not_found, Exec, pure, gets, modify, refuse_if, ◌>>=◌, ◌>>◌,
}
use lightai_platform.Server.Support.{validate_non_empty, validate_backend, validate_json_field}
use lightai_platform.Server.InstanceView.{InstanceView, model_instance, update_instance}
use lightai_platform.Server.Instances.Params.{
  Http, validate_optional_non_empty, validate_base_url_required, validate_instance_status,
  validate_instance_urls,
}

pub record ModelInstanceUpdateRequest : Type 0 where
  pub name : Option String
  pub backend : Option String
  pub base_url : Option String
  pub endpoint_url : Option String
  pub health_url : Option String
  pub runtime_version : Option String
  pub model_name : Option String
  pub description : Option String
  pub status : Option String
  pub params_json : Option String

-- "running" | "starting" | "stopping"
abbrev pub is_live : String → Bool
is_live status = status == "running" || status == "starting" || status == "stopping"

-- a request that changes the configuration: all but the description and the status
unfoldable pub is_config_change : ModelInstanceUpdateRequest → Bool
is_config_change r =
    is_some r.name
    || is_some r.params_json
    || is_some r.backend
    || is_some r.base_url
    || is_some r.endpoint_url
    || is_some r.health_url
    || is_some r.runtime_version
    || is_some r.model_name

abbrev pub edited_local : ℕ → ModelInstanceUpdateRequest → InstanceView → Instance → Instance
edited_local now r current i = record i {
  name = unwrap_or r.name current.name;
  description = or_else r.description current.description;
  params_json = or_else r.params_json current.params_json;
  updated_at = now;
}

abbrev pub edited_external : ℕ → ModelInstanceUpdateRequest → InstanceView → Instance → Instance
edited_external now r current i = record i {
  name = unwrap_or r.name current.name;
  backend = unwrap_or (keep_if r.backend (λ s. not (is_blank s))) current.backend;
  status = unwrap_or r.status current.status;
  base_url = or_else r.base_url current.base_url;
  endpoint_url = or_else r.endpoint_url current.endpoint_url;
  health_url = or_else r.health_url current.health_url;
  runtime_version = or_else r.runtime_version current.runtime_version;
  model_name = or_else r.model_name current.model_name;
  description = or_else r.description current.description;
  params_json = or_else r.params_json current.params_json;
  updated_at = now;
}

abbrev pub check_backend : Option String → Exec Unit
check_backend none = pure tt
check_backend (some backend) = if is_blank backend then pure tt else validate_backend backend

module _ (js : Serde) where
  unfoldable pub edit_local :
      ℕ → String → ModelInstanceUpdateRequest → InstanceView → Exec InstanceView
  edit_local now id request current = do
    validate_non_empty "name" (unwrap_or request.name current.name)
    validate_json_field js "params_json" (or_else request.params_json current.params_json)
    modify (update_instance id (edited_local now request current))
    model_instance now id

  unfoldable pub edit_external :
      Http → ℕ → String → ModelInstanceUpdateRequest → InstanceView → Exec InstanceView
  edit_external http now id request current = do
    validate_non_empty "name" (unwrap_or request.name current.name)
    validate_instance_status (unwrap_or request.status current.status)
    check_backend request.backend
    validate_base_url_required (or_else request.base_url current.base_url)
    validate_optional_non_empty "model_name" (or_else request.model_name current.model_name)
    validate_instance_urls http request.base_url request.endpoint_url request.health_url
    validate_json_field js "params_json" (or_else request.params_json current.params_json)
    modify (update_instance id (edited_external now request current))
    model_instance now id

  unfoldable pub update_model_instance :
      Http → ℕ → String → ModelInstanceUpdateRequest → Exec InstanceView
  update_model_instance http now id request = do
    current ← model_instance now id
    refuse_if (is_live current.status && is_config_change request)
        (conflict "Cannot modify a running instance. Stop it first.")
    if current.deploy_type == "local"
        then edit_local now id request current
        else edit_external http now id request current

unfoldable pub delete_model_instance : ℕ → String → Exec Unit
delete_model_instance now id = do
  instance_ ← model_instance now id
  refuse_if (is_live instance_.status) (conflict "Cannot delete a running instance. Stop it first.")
  found ← gets (λ db. is_some (select_one (instance_is id) db.model_instances))
  modify (λ db. record db { model_instances = delete (instance_is id) db.model_instances })
  refuse_if (not found) (not_found "model instance not found")
