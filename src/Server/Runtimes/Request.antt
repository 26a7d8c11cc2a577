-- ===== src/Server/Runtimes/Request.antt =====
-- A request about a runtime environment, and `validate_runtime_entrypoints` of
-- server/src/domain/support.rs.
use lightai_platform.Prelude.{
  String, Bool, true, not, ◌&&◌, ◌||◌, Option, none, some, is_some_and, ◌==◌, if◌then◌else◌,
}
use lightai_platform.Prelude.Text.{is_blank}
use lightai_platform.Server.Serde.{Serde}
use lightai_platform.Server.Exec.{bad_request, Exec, pure, fail, refuse_if, ◌>>◌}
use lightai_platform.Server.Support.{
  validate_non_empty, validate_backend, validate_deploy_type, validate_path, validate_no_whitespace,
  validate_json_field,
}

pub record RuntimeEnvironmentRequest : Type 0 where
  pub name : String
  pub backend : String
  pub deploy_type : String
  pub version : Option String
  pub base_url : Option String
  pub health_url : Option String
  pub endpoint_url : Option String
  pub binary_path : Option String
  pub docker_image : Option String
  pub working_dir : Option String
  pub log_dir : Option String
  pub allowed_model_dirs_json : Option String
  pub params_json : Option String
  pub enabled : Option Bool

abbrev pub given : Option String → Bool
given value = is_some_and value (λ s. not (is_blank s))

-- `value.is_none_or(str::is_empty)`
abbrev pub is_missing : Option String → Bool
is_missing none = true
is_missing (some s) = s == ""

-- `if let Some(value) = … { validate(field, value)?; }`
abbrev pub if_given : (String → Exec Unit) → Option String → Exec Unit
if_given validate none = pure tt
if_given validate (some value) = validate value

-- the `match` on the deploy type
abbrev pub check_entry : RuntimeEnvironmentRequest → Exec Unit
check_entry r =
    if r.deploy_type == "docker" && is_missing r.docker_image
    then fail (bad_request "Docker runtime must specify an image")
    else if (r.deploy_type == "script" || r.deploy_type == "binary")
        && not (r.backend == "ollama")
        && is_missing r.binary_path
    then fail (bad_request "Runtime must specify a controlled entry path")
    else pure tt

unfoldable pub validate_runtime_entrypoints : RuntimeEnvironmentRequest → Exec Unit
validate_runtime_entrypoints r = do
  refuse_if (given r.base_url || given r.health_url || given r.endpoint_url)
      (bad_request "Runtime no longer accepts External URL; connect external services via Instance")
  if_given (validate_path "binary_path") r.binary_path
  if_given (validate_path "working_dir") r.working_dir
  if_given (validate_path "log_dir") r.log_dir
  if_given (validate_no_whitespace "docker_image") r.docker_image
  check_entry r

-- the validation with which a creation and an update begin
unfoldable pub validate_runtime : Serde → RuntimeEnvironmentRequest → Exec Unit
validate_runtime js r = do
  validate_non_empty "name" r.name
  validate_backend r.backend
  validate_deploy_type r.deploy_type
  validate_runtime_entrypoints r
  validate_json_field js "allowed_model_dirs_json" r.allowed_model_dirs_json
  validate_json_field js "params_json" r.params_json
