-- ===== src/Server/Instances/Params/Laws.antt =====
-- The validators and queries of an instance only read.
use lightai_platform.Prelude.{String, Option, none, some, List, [], ◌∷◌}
use lightai_platform.Server.Serde.{Serde}
use lightai_platform.Server.Exec.Effects.{ReadOnly, ReadOnly-bind, reads}
use lightai_platform.Server.Support.Laws.{valid_reads}
use lightai_platform.Server.InstanceView.Laws.{model_instance-ReadOnly}
use lightai_platform.Server.Instances.Params.{
  Http, validate_optional_non_empty, validate_base_url_required, validate_instance_deploy_type,
  validate_instance_status, validate_http_url, validate_instance_urls, runtime_environment,
  verified_model_file_for_instance, check_arg, check_args, check_extra_args, parse_params,
  parse_instance_params,
}

pub optional-ReadOnly :
    (field : String) (value : Option String) → ReadOnly (validate_optional_non_empty field value)
unfolding validate_optional_non_empty
optional-ReadOnly field value = search reads

pub base_url-ReadOnly : (value : Option String) → ReadOnly (validate_base_url_required value)
unfolding validate_base_url_required
base_url-ReadOnly value = search reads

pub deploy_type-ReadOnly : (value : String) → ReadOnly (validate_instance_deploy_type value)
unfolding validate_instance_deploy_type
deploy_type-ReadOnly value = search reads

pub status-ReadOnly : (value : String) → ReadOnly (validate_instance_status value)
unfolding validate_instance_status
status-ReadOnly value = search reads

pub http_url-ReadOnly :
    (http : Http) (field : String) (value : Option String)
    → ReadOnly (validate_http_url http field value)
unfolding validate_http_url
http_url-ReadOnly http field none = search reads
http_url-ReadOnly http field (some value) = search reads

pub urls-ReadOnly :
    (http : Http) (base endpoint health : Option String)
    → ReadOnly (validate_instance_urls http base endpoint health)
unfolding validate_instance_urls
urls-ReadOnly http base endpoint health = search (reads, http_url-ReadOnly)

pub runtime-ReadOnly : (id : String) → ReadOnly (runtime_environment id)
unfolding runtime_environment
runtime-ReadOnly id = search reads

pub file-ReadOnly : (id : String) → ReadOnly (verified_model_file_for_instance id)
unfolding verified_model_file_for_instance
file-ReadOnly id = search reads

arg-ReadOnly : (js : Serde) (v : js.Value) → ReadOnly (check_arg js v)
unfolding check_arg
arg-ReadOnly js v = search reads

pub args-ReadOnly : (js : Serde) (vs : List js.Value) → ReadOnly (check_args js vs)
unfolding check_args
args-ReadOnly js [] = search reads
args-ReadOnly js (v ∷ vs) =
    ReadOnly-bind (check_arg js v) (λ _. check_args js vs) (arg-ReadOnly js v)
      (λ _. args-ReadOnly js vs)

pub extra_args-ReadOnly :
    (js : Serde) (vs : Option (List js.Value)) → ReadOnly (check_extra_args js vs)
extra_args-ReadOnly js none = search reads
extra_args-ReadOnly js (some vs) = args-ReadOnly js vs

pub params-ReadOnly : (js : Serde) (value : Option String) → ReadOnly (parse_params js value)
params-ReadOnly js none = search reads
params-ReadOnly js (some text) = search (reads, extra_args-ReadOnly) depth 14

pub parse-ReadOnly :
    (js : Serde) (value : Option String) → ReadOnly (parse_instance_params js value)
unfolding parse_instance_params
parse-ReadOnly js value = params-ReadOnly js _

pub ruleset instance_reads = (
  valid_reads, model_instance-ReadOnly, optional-ReadOnly, base_url-ReadOnly, deploy_type-ReadOnly,
  status-ReadOnly, urls-ReadOnly, runtime-ReadOnly, file-ReadOnly, parse-ReadOnly,
)
