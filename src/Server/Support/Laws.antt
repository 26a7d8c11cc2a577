-- ===== src/Server/Support/Laws.antt =====
-- The validators only read.
use lightai_platform.Prelude.{String, Option, none, some, List, ℕ}
use lightai_platform.Server.Serde.{Serde}
use lightai_platform.Server.Exec.Effects.{
  ReadOnly, ReadOnly-bind, ReadOnly-need, ReadOnly-refuse_if, reads,
}
use lightai_platform.Server.Support.{
  validate_non_empty, validate_one_of, validate_backend, validate_path, validate_json_field,
  ensure_model_exists, ensure_node_online, validate_model_type, validate_no_whitespace,
  ensure_node_exists, validate_deploy_type,
}

pub validate_non_empty-ReadOnly : (field value : String) → ReadOnly (validate_non_empty field value)
unfolding validate_non_empty
validate_non_empty-ReadOnly field value = search reads

pub validate_one_of-ReadOnly :
    (field value : String) (allowed : List String) → ReadOnly (validate_one_of field value allowed)
unfolding validate_one_of
validate_one_of-ReadOnly field value allowed = search reads

pub validate_backend-ReadOnly : (value : String) → ReadOnly (validate_backend value)
unfolding validate_backend
validate_backend-ReadOnly value = search reads

pub validate_path-ReadOnly : (field value : String) → ReadOnly (validate_path field value)
unfolding validate_path
validate_path-ReadOnly field value = search reads

pub validate_json_field-ReadOnly :
    (js : Serde) (field : String) (value : Option String)
    → ReadOnly (validate_json_field js field value)
unfolding validate_json_field
validate_json_field-ReadOnly js field none = search reads
validate_json_field-ReadOnly js field (some value) = search reads

pub validate_deploy_type-ReadOnly : (value : String) → ReadOnly (validate_deploy_type value)
unfolding validate_deploy_type
validate_deploy_type-ReadOnly value = search reads

pub validate_model_type-ReadOnly : (value : String) → ReadOnly (validate_model_type value)
unfolding validate_model_type
validate_model_type-ReadOnly value = search reads

pub validate_no_whitespace-ReadOnly :
    (field value : String) → ReadOnly (validate_no_whitespace field value)
unfolding validate_no_whitespace
validate_no_whitespace-ReadOnly field value = search reads

pub ensure_node_online-ReadOnly :
    (now : ℕ) (node_id : String) → ReadOnly (ensure_node_online now node_id)
unfolding ensure_node_online
ensure_node_online-ReadOnly now node_id = search reads

pub ensure_model_exists-ReadOnly : (id : String) → ReadOnly (ensure_model_exists id)
unfolding ensure_model_exists
ensure_model_exists-ReadOnly id = search reads

pub ensure_node_exists-ReadOnly : (id : String) → ReadOnly (ensure_node_exists id)
unfolding ensure_node_exists
ensure_node_exists-ReadOnly id = search reads

pub ruleset valid_reads = (
  reads, validate_non_empty-ReadOnly, validate_one_of-ReadOnly, validate_backend-ReadOnly,
  validate_path-ReadOnly, validate_json_field-ReadOnly, validate_deploy_type-ReadOnly,
  validate_model_type-ReadOnly, validate_no_whitespace-ReadOnly, ensure_node_online-ReadOnly,
  ensure_model_exists-ReadOnly, ensure_node_exists-ReadOnly,
)
