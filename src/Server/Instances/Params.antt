-- ===== src/Server/Instances/Params.antt =====
-- The validators of an instance (server/src/domain/instances.rs), and what the server asks of the
-- crate reqwest, which is not part of the repository.
pub mod Laws
use Prim.Native.String.{len}
use lightai_platform.Prelude.{
  ℕ, ◌-◌, ◌^◌, String, ◌<>◌, Bool, false, not, ◌&&◌, ◌||◌, Option, none, some, List, [], ◌∷◌, ltb,
  nat_eq, ◌==◌, and_then, is_some, is_some_and, keep_if, map_option, if◌then◌else◌,
}
use lightai_platform.Prelude.Text.{is_blank, is_control, any_char, one_of, trim}
use lightai_platform.Prelude.Rows.{select_one}
use lightai_platform.Server.Serde.{Serde}
use lightai_platform.Server.Tables.{Db, ModelFile, file_is, Runtime, runtime_is}
use lightai_platform.Server.Exec.{
  bad_request, not_found, Exec, pure, gets, need, refuse_if, ◌>>=◌, ◌>>◌,
}
use lightai_platform.Server.Support.{validate_one_of}

-- what a GET of a URL comes to: a response with its status code and the text of it, or an error
pub data Fetched : Type 0 where
  responded : ℕ → String → Fetched
  unreachable : String → Fetched

-- `Url::parse(value)` as the scheme of the URL, and the client's GET
pub record Http : Type 0 where
  pub url_scheme : String → Option String
  pub fetch : String → Fetched

abbrev blank_option : Option String → Bool
blank_option value = not (is_some_and value (λ s. not (is_blank s)))

unfoldable pub validate_optional_non_empty : String → Option String → Exec Unit
validate_optional_non_empty field value =
    refuse_if (blank_option value) (bad_request (field <> " is required"))

unfoldable pub validate_base_url_required : Option String → Exec Unit
validate_base_url_required base_url =
    refuse_if (blank_option base_url) (bad_request "base_url is required")

unfoldable pub validate_instance_deploy_type : String → Exec Unit
unfolding validate_one_of
validate_instance_deploy_type value =
    validate_one_of "deploy_type" value ("external" ∷ "local" ∷ [])

abbrev pub instance_statuses : List String
instance_statuses =
    "pending" ∷ "starting" ∷ "running" ∷ "stopping" ∷ "stopped" ∷ "failed" ∷ "unknown" ∷ []

unfoldable pub validate_instance_status : String → Exec Unit
unfolding validate_one_of
validate_instance_status value = validate_one_of "status" value instance_statuses

unfoldable pub validate_http_url : Http → String → Option String → Exec Unit
validate_http_url http field none = pure tt
validate_http_url http field (some value) = do
  scheme ←
      need (http.url_scheme value)
        (bad_request (field <> " must be a valid http:// or https:// URL"))
  refuse_if (not (scheme == "http" || scheme == "https"))
      (bad_request (field <> " must use http:// or https://"))

unfoldable pub validate_instance_urls :
    Http → Option String → Option String → Option String → Exec Unit
unfolding validate_http_url
validate_instance_urls http base_url endpoint_url health_url = do
  validate_http_url http "base_url" base_url
  validate_http_url http "endpoint_url" endpoint_url
  validate_http_url http "health_url" health_url

-- `runtime_environment` of server/src/domain/runtimes.rs
unfoldable pub runtime_environment : String → Exec Runtime
runtime_environment id = do
  found ← gets (λ db. select_one (runtime_is id) db.runtime_environments)
  need found (not_found "runtime environment not found")

-- `runtime_environment_usable` of server/src/domain/runtimes.rs
abbrev pub runtime_environment_usable : Option String → Bool
runtime_environment_usable status =
    is_some_and status (λ s. s == "available" || s == "version_unavailable")

-- WHERE id = ? AND deleted_at IS NULL
abbrev pub live_file : String → ModelFile → Bool
live_file id f = file_is id f && not (is_some f.deleted_at)

unfoldable pub verified_model_file_for_instance : String → Exec ModelFile
verified_model_file_for_instance id = do
  found ← gets (λ db. select_one (live_file id) db.model_files)
  file ← need found (bad_request "model file does not exist")
  refuse_if (not (file.status == "verified"))
      (bad_request "local instance requires a verified model file")
  pure file

module _ (js : Serde) where
  -- `host`: not blank, at most 128 bytes, no control character
  abbrev pub bad_host : Option js.Value → Bool
  bad_host value =
      is_some_and (and_then value js.as_str)
        (λ host. is_blank host || ltb 128 (len host) || any_char is_control host)

  -- `port`: 1 to u16::MAX
  abbrev pub bad_port : Option js.Value → Bool
  bad_port value =
      is_some_and (and_then value js.as_u64) (λ port. nat_eq port 0 || ltb (2 ^ 16 - 1) port)

  unfoldable pub check_arg : js.Value → Exec Unit
  check_arg v = do
    arg ← need (js.as_str v) (bad_request "extra args must be one string per line")
    refuse_if (is_blank arg || ltb 256 (len arg) || any_char is_control arg)
        (bad_request "invalid extra args")

  pub check_args : List js.Value → Exec Unit
  check_args [] = pure tt
  check_args (v ∷ vs) = check_arg v >> check_args vs

  abbrev pub check_extra_args : Option (List js.Value) → Exec Unit
  check_extra_args none = pure tt
  check_extra_args (some args) = check_args args

  abbrev pub parse_params : Option String → Exec js.Value
  parse_params none = pure (js.object [])
  parse_params (some text) = do
    parsed ← need (js.from_str text) (bad_request "params_json must be valid JSON")
    refuse_if (not (js.is_object parsed)) (bad_request "runtime params must be a JSON object")
    refuse_if (bad_host (js.get parsed "host")) (bad_request "invalid listen address")
    refuse_if (bad_port (js.get parsed "port")) (bad_request "invalid listen port")
    check_extra_args (and_then (js.get parsed "extra_args") js.as_array)
    pure parsed

  unfoldable pub parse_instance_params : Option String → Exec js.Value
  unfolding check_args
  parse_instance_params value = parse_params (keep_if (map_option trim value) (λ s. not (s == "")))
