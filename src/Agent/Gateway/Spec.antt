-- ===== src/Agent/Gateway/Spec.antt =====
-- The specification of the gateway's process and its validation, agent/src/gateway_supervisor.rs.
use lightai_platform.Prelude.{
  String, Bool, false, not, ◌&&◌, Option, none, some, [], ◌∷◌, ◌==◌, ◌<>◌, nat_eq, is_some,
}
use lightai_platform.Prelude.Text.{any_char}
use lightai_platform.Server.Gateway.{Url, is_loopback}
use lightai_platform.Agent.Gateway.{
  gateway_log_file, first_error, refuse, GatewayProcessSpec, GatewayCommandSpec, Readers,
}

-- the error of `validate_non_empty_path`, if there is one
unfoldable pub validate_non_empty_path : String → String → Option String
unfolding any_char
validate_non_empty_path field path =
    first_error (refuse (path == "") (field <> " must not be empty"))
      (refuse (any_char (λ c. nat_eq c 0) path) (field <> " must not contain NUL bytes"))

module _ (rd : Readers) where
  unfoldable pub validate_controlled_path : String → String → Option String
  unfolding validate_non_empty_path
  validate_controlled_path field path =
      first_error (validate_non_empty_path field path)
        (refuse (rd.has_parent_dir path) (field <> " must not contain parent directory components"))

  abbrev pub validate_url : Option Url → Option String
  validate_url none = some "health_url is invalid"
  validate_url (some u) =
      first_error
        (refuse (not (u.scheme == "http") && not (u.scheme == "https"))
          "health_url must use http:// or https://")
        (first_error
          (refuse (not (is_loopback u.host_str)) "health_url must target localhost or loopback")
          (first_error (refuse (not (u.path == "/health")) "health_url path must be /health")
            (refuse (is_some u.query) "health_url must not include query parameters")))

  unfoldable pub validate_health_url : String → Option String
  validate_health_url value = validate_url (rd.parse_url value)

  abbrev pub is_named : String → Option String → Bool
  is_named name none = false
  is_named name (some n) = n == name

  -- the error for a log that is not the gateway's
  abbrev pub validate_log_name : String → Option String
  validate_log_name path =
      refuse (not (is_named gateway_log_file (rd.file_name path)))
        "log_path file name must be lightai-gateway.log"

  -- the error of `GatewayProcessSpec::validate`, if there is one
  unfoldable pub validate : GatewayProcessSpec → Option String
  unfolding validate_non_empty_path validate_controlled_path validate_health_url
  validate spec = first_error (validate_non_empty_path "binary_path" spec.binary_path) (
      first_error (validate_non_empty_path "config_path" spec.config_path) (
        first_error (validate_controlled_path "work_dir" spec.work_dir) (
          first_error (validate_controlled_path "log_path" spec.log_path) (
            first_error (validate_controlled_path "state_path" spec.state_path) (
              first_error (validate_health_url spec.health_url) (
                first_error
                  (refuse (rd.is_root spec.work_dir) "work_dir must not be filesystem root")
                  (validate_log_name spec.log_path)))))))

  abbrev pub command_spec : GatewayProcessSpec → GatewayCommandSpec
  command_spec spec = record {
    program = spec.binary_path;
    args = "--config" ∷ spec.config_path ∷ [];
    current_dir = spec.work_dir;
    log_path = spec.log_path;
  }
