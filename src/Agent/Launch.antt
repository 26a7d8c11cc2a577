-- ===== src/Agent/Launch.antt =====
-- How the agent makes a command line of a task: the parameters of an instance (agent/src/tasks/process.rs),
-- the arguments and their display (agent/src/tasks/process_command.rs). What serde_json reads of the
-- payload is an argument.
pub mod Laws
use lightai_platform.Prelude.{
  ℕ, zero, suc, ◌+◌, String, Bool, true, false, not, ◌&&◌, ◌||◌, Option, none, some, List, [], ◌∷◌,
  ◌++◌, ◌==◌, leb, ltb, nat_eq, map, any, all, if◌then◌else◌, unwrap_or, or_else,
}
use lightai_platform.Prelude.Int.{ℤ, pos, negsuc}
use lightai_platform.Prelude.Text.{
  trim, is_blank, any_char, all_char, is_control, is_upper, one_of, byte_length,
}
use lightai_platform.Prelude.Decimal.{show_u64, show_i64, codes, lower_codes, contains_codes}

-- Result<T, String>
pub data Outcome (A : Type 0) : Type 0 where
  ok : A → Outcome A
  err : String → Outcome A

-- the fields of a JSON object that are read, each none where it is missing or of another type
pub record LaunchFields : Type 0 where
  pub host : Option String
  pub port : Option ℕ
  pub ctx_size : Option ℕ
  pub gpu_layers : Option ℤ
  pub threads : Option ℕ
  pub extra_args : Option (List String)

-- the value of `params_json`: a text, with the object in it if it is one, an object, null or no value,
-- or a value of another type
pub data ParamsValue : Type 0 where
  text : Option LaunchFields → ParamsValue
  object : LaunchFields → ParamsValue
  absent other : ParamsValue

pub record LaunchPayload : Type 0 where
  pub params_json : ParamsValue
  pub params : Option LaunchFields
  pub defaults : Option LaunchFields

pub record InstanceLaunchParams : Type 0 where
  pub host : String
  pub port : ℕ
  pub ctx_size : Option ℕ
  pub gpu_layers : Option ℤ
  pub threads : Option ℕ
  pub extra_args : List String

abbrev pub no_fields : LaunchFields
no_fields = record {
  host = none;
  port = none;
  ctx_size = none;
  gpu_layers = none;
  threads = none;
  extra_args = none;
}

abbrev pub parsed_fields : LaunchPayload → ParamsValue → LaunchFields
parsed_fields payload (text fields) = unwrap_or fields no_fields
parsed_fields payload (object fields) = fields
parsed_fields payload absent = unwrap_or payload.params no_fields
parsed_fields payload other = no_fields

abbrev pub is_host_char : ℕ → Bool
is_host_char c =
    (leb 97 c && leb c 122)
    || is_upper c
    || (leb 48 c && leb c 57)
    || nat_eq c 46
    || nat_eq c 45
    || nat_eq c 58
    || nat_eq c 95

unfoldable pub is_safe_host : String → Bool
unfolding byte_length all_char
is_safe_host host = not (host == "") && leb (byte_length host) 128 && all_char is_host_char host

-- `validate_arg(arg).is_ok()`
unfoldable pub validate_arg : String → Bool
unfolding is_blank byte_length any_char is_control
validate_arg arg = not (is_blank arg) && not (ltb 256 (byte_length arg) || any_char is_control arg)

-- the message of the first argument that is not valid
unfoldable pub arg_error : List String → Option String
unfolding validate_arg is_blank
arg_error [] = none
arg_error (arg ∷ args) =
    let rest = arg_error args in
    if validate_arg arg
    then rest
    else if is_blank arg
    then some "extra args must not be empty"
    else some "extra args contain invalid characters"

abbrev pub checked_args : InstanceLaunchParams → Option String → Outcome InstanceLaunchParams
checked_args params none = ok params
checked_args params (some message) = err message

unfoldable pub from_payload : LaunchPayload → Outcome InstanceLaunchParams
unfolding is_safe_host arg_error trim
from_payload payload =
    let parsed = parsed_fields payload payload.params_json in
    let defaults = unwrap_or payload.defaults no_fields in
    let host = trim (unwrap_or (or_else parsed.host defaults.host) "127.0.0.1") in
    let port = unwrap_or (or_else parsed.port defaults.port) 8080 in
    let extra_args = unwrap_or parsed.extra_args [] in
    if not (is_safe_host host)
    then err "invalid listen address"
    else if nat_eq port 0 || ltb 65535 port
    then err "invalid listen port"
    else checked_args
        (record {
          host = host;
          port = port;
          ctx_size = or_else parsed.ctx_size defaults.ctx_size;
          gpu_layers = or_else parsed.gpu_layers defaults.gpu_layers;
          threads = or_else parsed.threads defaults.threads;
          extra_args = extra_args;
        })
        (arg_error extra_args)

-- `if let Some(n) = o { args.extend([flag, n.to_string()]) }`
abbrev pub option_arg : String → Option ℕ → List String
option_arg flag none = []
option_arg flag (some n) = flag ∷ show_u64 n ∷ []

-- only a number that is not negative
abbrev pub gpu_layer_args : Option ℤ → List String
gpu_layer_args (some (pos n)) = "--n-gpu-layers" ∷ show_i64 (pos n) ∷ []
gpu_layer_args (some (negsuc n)) = []
gpu_layer_args none = []

abbrev pub listen_args : InstanceLaunchParams → List String
listen_args p = "--host" ∷ p.host ∷ "--port" ∷ show_u64 p.port ∷ []

abbrev pub model_backends : List String
model_backends = "ollama" ∷ "vllm" ∷ "lmdeploy" ∷ "mindie" ∷ "custom" ∷ "triton" ∷ []

unfoldable pub build_launch_args :
    String → String → String → InstanceLaunchParams → Outcome (List String)
unfolding one_of
build_launch_args backend deploy_type model_path p =
    if deploy_type == "script"
    then ok ("start" ∷ "--model" ∷ model_path ∷ (listen_args p ++ p.extra_args))
    else if backend == "llama_cpp"
    then ok (
        "-m"
        ∷ model_path
        ∷ (listen_args p
            ++ (option_arg "--ctx-size" p.ctx_size
                ++ (gpu_layer_args p.gpu_layers
                    ++ (option_arg "--threads" p.threads ++ p.extra_args)))))
    else if one_of model_backends backend
    then ok ("--model" ∷ model_path ∷ (listen_args p ++ p.extra_args))
    else err "backend type not supported"

abbrev pub secret_words : List String
secret_words = "token" ∷ "secret" ∷ "password" ∷ "api-key" ∷ "api_key" ∷ "authorization" ∷ []

-- the argument names a secret
unfoldable pub names_secret : String → Bool
unfolding any codes lower_codes contains_codes
names_secret arg = any (λ needle. contains_codes (codes needle) (lower_codes arg)) secret_words

abbrev pub sanitize_arg_for_display : String → String
sanitize_arg_for_display arg = if names_secret arg then "[redacted]" else arg

-- the parts that `command_summary` prints as a JSON array
unfoldable pub summary_parts : String → List String → List String
summary_parts program args = program ∷ map sanitize_arg_for_display args

-- `command_summary`, over serde_json's `to_string`
unfoldable pub command_summary : (List String → Option String) → String → List String → String
unfolding summary_parts
command_summary to_json program args =
    unwrap_or (to_json (summary_parts program args)) "[\"<command>\"]"
