-- ===== src/Agent/Docker/Args.antt =====
-- The arguments of docker and of the server in the container, agent/src/tasks/docker_backend.rs.
use lightai_platform.Prelude.{
  ℕ, String, Bool, not, ◌&&◌, ◌||◌, Option, none, some, List, [], ◌∷◌, ◌++◌, ◌<>◌, ltb, map,
  if◌then◌else◌,
}
use lightai_platform.Prelude.Text.{trim, is_blank, any_char, is_control, byte_length}
use lightai_platform.Prelude.Decimal.{show_u64}
use lightai_platform.Agent.Launch.{Outcome, ok, err, sanitize_arg_for_display}
use lightai_platform.Agent.Docker.{
  DockerPortMapping, DockerVolumeMapping, DockerInstanceParams, DockerPayload,
}

-- `validate_docker_arg(arg).is_ok()`
unfoldable pub validate_docker_arg : String → Bool
unfolding is_blank byte_length any_char is_control
validate_docker_arg arg =
    not (is_blank arg) && not (ltb 512 (byte_length arg) || any_char is_control arg)

-- the message of the first extra argument that is not valid
unfoldable pub docker_arg_error : List String → Option String
unfolding validate_docker_arg is_blank
docker_arg_error [] = none
docker_arg_error (arg ∷ args) =
    let rest = docker_arg_error args in
    if validate_docker_arg arg
    then rest
    else if is_blank arg
    then some "Docker extra args must not be empty"
    else some "Docker extra args contain invalid characters"

-- the flag and its value, unless the value is blank
abbrev pub text_flag : String → String → List String
text_flag flag value = if is_blank value then [] else flag ∷ trim value ∷ []

unfoldable pub port_args : List DockerPortMapping → List String
unfolding show_u64
port_args [] = []
port_args (p ∷ ps) = "-p" ∷ (show_u64 p.host <> (":" <> show_u64 p.container)) ∷ port_args ps

abbrev pub volume_text : DockerVolumeMapping → String
volume_text v =
    let both = trim v.host <> (":" <> trim v.container) in
    if v.readonly then both <> ":ro" else both

unfoldable pub volume_args : List DockerVolumeMapping → List String
volume_args [] = []
volume_args (v ∷ vs) = "-v" ∷ volume_text v ∷ volume_args vs

unfoldable pub env_args : List (String × String) → List String
env_args [] = []
env_args ((key, value) ∷ rest) = "-e" ∷ (key <> ("=" <> value)) ∷ env_args rest

-- the arguments before the extra ones
abbrev pub run_options : DockerInstanceParams → List String
run_options d =
    "run"
    ∷ (text_flag "--name" d.container_name
        ++ (text_flag "--gpus" d.gpu
            ++ (text_flag "--ipc" d.ipc
                ++ (port_args d.ports ++ (volume_args d.volumes ++ env_args d.env)))))

abbrev pub with_extra_args : DockerInstanceParams → Option String → Outcome (List String)
with_extra_args d (some message) = err message
with_extra_args d none =
    ok (run_options d ++ (d.extra_docker_args ++ "--detach" ∷ trim d.image ∷ []))

unfoldable pub build_docker_run_args : DockerPayload → Outcome (List String)
unfolding docker_arg_error is_blank trim
build_docker_run_args payload =
    if is_blank payload.docker.image
    then err "Docker image not configured"
    else with_extra_args payload.docker (docker_arg_error payload.docker.extra_docker_args)

abbrev pub number_flag : String → Option ℕ → List String
number_flag flag none = []
number_flag flag (some n) = flag ∷ show_u64 n ∷ []

abbrev pub positive_flag : String → Option ℕ → List String
positive_flag flag none = []
positive_flag flag (some n) = if ltb 0 n then flag ∷ show_u64 n ∷ [] else []

abbrev pub float_flag : (ℕ → String) → String → Option ℕ → List String
float_flag show_f64 flag none = []
float_flag show_f64 flag (some bits) = flag ∷ show_f64 bits ∷ []

unfoldable pub build_vllm_args : (ℕ → String) → DockerPayload → List String
unfolding is_blank trim
build_vllm_args show_f64 payload =
    let v = payload.vllm in
    text_flag "--model" v.model
    ++ (text_flag "--served-model-name" v.served_model_name
        ++ (text_flag "--host" v.host
            ++ (positive_flag "--port" (some v.port)
                ++ (float_flag show_f64 "--gpu-memory-utilization" v.gpu_memory_utilization
                    ++ (number_flag "--max-model-len" v.max_model_len
                        ++ (number_flag "--max-num-seqs" v.max_num_seqs
                            ++ (positive_flag "--tensor-parallel-size" v.tensor_parallel_size
                                ++ v.extra_vllm_args)))))))

-- the parts that `docker_command_summary` prints as a JSON array
unfoldable pub docker_summary_parts : String → List String → List String → List String
docker_summary_parts image docker_args vllm_args =
    "docker"
    ∷ (map sanitize_arg_for_display docker_args ++ image ∷ map sanitize_arg_for_display vllm_args)

abbrev pub with_vllm_args :
    (ℕ → String) → DockerPayload → Outcome (List String) → Outcome (List String)
with_vllm_args show_f64 payload (err message) = err message
with_vllm_args show_f64 payload (ok args) = ok (args ++ build_vllm_args show_f64 payload)

-- the arguments that docker is run with
abbrev pub docker_command : (ℕ → String) → DockerPayload → Outcome (List String)
docker_command show_f64 payload = with_vllm_args show_f64 payload (build_docker_run_args payload)
