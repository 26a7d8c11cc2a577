-- ===== src/Agent/Tests/Launch.antt =====
-- Starts of llama.cpp and of a container.
use lightai_platform.Prelude.{
  ◌≡◌, refl, ◌++◌, ◌<>◌, true, false, none, some, [], ◌∷◌, List, String, Option,
}
use lightai_platform.Prelude.Text.{one_of, is_blank, trim}
use lightai_platform.Agent.Launch.{
  LaunchFields, LaunchPayload, InstanceLaunchParams, text, from_payload, ok, no_fields,
  names_secret, summary_parts,
}
use lightai_platform.Agent.Launch.Laws.{
  is_launchable, from_payload_sound, secrets_are_redacted, flag_value_is_shown,
}
use lightai_platform.Agent.Docker.{
  DockerPayload, BackendDefaults, DockerRuntimeConfig, DockerInstanceOverrides,
}
use lightai_platform.Agent.Docker.Merge.{merged_docker, merged_vllm, merge_docker_config}
use lightai_platform.Agent.Docker.Args.{run_options, build_docker_run_args}
use lightai_platform.Agent.Docker.Laws.{merged_command_mounts_model, in_pairs}

abbrev fields : LaunchFields
fields = record no_fields { port = some 9000; extra_args = some ("--flash-attn" ∷ []) }

abbrev payload : LaunchPayload
payload = record {
  params_json = text (some fields);
  params = none;
  defaults = some (record no_fields { host = some "0.0.0.0"; ctx_size = some 4096 });
}

abbrev launched : InstanceLaunchParams
launched = record {
  host = "0.0.0.0";
  port = 9000;
  ctx_size = some 4096;
  gpu_layers = none;
  threads = none;
  extra_args = "--flash-attn" ∷ [];
}

payload_is_read : from_payload payload ≡ ok launched
unfolding from_payload
payload_is_read = refl

from_payload_example : is_launchable launched ≡ true
from_payload_example = from_payload_sound payload launched payload_is_read

flag_is_secret : names_secret "--API-Key" ≡ true
unfolding names_secret
flag_is_secret = refl

value_is_plain : names_secret "sk-123" ≡ false
unfolding names_secret
value_is_plain = refl

redacted_example :
    one_of (summary_parts "llama-server" ("-m" ∷ "--API-Key" ∷ "sk-123" ∷ [])) "--API-Key" ≡ false
redacted_example =
    secrets_are_redacted "llama-server" ("-m" ∷ "--API-Key" ∷ "sk-123" ∷ []) "--API-Key"
      flag_is_secret refl

shown_example :
    one_of (summary_parts "llama-server" (("-m" ∷ []) ++ "--API-Key" ∷ "sk-123" ∷ [])) "sk-123"
    ≡ true
shown_example =
    flag_value_is_shown "llama-server" "--API-Key" "sk-123" ("-m" ∷ []) [] flag_is_secret
      value_is_plain

abbrev defaults : BackendDefaults
defaults = record {
  host = "0.0.0.0";
  port = 8000;
  gpu_memory_utilization = none;
  max_model_len = some 4096;
  max_num_seqs = some 8;
  tensor_parallel_size = some 1;
}

abbrev vllm_runtime : DockerRuntimeConfig
vllm_runtime = record {
  image = "vllm";
  gpu = "all";
  ipc = "host";
  container_port = 60000;
  cache_host_path = "";
  cache_container_path = "";
  defaults = defaults;
  extra_docker_args = "--shm-size=1g" ∷ [];
  extra_backend_args = [];
}

abbrev no_overrides : DockerInstanceOverrides
no_overrides = record {
  container_name = "c1";
  host_port = 0;
  model_container_path = "";
  served_model_name = "";
  gpu_memory_utilization = none;
  max_model_len = none;
  max_num_seqs = none;
  tensor_parallel_size = none;
  gpu = none;
  extra_docker_args = [];
  extra_backend_args = [];
}

abbrev base_name : String → Option String
base_name path = some "qwen"

abbrev merged : DockerPayload
merged = record {
  docker = merged_docker "/data/qwen" "/models/qwen" vllm_runtime no_overrides;
  vllm = merged_vllm "/models/qwen" "qwen" vllm_runtime no_overrides;
}

config_is_merged :
    merge_docker_config base_name "/data/qwen" "qwen" vllm_runtime no_overrides ≡ ok merged
unfolding merge_docker_config
config_is_merged = refl

abbrev run_args : List String
run_args = run_options merged.docker ++ ("--shm-size=1g" ∷ "--detach" ∷ "vllm" ∷ [])

args_are_built : build_docker_run_args merged ≡ ok run_args
unfolding build_docker_run_args
args_are_built = refl

mounted_example :
    (is_blank vllm_runtime.image ≡ false)
    × (options rest : List String) × (in_pairs options ≡ true)
    × (run_args
        ≡ "run"
          ∷ (options
              ++ "-v"
                ∷ ((trim (trim "/data/qwen") <> (":" <> trim merged.vllm.model)) <> ":ro")
                ∷ (rest ++ trim vllm_runtime.image ∷ [])))
mounted_example =
    merged_command_mounts_model base_name "/data/qwen" "qwen" vllm_runtime no_overrides merged
      run_args config_is_merged args_are_built
