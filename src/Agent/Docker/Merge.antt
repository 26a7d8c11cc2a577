-- ===== src/Agent/Docker/Merge.antt =====
-- `merge_docker_config` of agent/src/tasks/docker_backend.rs.
use lightai_platform.Prelude.{
  ℕ, ◌+◌, ◌%◌, ◌^◌, String, true, false, not, ◌&&◌, Option, List, [], ◌∷◌, ◌++◌, ◌<>◌, ltb,
  if◌then◌else◌, unwrap_or, or_else,
}
use lightai_platform.Prelude.Text.{trim, is_blank}
use lightai_platform.Agent.Launch.{Outcome, ok, err}
use lightai_platform.Agent.Docker.{
  DockerVolumeMapping, DockerInstanceParams, VllmParams, DockerPayload, DockerRuntimeConfig,
  DockerInstanceOverrides,
}

-- `ov.host_port`, or the port of the container and 10000, in a u16
abbrev pub host_port_of : DockerRuntimeConfig → DockerInstanceOverrides → ℕ
host_port_of rt ov =
    if ltb 0 ov.host_port then ov.host_port else (rt.container_port + 10000) % 2 ^ 16

abbrev pub cache_volumes : DockerRuntimeConfig → List DockerVolumeMapping
cache_volumes rt =
    if not (is_blank rt.cache_host_path) && not (is_blank rt.cache_container_path)
    then record {
      host = trim rt.cache_host_path;
      container = trim rt.cache_container_path;
      readonly = false;
    }
      ∷ []
    else []

abbrev pub model_volume : String → String → DockerVolumeMapping
model_volume model_host_path container_model = record {
  host = trim model_host_path;
  container = container_model;
  readonly = true;
}

abbrev pub merged_docker :
    String → String → DockerRuntimeConfig → DockerInstanceOverrides → DockerInstanceParams
merged_docker model_host_path container_model rt ov = record {
  image = rt.image;
  container_name = ov.container_name;
  gpu = unwrap_or ov.gpu rt.gpu;
  ipc = rt.ipc;
  ports = record { host = host_port_of rt ov; container = rt.container_port } ∷ [];
  volumes = cache_volumes rt ++ model_volume model_host_path container_model ∷ [];
  env = [];
  extra_docker_args = rt.extra_docker_args ++ ov.extra_docker_args;
}

abbrev pub merged_vllm :
    String → String → DockerRuntimeConfig → DockerInstanceOverrides → VllmParams
merged_vllm container_model served_name rt ov = record {
  model = container_model;
  served_model_name = served_name;
  host = rt.defaults.host;
  port = rt.defaults.port;
  gpu_memory_utilization = or_else ov.gpu_memory_utilization rt.defaults.gpu_memory_utilization;
  max_model_len = or_else ov.max_model_len rt.defaults.max_model_len;
  max_num_seqs = or_else ov.max_num_seqs rt.defaults.max_num_seqs;
  tensor_parallel_size = or_else ov.tensor_parallel_size rt.defaults.tensor_parallel_size;
  extra_vllm_args = rt.extra_backend_args ++ ov.extra_backend_args;
}

-- `Path::file_name` of Rust's library is an argument, as is the default configuration
module _ (file_name : String → Option String) where
  abbrev pub container_model_of : String → DockerInstanceOverrides → String
  container_model_of model_host_path ov =
      if is_blank ov.model_container_path
      then "/models/" <> unwrap_or (file_name model_host_path) "model"
      else trim ov.model_container_path

  unfoldable pub merge_docker_config :
      String → String → DockerRuntimeConfig → DockerInstanceOverrides → Outcome DockerPayload
  unfolding is_blank trim
  merge_docker_config model_host_path model_name rt ov =
      let container_model = container_model_of model_host_path ov in
      let served_name =
        if is_blank ov.served_model_name then model_name else trim ov.served_model_name in
      if is_blank rt.image
      then err "Docker runtime missing image config"
      else if is_blank model_host_path
      then err "Model file path not configured"
      else if is_blank ov.served_model_name && is_blank model_name
      then err "served_model_name not configured"
      else ok (record {
        docker = merged_docker model_host_path container_model rt ov;
        vllm = merged_vllm container_model served_name rt ov;
      })
