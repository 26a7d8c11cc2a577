-- ===== src/Agent/Docker.antt =====
-- How the agent makes the arguments of `docker run` (agent/src/tasks/docker_backend.rs): the merge of
-- the configuration of the runtime with that of the instance, the arguments of docker and of the
-- server in the container. A number of type f64 is its bits, and its display is an argument; the
-- order of a HashMap is that of the list. A sum of two u16 wraps, as in a release build.
pub mod Merge
pub mod Args
pub mod Laws
use lightai_platform.Prelude.{
  ℕ, ◌+◌, ◌%◌, ◌^◌, String, Bool, true, false, not, ◌&&◌, ◌||◌, Option, none, some, List, [], ◌∷◌,
  ◌++◌, ◌==◌, ◌<>◌, leb, ltb, nat_eq, map, any, all, if◌then◌else◌, unwrap_or, or_else,
}
use lightai_platform.Prelude.Text.{trim, is_blank, any_char, is_control, byte_length}
use lightai_platform.Prelude.Decimal.{show_u64}
use lightai_platform.Agent.Launch.{Outcome, ok, err, sanitize_arg_for_display}

pub record DockerPortMapping : Type 0 where
  pub host : ℕ
  pub container : ℕ

pub record DockerVolumeMapping : Type 0 where
  pub host : String
  pub container : String
  pub readonly : Bool

pub record DockerInstanceParams : Type 0 where
  pub image : String
  pub container_name : String
  pub gpu : String
  pub ipc : String
  pub ports : List DockerPortMapping
  pub volumes : List DockerVolumeMapping
  pub env : List (String × String)
  pub extra_docker_args : List String

pub record VllmParams : Type 0 where
  pub model : String
  pub served_model_name : String
  pub host : String
  pub port : ℕ
  pub gpu_memory_utilization : Option ℕ
  pub max_model_len : Option ℕ
  pub max_num_seqs : Option ℕ
  pub tensor_parallel_size : Option ℕ
  pub extra_vllm_args : List String

pub record DockerPayload : Type 0 where
  pub docker : DockerInstanceParams
  pub vllm : VllmParams

pub record BackendDefaults : Type 0 where
  pub host : String
  pub port : ℕ
  pub gpu_memory_utilization : Option ℕ
  pub max_model_len : Option ℕ
  pub max_num_seqs : Option ℕ
  pub tensor_parallel_size : Option ℕ

-- the fields that the merge reads
pub record DockerRuntimeConfig : Type 0 where
  pub image : String
  pub gpu : String
  pub ipc : String
  pub container_port : ℕ
  pub cache_host_path : String
  pub cache_container_path : String
  pub defaults : BackendDefaults
  pub extra_docker_args : List String
  pub extra_backend_args : List String

pub record DockerInstanceOverrides : Type 0 where
  pub container_name : String
  pub host_port : ℕ
  pub model_container_path : String
  pub served_model_name : String
  pub gpu_memory_utilization : Option ℕ
  pub max_model_len : Option ℕ
  pub max_num_seqs : Option ℕ
  pub tensor_parallel_size : Option ℕ
  pub gpu : Option String
  pub extra_docker_args : List String
  pub extra_backend_args : List String
