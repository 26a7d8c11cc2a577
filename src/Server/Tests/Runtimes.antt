-- ===== src/Server/Tests/Runtimes.antt =====
-- Runtime environments of the sample fleet: one that is created, one that an instance uses.
use lightai_platform.Prelude.{String, true, none, [], ◌∷◌, arith, eq_iff}
use lightai_platform.Prelude.Rows.{insert, select_one}
use lightai_platform.Server.Tables.{Db, Runtime}
use lightai_platform.Server.Waiting.{Turn}
use lightai_platform.Server.Runtimes.Request.{RuntimeEnvironmentRequest}
use lightai_platform.Server.Runtimes.Check.{ollama_runtime_config_check}
use lightai_platform.Server.Runtimes.Edit.{new_runtime}
use lightai_platform.Server.Runtimes.Laws.{RefersTo}
use lightai_platform.Server.Tests.{fleet, instance, vllm}

abbrev pub ollama_request : RuntimeEnvironmentRequest
ollama_request = record {
  name = "Ollama";
  backend = "ollama";
  deploy_type = "binary";
  version = none;
  base_url = none;
  health_url = none;
  endpoint_url = none;
  binary_path = none;
  docker_image = none;
  working_dir = none;
  log_dir = none;
  allowed_model_dirs_json = none;
  params_json = none;
  enabled = none;
}

abbrev ollama : Runtime
ollama = new_runtime "r2" 420 "n1" ollama_request (ollama_runtime_config_check 420)

abbrev fleet_with_ollama : Db
fleet_with_ollama = record fleet { runtime_environments = insert ollama fleet.runtime_environments }

RefersTo-vllm : (id status : String) → RefersTo (vllm ∷ []) (instance id status)
unfolding select_one
RefersTo-vllm id status r e = ground (arith, e, eq_iff "r1" r)

abbrev pub late_turn : Turn
late_turn = record { meanwhile = λ d. d; expired = true; now = 440 }
