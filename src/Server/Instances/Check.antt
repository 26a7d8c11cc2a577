-- ===== src/Server/Instances/Check.antt =====
-- `check_model_instance` and `test_model_instance` of server/src/domain/instances.rs, and
-- `check_url` of server/src/http_check.rs. The append to the platform log is left out.
use lightai_platform.Prelude.{
  ℕ, String, ◌<>◌, Bool, not, ◌&&◌, Option, none, some, List, leb, ltb, ◌==◌, or_else,
  if◌then◌else◌,
}
use lightai_platform.Server.Serde.{Serde}
use lightai_platform.Server.Exec.{bad_request, Exec, pure, fail, need, ◌>>=◌}
use lightai_platform.Server.Support.{node_online}
use lightai_platform.Server.InstanceView.{InstanceView, model_instance, update_instance_check}
use lightai_platform.Server.Waiting.{Waiting, Turn, then_wait, at_once}
use lightai_platform.Server.Instances.Params.{Http, Fetched, responded, unreachable}
use lightai_platform.Server.Instances.Run.{run_local_instance_task}

pub record CheckResult : Type 0 where
  pub status : String
  pub message : String

-- a success (2xx) or a redirection (3xx)
abbrev pub is_reachable : ℕ → Bool
is_reachable code = leb 200 code && ltb code 400

abbrev pub url_result : Fetched → CheckResult
url_result (responded code text) = record {
  status = if is_reachable code then "running" else "failed";
  message = "HTTP " <> text;
}
url_result (unreachable error) = record { status = "failed"; message = error }

unfoldable pub check_url : Http → String → CheckResult
check_url http url = url_result (http.fetch url)

abbrev check_error : CheckResult → Option String
check_error r = if r.status == "running" then none else some r.message

unfoldable pub check_external : Http → ℕ → String → Option String → Exec InstanceView
unfolding check_url
check_external http now id none =
    update_instance_check now id "unknown" (some "no check URL configured")
check_external http now id (some url) =
    let result = check_url http url in
    update_instance_check now id result.status (check_error result)

module _ (js : Serde) where
  unfoldable pub check_local : ℕ → String → String → InstanceView → List Turn → Waiting InstanceView
  check_local now id task_id i turns =
      if not (i.status == "running") && not (i.backend == "ollama")
      then at_once (pure i)
      else then_wait
          (do
            node_id ← need i.node_id (bad_request "Local instance missing node")
            node_online now node_id)
          (λ online.
            if online
            then run_local_instance_task js now id "check_model_instance" "running" task_id turns
            else at_once (
                update_instance_check now id i.status
                  (some "Agent offline, cannot check instance status")))

  unfoldable pub check_model_instance :
      Http → ℕ → String → String → List Turn → Waiting InstanceView
  unfolding check_local check_external
  check_model_instance http now id task_id turns = then_wait (model_instance now id) (λ i.
      if not (i.deploy_type == "external")
      then check_local now id task_id i turns
      else at_once
          (check_external http now id (or_else (or_else i.health_url i.endpoint_url) i.base_url)))

  unfoldable pub test_model_instance : Http → ℕ → String → String → List Turn → Waiting InstanceView
  unfolding check_model_instance
  test_model_instance http now id task_id turns = then_wait (model_instance now id) (λ i.
      if i.deploy_type == "external"
      then check_model_instance http now id task_id turns
      else if not (i.status == "running") && not (i.backend == "ollama")
      then at_once (fail (bad_request "Local instance is not running, cannot test"))
      else run_local_instance_task js now id "test_model_instance" "running" task_id turns)
