-- ===== src/Server/Runtimes/Edit.antt =====
-- Creation, update, deletion and check of a runtime environment. The ids of new rows and the clock,
-- before and after the wait for the agent, are arguments.
use lightai_platform.Prelude.{
  ℕ, String, ◌<>◌, Bool, true, not, ◌&&◌, none, some, List, [], ◌∷◌, ◌==◌, any, is_some,
  is_some_and, map, or_else, unwrap_or, if◌then◌else◌, false,
}
use lightai_platform.Prelude.Rows.{select, select_one, insert, update, delete}
use lightai_platform.Server.Serde.{Serde}
use lightai_platform.Server.Tables.{Db, Runtime, runtime_is, Instance, node_is}
use lightai_platform.Server.Exec.{
  bad_request, conflict, not_found, internal, Exec, fail, gets, modify, need, refuse_if, ◌>>=◌,
  ◌>>◌,
}
use lightai_platform.Server.Support.{node_online, ensure_node_online}
use lightai_platform.Server.Waiting.{Waiting, Turn, then_wait, then_do, at_once}
use lightai_platform.Server.Instances.Params.{runtime_environment}
use lightai_platform.Server.Instances.Edit.{is_live}
use lightai_platform.Server.Runtimes.Request.{RuntimeEnvironmentRequest, validate_runtime}
use lightai_platform.Server.Runtimes.Check.{
  CheckedRuntimeEnvironment, ollama_runtime_config_check, check_runtime_environment_before_save,
}

-- the row of a new environment
abbrev pub new_runtime :
    String → ℕ → String → RuntimeEnvironmentRequest → CheckedRuntimeEnvironment → Runtime
new_runtime id now node_id r checked = record {
  id = id;
  node_id = some node_id;
  name = r.name;
  backend = r.backend;
  deploy_type = r.deploy_type;
  version = or_else checked.version r.version;
  base_url = none;
  health_url = none;
  endpoint_url = none;
  binary_path = r.binary_path;
  docker_image = r.docker_image;
  working_dir = r.working_dir;
  log_dir = r.log_dir;
  allowed_model_dirs_json = r.allowed_model_dirs_json;
  params_json = r.params_json;
  enabled = unwrap_or r.enabled true;
  last_checked_at = some checked.checked_at;
  check_status = some checked.check_status;
  check_message = some checked.message;
  created_at = now;
  updated_at = now;
}

abbrev pub update_runtime : String → (Runtime → Runtime) → Db → Db
update_runtime id f db = record db {
  runtime_environments = update (runtime_is id) f db.runtime_environments;
}

-- INSERT; the node is a foreign key
unfoldable pub insert_runtime : Runtime → String → Exec Runtime
insert_runtime row node_id = do
  known ← gets (λ db. is_some (select_one (node_is node_id) db.nodes))
  refuse_if (not known) (internal "FOREIGN KEY constraint failed")
  modify (λ db. record db { runtime_environments = insert row db.runtime_environments })
  runtime_environment row.id

abbrev pub update_checked : ℕ → String → String → Runtime → Runtime
update_checked now status message env = record env {
  last_checked_at = some now;
  check_status = some status;
  check_message = some message;
  updated_at = now;
}

unfoldable pub update_runtime_environment_check : ℕ → String → String → String → Exec Runtime
update_runtime_environment_check now id status message = do
  modify (update_runtime id (update_checked now status message))
  runtime_environment id

-- WHERE runtime_environment_id = ?
abbrev pub uses_runtime : String → Instance → Bool
uses_runtime id i = is_some_and i.runtime_environment_id (λ r. r == id)

-- names.join(", ")
unfoldable pub join_names : List String → String
join_names [] = ""
join_names (n ∷ []) = n
join_names (n ∷ m ∷ ns) = n <> ", " <> join_names (m ∷ ns)

abbrev pub is_empty {ℓ} : {A : Type ℓ} → List A → Bool
is_empty [] = true
is_empty (x ∷ xs) = false

abbrev pub edited_runtime : ℕ → RuntimeEnvironmentRequest → Runtime → Runtime
edited_runtime now r env = record env {
  name = r.name;
  backend = r.backend;
  deploy_type = r.deploy_type;
  version = r.version;
  base_url = none;
  health_url = none;
  endpoint_url = none;
  binary_path = r.binary_path;
  docker_image = r.docker_image;
  working_dir = r.working_dir;
  log_dir = r.log_dir;
  allowed_model_dirs_json = r.allowed_model_dirs_json;
  params_json = r.params_json;
  enabled = unwrap_or r.enabled true;
  updated_at = now;
}

unfoldable pub delete_runtime_environment : String → Exec Unit
delete_runtime_environment id = do
  used ← gets (λ db. any (uses_runtime id) db.model_instances)
  refuse_if used (conflict "runtime environment is used by model instances")
  found ← gets (λ db. is_some (select_one (runtime_is id) db.runtime_environments))
  modify (λ db. record db { runtime_environments = delete (runtime_is id) db.runtime_environments })
  refuse_if (not found) (not_found "runtime environment not found")

-- the status that an Ollama environment has without a check
abbrev pub mark_ollama : ℕ → String → Exec Runtime
mark_ollama now id =
    let checked = ollama_runtime_config_check now in
    update_runtime_environment_check now id checked.check_status checked.message

module _ (js : Serde) where
  unfoldable pub create_runtime_environment :
      ℕ → ℕ → String → String → String → RuntimeEnvironmentRequest → List Turn → Waiting Runtime
  create_runtime_environment now later id task_id node_id r turns =
      then_wait (validate_runtime js r) (λ _.
        if r.backend == "ollama"
        then at_once (
            insert_runtime (new_runtime id now node_id r (ollama_runtime_config_check now)) node_id)
        else then_wait (ensure_node_online now node_id) (λ _.
          then_do (check_runtime_environment_before_save js now task_id node_id r turns)
            (λ checked. insert_runtime (new_runtime id later node_id r checked) node_id)))

  unfoldable pub update_runtime_environment : ℕ → String → RuntimeEnvironmentRequest → Exec Runtime
  update_runtime_environment now id r = do
    validate_runtime js r
    running ← gets (λ db.
        map (λ i. i.name) (select (λ i. uses_runtime id i && is_live i.status) db.model_instances))
    refuse_if (not (is_empty running)) (
        conflict (
          "Runtime in use by running instance "
          <> join_names running
          <> ". Cannot modify. Stop the instance first."))
    found ← gets (λ db. is_some (select_one (runtime_is id) db.runtime_environments))
    modify (update_runtime id (edited_runtime now r))
    refuse_if (not found) (not_found "runtime environment not found")
    if r.backend == "ollama"
        then (do marked ← mark_ollama now id; runtime_environment id)
        else runtime_environment id

  -- the request with which a stored environment is checked again
  abbrev pub request_of : Runtime → RuntimeEnvironmentRequest
  request_of env = record {
    name = env.name;
    backend = env.backend;
    deploy_type = env.deploy_type;
    version = env.version;
    base_url = none;
    health_url = none;
    endpoint_url = none;
    binary_path = env.binary_path;
    docker_image = env.docker_image;
    working_dir = env.working_dir;
    log_dir = env.log_dir;
    allowed_model_dirs_json = env.allowed_model_dirs_json;
    params_json = env.params_json;
    enabled = some env.enabled;
  }

  -- what a check that the agent has made changes in the row
  abbrev pub rechecked : ℕ → CheckedRuntimeEnvironment → Runtime → Runtime
  rechecked now checked env = record env {
    version = or_else checked.version env.version;
    last_checked_at = some checked.checked_at;
    check_status = some checked.check_status;
    check_message = some checked.message;
    updated_at = now;
  }

  -- what follows the query whether the node is online
  unfoldable pub check_online :
      ℕ → ℕ → String → String → String → Runtime → List Turn → Bool → Waiting Runtime
  check_online now later id task_id node_id env turns online =
      if not online
      then at_once (do
        marked ←
            update_runtime_environment_check now id "agent_offline"
              "Node Agent offline, cannot check runtime environment"
        fail (conflict "Node Agent offline, cannot check runtime environment"))
      else then_do
          (check_runtime_environment_before_save js now task_id node_id (request_of env) turns)
          (λ checked. do
            modify (update_runtime id (rechecked later checked))
            runtime_environment id)

  unfoldable pub check_runtime_environment : ℕ → ℕ → String → String → List Turn → Waiting Runtime
  check_runtime_environment now later id task_id turns = then_wait (runtime_environment id) (λ env.
      if env.backend == "ollama"
      then at_once (do marked ← mark_ollama now id; runtime_environment id)
      else then_wait (need env.node_id (bad_request "Runtime must be bound to a node")) (λ node_id.
        then_wait (node_online now node_id)
          (λ online. check_online now later id task_id node_id env turns online)))
