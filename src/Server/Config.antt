-- ===== src/Server/Config.antt =====
-- The stored configuration policies and the configuration that an agent is given:
-- `effective_agent_config`, `save_agent_config_policy` and the queries under them of
-- server/src/repository.rs. The clock is an argument.
pub mod Laws
use lightai_platform.Prelude.{
  ℕ, ◌+◌, max, String, Bool, ◌&&◌, ◌||◌, Option, none, some, List, [], ◌∷◌, ltb, nat_eq, ◌==◌,
  unwrap_or, map_option, is_some_and, if◌then◌else◌, ◌*◌, any, ◌<>◌, not,
}
use lightai_platform.Prelude.Rows.{select_one}
use lightai_platform.Server.Policy.{
  AgentConfig, AgentConfigPolicy, default_policy, agent_config_version, default_agent_config,
  apply_policy, LogPolicy, apply_log_layer, default_log_policy,
}
use lightai_platform.Server.Serde.{Serde}
use lightai_platform.Prelude.Text.{trim, is_blank, contains_text, any_char, one_of}
use lightai_platform.Server.Tables.{PolicyRow}
use lightai_platform.Server.Exec.{Exec, internal, pure, gets, need, ◌>>=◌, ◌>>◌, refuse_if, modify}

-- WHERE scope = ? AND node_id = ?
abbrev pub policy_is : String → String → PolicyRow → Bool
policy_is scope node_id row = row.scope == scope && row.node_id == node_id

unfoldable pub policy_version : String → String → Exec (Option ℕ)
policy_version scope node_id =
    gets (λ db. map_option (λ r. r.version) (select_one (policy_is scope node_id) db.policies))

-- SELECT MAX(version), or `agent_config_version` of an empty table, plus one
unfoldable pub greatest_version : List PolicyRow → Option ℕ
greatest_version [] = none
greatest_version (r ∷ rs) =
    let rest = greatest_version rs in some (max r.version (unwrap_or rest r.version))

unfoldable pub next_policy_version : Exec ℕ
unfolding greatest_version
next_policy_version = gets (λ db. unwrap_or (greatest_version db.policies) agent_config_version + 1)

-- a number of seconds that is given lies between 1 and a day
abbrev pub bad_secs : Option ℕ → Bool
bad_secs o = is_some_and o (λ v. nat_eq v 0 || ltb 86400 v)

module _ (js : Serde) where
  unfoldable pub parse_policy : Option PolicyRow → Exec (Option AgentConfigPolicy)
  parse_policy none = pure none
  parse_policy (some row) = do
    policy ← need (js.policy_from_str row.policy_json) (internal "policy_json")
    pure (some policy)

  unfoldable pub read_policy : String → String → Exec (Option AgentConfigPolicy)
  unfolding parse_policy
  read_policy scope node_id = do
    row ← gets (λ db. select_one (policy_is scope node_id) db.policies)
    parse_policy row

  unfoldable pub effective_agent_config : ℕ → String → Exec AgentConfig
  unfolding read_policy policy_version
  effective_agent_config now node_id = do
    global ← read_policy "global" ""
    node ← read_policy "node" node_id
    global_version ← policy_version "global" ""
    node_version ← policy_version "node" node_id
    pure (
        apply_policy (default_agent_config now) (unwrap_or global default_policy)
          (unwrap_or node default_policy)
          (max (max (unwrap_or global_version agent_config_version) (unwrap_or node_version 0))
            agent_config_version)
          now)

-- `validate_log_dir` of server/src/platform_log.rs. Of the paths only "/" is refused by the test on
-- its components, for the test asks for that path too.
unfoldable pub validate_log_dir : String → Exec Unit
validate_log_dir value = do
  let trimmed = trim value
  refuse_if (trimmed == "" || contains_text ".." trimmed || any_char (λ c. nat_eq c 0) trimmed)
      (internal "log_dir is invalid")
  refuse_if (trimmed == "/") (internal "log_dir is dangerous")

abbrev pub log_levels : List String
log_levels = "error" ∷ "warn" ∷ "info" ∷ "debug" ∷ "trace" ∷ []

-- `validate_policy` of server/src/platform_log.rs
unfoldable pub validate_log_policy : LogPolicy → Exec Unit
validate_log_policy policy = do
  validate_log_dir policy.log_dir
  refuse_if (not (one_of log_levels policy.log_level)) (internal "log_level is invalid")
  refuse_if
      (nat_eq policy.log_max_file_bytes 0 || ltb (1024 * 1024 * 1024) policy.log_max_file_bytes)
      (internal "log_max_file_bytes must be between 1 and 1073741824")
  refuse_if (nat_eq policy.log_retention_files 0 || ltb 100 policy.log_retention_files)
      (internal "log_retention_files must be between 1 and 100")
  refuse_if (ltb 3650 policy.log_retention_days)
      (internal "log_retention_days must be between 0 and 3650")

abbrev pub check_secs : String → Option ℕ → Exec Unit
check_secs name value =
    refuse_if (bad_secs value) (internal (name <> " must be between 1 and 86400"))

abbrev pub bad_bytes : Option ℕ → Bool
bad_bytes o = is_some_and o (λ v. nat_eq v 0 || ltb (16 * 1024 * 1024) v)

abbrev pub bad_dirs : Option (List String) → Bool
bad_dirs o = is_some_and o (any (λ dir. is_blank dir || contains_text ".." dir))

unfoldable pub validate_policy : AgentConfigPolicy → Exec Unit
validate_policy policy = do
  check_secs "heartbeat_interval_secs" policy.heartbeat_interval_secs
  check_secs "metrics_sample_interval_secs" policy.metrics_sample_interval_secs
  check_secs "command_timeout_secs" policy.command_timeout_secs
  check_secs "environment_check_timeout_secs" policy.environment_check_timeout_secs
  check_secs "collector_timeout_secs" policy.collector_timeout_secs
  refuse_if (bad_bytes policy.collector_max_output_bytes)
      (internal "collector_max_output_bytes must be between 1 and 16777216")
  refuse_if (bad_dirs policy.allowed_model_dirs)
      (internal "allowed_model_dirs contains invalid path")
  validate_log_policy (apply_log_layer default_log_policy policy)

-- INSERT … ON CONFLICT(scope, node_id) DO UPDATE: the row of the key, or a new one
unfoldable pub upsert_policy : PolicyRow → List PolicyRow → List PolicyRow
upsert_policy row [] = row ∷ []
upsert_policy row (r ∷ rs) =
    let rest = upsert_policy row rs in
    if policy_is row.scope row.node_id r
    then record r {
      policy_json = row.policy_json;
      version = row.version;
      updated_at = row.updated_at;
    }
      ∷ rs
    else r ∷ rest

module _ (js : Serde) where
  unfoldable pub save_agent_config_policy : ℕ → String → String → AgentConfigPolicy → Exec Unit
  save_agent_config_policy now scope node_id policy = do
    validate_policy policy
    version ← next_policy_version
    modify (λ db. record db {
      policies =
          upsert_policy
            (record {
              scope = scope;
              node_id = node_id;
              policy_json = js.policy_to_string policy;
              version = version;
              updated_at = now;
            })
            db.policies;
    })
