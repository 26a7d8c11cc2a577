-- ===== src/Server/Config/Laws.antt =====
-- What a saved policy changes for an agent.
use lightai_platform.Prelude.{
  ℕ, ◌+◌, ◌≤◌, ◌<◌, ◌≡◌, sym, String, some, none, arith, Option, List, [], ◌∷◌, unwrap_or, All,
  subst, inl, inr, Bool-cases,
}
use lightai_platform.Server.Serde.{Serde}
use lightai_platform.Server.Tables.{Db, PolicyRow}
use lightai_platform.Server.Policy.{
  AgentConfig, LogPolicy, AgentConfigPolicy, apply_policy, default_agent_config, default_policy,
  agent_config_version,
}
use lightai_platform.Server.Exec.{ok, reply, after}
use lightai_platform.Server.Exec.Laws.{unit_cases}
use lightai_platform.Server.Exec.Effects.{Atomic, atomic, ReadOnly, reads, read_cases}
use lightai_platform.Server.Config.{
  policy_is, greatest_version, next_policy_version, upsert_policy, validate_policy,
  validate_log_policy, validate_log_dir, save_agent_config_policy, effective_agent_config,
  read_policy,
}

validate_log_policy-ReadOnly : (p : LogPolicy) → ReadOnly (validate_log_policy p)
unfolding validate_log_policy validate_log_dir
validate_log_policy-ReadOnly p = search reads depth 20

validate_policy-ReadOnly : (p : AgentConfigPolicy) → ReadOnly (validate_policy p)
unfolding validate_policy
validate_policy-ReadOnly p = search (reads, validate_log_policy-ReadOnly) depth 20

abbrev pub saved_row : Serde → ℕ → String → String → AgentConfigPolicy → Db → PolicyRow
saved_row js now scope node_id policy db = record {
  scope = scope;
  node_id = node_id;
  policy_json = js.policy_to_string policy;
  version = unwrap_or (greatest_version db.policies) agent_config_version + 1;
  updated_at = now;
}

save-Atomic :
    (js : Serde) (now : ℕ) (scope node_id : String) (policy : AgentConfigPolicy)
    → Atomic (save_agent_config_policy js now scope node_id policy)
unfolding save_agent_config_policy next_policy_version
save-Atomic js now scope node_id policy = search (atomic, validate_policy-ReadOnly) depth 12

save_ok :
    (js : Serde) (now : ℕ) (scope node_id : String) (policy : AgentConfigPolicy) (db : Db)
    → reply (save_agent_config_policy js now scope node_id policy) db ≡ ok tt
    → after (save_agent_config_policy js now scope node_id policy) db ≡ record db {
      policies = upsert_policy (saved_row js now scope node_id policy db) db.policies;
    }
unfolding save_agent_config_policy next_policy_version
save_ok js now scope node_id policy db h =
    elim (read_cases _ db (validate_policy-ReadOnly policy)) [
      | inl (tt, e) ↦ ground arith
      | inr (x, e) ↦ ground arith
    ]

-- the stored policy of a key, if any, is older than `version`
abbrev Older : ℕ → Option PolicyRow → Type 0
Older version none = Unit {0}
Older version (some r) = r.version < version

-- every stored version is at least the built-in one
abbrev pub Versioned : Db → Type 0
Versioned db = All (λ r. agent_config_version ≤ r.version) db.policies

greatest_is_versioned :
    (rows : List PolicyRow)
    → All (λ r. agent_config_version ≤ r.version) rows
    → agent_config_version ≤ unwrap_or (greatest_version rows) agent_config_version
unfolding greatest_version
greatest_is_versioned [] h = ground arith
greatest_is_versioned (r ∷ rs) h = ground (arith, h.0)

module _ (js : Serde) (now : ℕ) (node_id : String) (policy : AgentConfigPolicy) (db : Db) where
  -- what the effective configuration of the node is after the policy of the node was saved
  abbrev pub Reached : AgentConfig → Db → Type 0
  Reached config db' =
      (global : Option AgentConfigPolicy) × (version : ℕ) × (reply (read_policy js "global" "") db
        ≡ ok global)
      × (reply (effective_agent_config js now node_id) db'
          ≡ ok (
              apply_policy (default_agent_config now) (unwrap_or global default_policy) policy
                version now))
      × (config.config_version < version)

module _ (row : PolicyRow) (new : agent_config_version ≤ row.version) where
  Versioned-upsert :
      (rows : List PolicyRow)
      → All (λ r. agent_config_version ≤ r.version) rows
      → All (λ r. agent_config_version ≤ r.version) (upsert_policy row rows)
  unfolding upsert_policy
  Versioned-upsert [] h = (new, tt)
  Versioned-upsert (r ∷ rs) h = elim (Bool-cases (policy_is row.scope row.node_id r)) [
    | inl e ↦ rw e (new, h.1)
    | inr e ↦ rw e (h.0, Versioned-upsert rs h.1)
  ]

-- Every stored version stays at least the built-in one, whether a save is accepted or refused.
pub save-Versioned :
    (js : Serde) (now : ℕ) (scope node_id : String) (policy : AgentConfigPolicy) (db : Db)
    → Versioned db
    → Versioned (after (save_agent_config_policy js now scope node_id policy) db)
save-Versioned js now scope node_id policy db h =
    let save = save_agent_config_policy js now scope node_id policy in
    elim (unit_cases (reply save db)) [
      | inl passed ↦ subst Versioned (sym (save_ok js now scope node_id policy db passed)) (
          Versioned-upsert (saved_row js now scope node_id policy db)
            (omega (arith, greatest_is_versioned db.policies h)) db.policies h)
      | inr (e, refused) ↦
          subst Versioned (sym ((save-Atomic js now scope node_id policy).at db e refused)) h
    ]
