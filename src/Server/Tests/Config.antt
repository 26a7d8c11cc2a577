-- ===== src/Server/Tests/Config.antt =====
-- A policy saved for the node of the sample fleet.
use lightai_platform.Server.Policy.{AgentConfig, apply_policy, default_policy, default_agent_config}

abbrev first_config : AgentConfig
first_config = apply_policy (default_agent_config 420) default_policy default_policy 1 420
