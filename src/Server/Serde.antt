-- ===== src/Server/Serde.antt =====
-- What the server uses of the crate serde_json, which is not part of the repository: an unknown
-- type of JSON values, its parser and printer, and the accessors that the code calls.
use lightai_platform.Prelude.{ℕ, String, Bool, Option, List}
use lightai_platform.Prelude.Int.{ℤ}
use lightai_platform.Server.Policy.{AgentConfigPolicy}

pub record Serde : Type 1 where
  pub Value : Type 0
  pub from_str : String → Option Value
  pub to_string : Value → String
  pub null : Value
  pub string : String → Value
  pub number : ℕ → Value
  pub object : List (String × Value) → Value
  -- `payload["key"] = value`
  pub set : Value → String → Value → Value
  pub get : Value → String → Option Value
  pub as_str : Value → Option String
  pub as_i64 : Value → Option ℤ
  pub as_u64 : Value → Option ℕ
  pub as_array : Value → Option (List Value)
  pub is_object : Value → Bool
  pub policy_from_str : String → Option AgentConfigPolicy
  pub policy_to_string : AgentConfigPolicy → String
