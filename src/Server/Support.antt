-- ===== src/Server/Support.antt =====
-- The validators and the node query of server/src/domain/support.rs.
pub mod Laws
use lightai_platform.Prelude.{
  ℕ, ◌-◌, String, Bool, true, false, not, ◌&&◌, ◌||◌, Option, none, some, List, [], ◌∷◌, ◌<>◌, leb,
  ◌==◌, if◌then◌else◌, and_then, is_some, is_some_and, unwrap_or,
}
use lightai_platform.Prelude.Rows.{select_one}
use lightai_platform.Prelude.Text.{is_blank, is_whitespace, any_char, contains_text, one_of}
use lightai_platform.Server.Serde.{Serde}
use lightai_platform.Server.Tables.{Db, Node, node_is, Model, model_is}
use lightai_platform.Server.Exec.{
  Result, ok, err, DomainError, bad_request, not_found, conflict, Exec, gets, refuse_if, pure,
  ◌>>=◌, ◌>>◌,
}

-- ONLINE_THRESHOLD_SECS of server/src/repository.rs
abbrev pub online_threshold_secs : ℕ
online_threshold_secs = 60

unfoldable pub validate_non_empty : String → String → Exec Unit
validate_non_empty field value = refuse_if (is_blank value) (bad_request (field <> " is required"))

unfoldable pub validate_one_of : String → String → List String → Exec Unit
validate_one_of field value allowed =
    refuse_if (not (one_of allowed value)) (bad_request (field <> " is invalid"))

abbrev pub backends : List String
backends = "vllm" ∷ "ollama" ∷ "lmdeploy" ∷ "mindie" ∷ "llama_cpp" ∷ "triton" ∷ "custom" ∷ []

unfoldable pub validate_backend : String → Exec Unit
unfolding validate_one_of
validate_backend value = validate_one_of "backend" value backends

unfoldable pub validate_path : String → String → Exec Unit
validate_path field value =
    refuse_if (is_blank value || contains_text ".." value) (bad_request (field <> " is invalid"))

unfoldable pub validate_deploy_type : String → Exec Unit
unfolding validate_one_of
validate_deploy_type value =
    validate_one_of "deploy_type" value ("docker" ∷ "script" ∷ "binary" ∷ [])

abbrev pub model_types : List String
model_types = "llm" ∷ "embedding" ∷ "rerank" ∷ "vlm" ∷ "asr" ∷ "tts" ∷ "other" ∷ []

unfoldable pub validate_model_type : String → Exec Unit
unfolding validate_one_of
validate_model_type value = validate_one_of "model_type" value model_types

unfoldable pub validate_no_whitespace : String → String → Exec Unit
validate_no_whitespace field value =
    refuse_if (is_blank value || any_char is_whitespace value)
      (bad_request (field <> " is invalid"))

-- `now - last_heartbeat_at <= ONLINE_THRESHOLD_SECS`; a heartbeat in the future counts as recent,
-- which the truncated `-` leaves so
abbrev pub seen_recently : ℕ → Option ℕ → Bool
seen_recently now none = false
seen_recently now (some last_seen) = leb (now - last_seen) online_threshold_secs

unfoldable pub online : ℕ → String → Db → Bool
online now node_id db =
    seen_recently now (and_then (select_one (node_is node_id) db.nodes) (λ n. n.last_heartbeat_at))

abbrev pub node_online : ℕ → String → Exec Bool
node_online now node_id = gets (online now node_id)

unfoldable pub ensure_node_online : ℕ → String → Exec Unit
ensure_node_online now node_id = do
  up ← node_online now node_id
  refuse_if (not up) (conflict "Agent is offline; runtime environment cannot be confirmed")

-- SELECT 1 FROM models WHERE id = ? AND deleted_at IS NULL
abbrev pub live_model : String → Model → Bool
live_model id m = model_is id m && not (is_some m.deleted_at)

unfoldable pub ensure_model_exists : String → Exec Unit
ensure_model_exists model_id = do
  exists ← gets (λ db. is_some (select_one (live_model model_id) db.models))
  refuse_if (not exists) (not_found "model not found")

unfoldable pub ensure_node_exists : String → Exec Unit
ensure_node_exists node_id = do
  exists ← gets (λ db. is_some (select_one (node_is node_id) db.nodes))
  refuse_if (not exists) (not_found "node not found")

module _ (js : Serde) where
  unfoldable pub validate_json_field : String → Option String → Exec Unit
  validate_json_field field none = pure tt
  validate_json_field field (some value) =
      refuse_if (not (is_some (js.from_str value)))
        (bad_request (field <> " must be valid JSON when provided"))
