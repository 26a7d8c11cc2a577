-- ===== src/Server/Gateway/Laws.antt =====
-- What the tasks of the gateway promise.
use lightai_platform.Prelude.{
  ℕ, String, ◌<>◌, ◌≡◌, refl, Bool, true, false, not, ◌&&◌, ◌||◌, Option, none, some, List, any,
  ◌==◌, is_some, arith, inl, inr,
}
use lightai_platform.Server.Serde.{Serde}
use lightai_platform.Server.Tables.{Db}
use lightai_platform.Server.Exec.{
  DomainError, ok, err, Exec, bad_request, refuse_if, need, ◌>>◌, ◌>>=◌,
}
use lightai_platform.Server.Exec.Effects.{ReadOnly, reads, read_cases}
use lightai_platform.Server.Support.Laws.{valid_reads}
use lightai_platform.Server.Waiting.{Turn, Ends, ends}
use lightai_platform.Server.Waiting.Yields.{Replies, replies}
use lightai_platform.Server.Gateway.{
  GatewayTaskRequest, GatewayCrates, Url, starts, is_loopback, ensure_node_can_run_gateway_task,
  validate_required_path, validate_required_url, check_parsed_url, validate_start,
  validate_gateway_request, wait_for_gateway_task, queue_gateway_task, run_gateway_task,
}

-- A test that is passed was false.
passed :
    {A : Type 0} (b : Bool) (e : DomainError) (m : Exec A) (db : Db) (a : A) (d : Db)
    → (refuse_if b e >> m) db ≡ (ok a, d)
    → (b ≡ false) × (m db ≡ (ok a, d))
passed true e m db a d h = cc
passed false e m db a d h = (refl, h)

-- http or https, of the node itself, the path /health and no query
abbrev pub is_safe_url : Option Url → Bool
is_safe_url none = false
is_safe_url (some u) =
    (u.scheme == "http" || u.scheme == "https")
    && is_loopback u.host_str
    && u.path == "/health"
    && not (is_some u.query)

checked_safe :
    (field : String) (p : Url) (db : Db) (u : Unit {0}) (d : Db)
    → check_parsed_url field p db ≡ (ok u, d)
    → is_safe_url (some p) ≡ true
unfolding check_parsed_url
checked_safe field p db u d h =
    let last =
      refuse_if (is_some p.query) (bad_request (field <> " must not include query parameters")) in
    let of_path =
      refuse_if (not (p.path == "/health")) (bad_request (field <> " path must be /health")) in
    let of_host =
      refuse_if (not (is_loopback p.host_str))
        (bad_request (field <> " must target localhost or loopback")) in
    let (scheme, h1) =
      passed (not (p.scheme == "http" || p.scheme == "https"))
        (bad_request (field <> " must use http:// or https://")) (of_host >> (of_path >> last)) db u
        d h in
    let (host, h2) =
      passed (not (is_loopback p.host_str))
        (bad_request (field <> " must target localhost or loopback")) (of_path >> last) db u d h1 in
    let (path, h3) =
      passed (not (p.path == "/health")) (bad_request (field <> " path must be /health")) last db u
        d h2 in
    let query : is_some p.query ≡ false = ground (arith, h3) in
    ground (arith, scheme, host, path, query)

parsed_safe :
    (field : String) (o : Option Url) (db : Db) (u : Unit {0}) (d : Db)
    → (need o (bad_request (field <> " is invalid")) >>= check_parsed_url field) db ≡ (ok u, d)
    → is_safe_url o ≡ true
parsed_safe field none db u d h = cc
parsed_safe field (some p) db u d h = checked_safe field p db u d h

abbrev pub is_safe_text : GatewayCrates → Option String → Bool
is_safe_text crates none = false
is_safe_text crates (some text) = is_safe_url (crates.parse_url text)

module _ (js : Serde) (crates : GatewayCrates) where
  path-ReadOnly :
      (field : String) (value : Option String) → ReadOnly (validate_required_path field value)
  unfolding validate_required_path
  path-ReadOnly field none = search reads
  path-ReadOnly field (some value) = search valid_reads

  url-ReadOnly :
      (field : String) (value : Option String)
      → ReadOnly (validate_required_url js crates field value)
  unfolding validate_required_url check_parsed_url
  url-ReadOnly field value = search reads depth 20

  start-ReadOnly : (r : GatewayTaskRequest) → ReadOnly (validate_start js crates r)
  unfolding validate_start
  start-ReadOnly r = search (reads, path-ReadOnly, url-ReadOnly) depth 20

  request-ReadOnly :
      (task_kind : String) (r : GatewayTaskRequest)
      → ReadOnly (validate_gateway_request js crates task_kind r)
  unfolding validate_gateway_request
  request-ReadOnly task_kind r = search (reads, start-ReadOnly)

  node-ReadOnly :
      (now : ℕ) (node_id : String) → ReadOnly (ensure_node_can_run_gateway_task now node_id)
  unfolding ensure_node_can_run_gateway_task
  node-ReadOnly now node_id = search valid_reads depth 12

  url_safe :
      (field : String) (value : Option String) (db : Db) (u : Unit) (d : Db)
      → validate_required_url js crates field value db ≡ (ok u, d)
      → is_safe_text crates value ≡ true
  unfolding validate_required_url
  url_safe field none db u d h = cc
  url_safe field (some text) db u d h = parsed_safe field (crates.parse_url text) db u d h

  module _ (r : GatewayTaskRequest) where
    url-Replies :
        Replies
          (λ _ _. is_safe_text crates r.health_url ≡ true)
          (validate_required_url js crates "health_url" r.health_url)
    url-Replies = record { at = λ db u d h. url_safe "health_url" r.health_url db u d h }

    start-Replies :
        Replies (λ _ _. is_safe_text crates r.health_url ≡ true) (validate_start js crates r)
    unfolding validate_start
    start-Replies = search (replies, url-Replies)

    request_safe :
        (task_kind : String) (db : Db) (u : Unit) (d : Db)
        → starts task_kind ≡ true
        → validate_gateway_request js crates task_kind r db ≡ (ok u, d)
        → is_safe_text crates r.health_url ≡ true
    unfolding validate_gateway_request
    request_safe task_kind db u d k h = start-Replies.at db u d (ground (arith, k, h))

    -- A gateway is started or restarted only with a health URL of the node itself, with http or https,
    -- the path /health and no query: with any other, the request fails and no task is queued.
    pub unsafe_gateway_refused :
        (now : ℕ) (task_id node_id task_kind : String) (turns : List Turn) (db : Db)
        → starts task_kind ≡ true
        → is_safe_text crates r.health_url ≡ false
        → (e : DomainError) × (run_gateway_task js crates now task_id node_id task_kind r turns db
            ≡ some (err e, db))
    unfolding run_gateway_task queue_gateway_task
    unsafe_gateway_refused now task_id node_id task_kind turns db k unsafe =
        elim (read_cases _ db (node-ReadOnly now node_id)) [
          | inr (x, e) ↦ (x, ground arith)
          | inl (u, e) ↦ elim (read_cases _ db (request-ReadOnly task_kind r)) [
            | inr (x, f) ↦ (x, ground arith)
            | inl (v, f) ↦
                let safe = request_safe task_kind db v db k f in ground (arith, safe, unsafe)
          ]
        ]

    -- A task of the gateway ends: if the deadline passes in some round of the wait for the agent, there
    -- is an answer or an error, whatever the agent and the other requests do.
    pub run_gateway-Ends :
        (now : ℕ) (task_id node_id task_kind : String) (turns : List Turn)
        → any (λ t. t.expired) turns ≡ true
        → Ends (run_gateway_task js crates now task_id node_id task_kind r turns)
    unfolding run_gateway_task wait_for_gateway_task
    run_gateway-Ends now task_id node_id task_kind turns late = search ends depth 14
