-- ===== src/Server/Logs/Laws.antt =====
-- What the readers of logs promise.
use lightai_platform.Prelude.{
  ℕ, String, ◌≡◌, sym, subst, true, some, List, [], ◌∷◌, any, ◌==◌, arith, All, Bool-cases, inl,
  inr, unwrap_or, ◌∷◌,
}
use lightai_platform.Prelude.Rows.{update}
use lightai_platform.Server.Serde.{Serde}
use lightai_platform.Server.Tables.{Db, Task, Instance, instance_is}
use lightai_platform.Server.Exec.{Exec, ok, conflict}
use lightai_platform.Server.InstanceView.{update_instance}
use lightai_platform.Server.Waiting.{Turn, Ends, ends}
use lightai_platform.Server.Waiting.Yields.{Replies, Yields, replies, yields, Replies-fail}
use lightai_platform.Server.Logs.{
  read_answer, read_give_up, result_or_null, read_agent_log, with_log_tail, store_log_tail,
  log_tail_of, instance_log_answer, refresh_instance_logs,
}

-- the rows with the id hold the text
abbrev pub HoldsTail : String → String → Db → Type 0
HoldsTail id text db =
    All (λ i. instance_is id i ≡ true → i.log_tail ≡ some text) db.model_instances

module _ (js : Serde) where
  stored_tail :
      (now : ℕ) (id text : String) (rows : List Instance)
      → All
          (λ i. instance_is id i ≡ true → i.log_tail ≡ some text)
          (update (instance_is id) (with_log_tail js now text) rows)
  unfolding update
  stored_tail now id text [] = tt
  stored_tail now id text (i ∷ rows) = (λ h. ground (arith, h), stored_tail now id text rows)

  answer-Replies :
      (t : Task) (m : Exec String) (id failure : String) (n : Exec String)
      → Replies (HoldsTail id) n
      → read_answer t n failure ≡ some m
      → Replies (HoldsTail id) m
  answer-Replies t m id failure n h e = elim (Bool-cases (t.status == "succeeded")) [
    | inl k ↦ subst (Replies (HoldsTail id)) (ground (arith, e, k)) h
    | inr k ↦ elim (Bool-cases (t.status == "failed")) [
      | inl j ↦
          subst (Replies (HoldsTail id)) (ground (arith, e, k, j))
            (Replies-fail (HoldsTail id) (conflict (unwrap_or t.error_message failure)))
      | inr j ↦ ground (arith, e, k, j)
    ]
  ]

  store-Replies :
      (now : ℕ) (id : String) (result : js.Value)
      → Replies (HoldsTail id) (store_log_tail js now id result)
  unfolding store_log_tail
  store-Replies now id result = record {
    at = λ db text d h.
        let stored = stored_tail now id (log_tail_of js result) db.model_instances in
        let written : d ≡ update_instance id (with_log_tail js now (log_tail_of js result)) db =
          ground (arith, h) in
        let shown : log_tail_of js result ≡ text = ground (arith, h) in
        subst (λ s. HoldsTail id s d) shown
          (subst (HoldsTail id (log_tail_of js result)) (sym written) stored);
  }

  log-Replies :
      (id : String) (now : ℕ) (t : Task) (m : Exec String)
      → instance_log_answer js id now t ≡ some m
      → Replies (HoldsTail id) m
  log-Replies id now t m h =
      answer-Replies t m id "Instance log read failed" _
        (store-Replies now id (result_or_null js t)) h

  give_up-Replies :
      (id message task_id : String) (now : ℕ)
      → Replies (HoldsTail id) (read_give_up message task_id now)
  unfolding read_give_up
  give_up-Replies id message task_id now = search replies

  refresh-Yields :
      (now : ℕ) (task_id id : String) (turns : List Turn)
      → Yields (HoldsTail id) (refresh_instance_logs js now task_id id turns)
  unfolding refresh_instance_logs
  refresh-Yields now task_id id turns = search (yields, log-Replies, give_up-Replies)

  -- The text that a refresh of an instance's log answers is the one that the row of the instance then
  -- holds.
  pub refresh_holds :
      (now : ℕ) (task_id id : String) (turns : List Turn) (db : Db) (text : String) (d : Db)
      → refresh_instance_logs js now task_id id turns db ≡ some (ok text, d)
      → HoldsTail id text d
  refresh_holds now task_id id turns = (refresh-Yields now task_id id turns).at

  -- The readers of logs end: if the deadline passes in some round of the wait for the agent, there is an
  -- answer or an error, whatever the agent and the other requests do.
  pub read_log-Ends :
      (now : ℕ) (task_id node_id : String) (max_bytes : ℕ) (turns : List Turn)
      → any (λ t. t.expired) turns ≡ true
      → Ends (read_agent_log js now task_id node_id max_bytes turns)
        × Ends (refresh_instance_logs js now task_id node_id turns)
  unfolding read_agent_log refresh_instance_logs
  read_log-Ends now task_id node_id max_bytes turns late =
      (search ends depth 14, search ends depth 14)
