-- ===== src/Server/AgentTasks/Record/Shown.antt =====
-- What a result that an agent posts shows of an instance: its status, its note, its process
-- (`record_agent_task_result` of server/src/agent_tasks.rs).
use lightai_platform.Prelude.{
  ℕ, ◌≡◌, refl, ap, sym, subst, if◌then◌else◌, String, ◌<>◌, true, false, Option, none, some, ◌==◌,
  arith, inl, inr, List, [], ◌∷◌, Bool-cases, Option-cases, or_else, map_option, unwrap_or, eq_iff,
}
use lightai_platform.Prelude.Int.{ℤ}
use lightai_platform.Prelude.Text.{one_of, is_blank}
use lightai_platform.Server.Serde.{Serde}
use lightai_platform.Server.Tables.{Instance}
use lightai_platform.Server.AgentTasks.Sweep.{is_instance_kind}
use lightai_platform.Server.AgentTasks.Record.{
  AgentTaskResultRequest, reported, result_str, result_i64, take_chars, instance_status,
  instance_error,
}
use lightai_platform.Server.AgentTasks.Record.Laws.{IsFinal}

abbrev pub instance_kinds : List String
instance_kinds =
    "start_model_instance" ∷ "stop_model_instance" ∷ "check_model_instance" ∷ "test_model_instance"
    ∷ []

pub listed_kind : (kind : String) → one_of instance_kinds kind ≡ true → is_instance_kind kind ≡ true
unfolding one_of
listed_kind kind h = ground (arith, h)

module _ (js : Serde) (request : AgentTaskResultRequest js.Value) where
  -- the status that the instance of a task of this kind gets
  pub data StatusOf (kind : String) : String → Type 0 where
    told : (s : String) → result_str js request.result "instance_status" ≡ some s → StatusOf kind s
    stopped :
        result_str js request.result "instance_status" ≡ none
        → request.status ≡ "succeeded"
        → kind ≡ "stop_model_instance"
        → StatusOf kind "stopped"
    running :
        result_str js request.result "instance_status" ≡ none
        → request.status ≡ "succeeded"
        → kind == "stop_model_instance" ≡ false
        → StatusOf kind "running"
    failed :
        result_str js request.result "instance_status" ≡ none
        → request.status ≡ "failed"
        → StatusOf kind "failed"

  -- the note that it gets, which is the agent's message, and of a test the summary of the response too
  pub data NoteOf (kind : String) : Option String → Type 0 where
    message :
        request.status ≡ "succeeded"
        → kind == "test_model_instance" ≡ false
        → NoteOf kind (result_str js request.result "message")
    tested :
        (m summary : String)
        → request.status ≡ "succeeded"
        → kind ≡ "test_model_instance"
        → unwrap_or (result_str js request.result "message") "Test succeeded" ≡ m
        → unwrap_or (result_str js request.result "response_summary") "" ≡ summary
        → is_blank summary ≡ false
        → NoteOf kind (some (m <> "：" <> summary))
    tested_without_summary :
        (m : String)
        → request.status ≡ "succeeded"
        → kind ≡ "test_model_instance"
        → unwrap_or (result_str js request.result "message") "Test succeeded" ≡ m
        → is_blank (unwrap_or (result_str js request.result "response_summary") "") ≡ true
        → NoteOf kind (some m)
    failure :
        (m : String)
        → request.status ≡ "failed"
        → result_str js request.result "message" ≡ some m
        → NoteOf kind (some m)
    silent_failure :
        request.status ≡ "failed"
        → result_str js request.result "message" ≡ none
        → NoteOf kind (some "Instance task execution failed")

  -- what is left of the process: nothing after a stop, else what is told, or what was known
  pub data ProcessOf (kind : String) (i : Instance) : Option ℤ → Option String → Type 0 where
    gone : kind ≡ "stop_model_instance" → ProcessOf kind i none none
    kept :
        kind == "stop_model_instance" ≡ false
        → ProcessOf kind i
            (or_else (result_i64 js request.result "process_id") i.process_id)
            (or_else (result_str js request.result "process_ref") i.process_ref)

  is_success : request.status ≡ "succeeded" → request.status == "succeeded" ≡ true
  is_success done = ap (λ s. s == "succeeded") done

  no_success : request.status ≡ "failed" → request.status == "succeeded" ≡ false
  no_success failing = ap (λ s. s == "succeeded") failing

  untold-StatusOf :
      (kind : String)
      → result_str js request.result "instance_status" ≡ none
      → IsFinal request.status
      → StatusOf kind (instance_status js kind request)
  untold-StatusOf kind untold (inl done) = elim (Bool-cases (kind == "stop_model_instance")) [
    | inl stops ↦
        let value : instance_status js kind request ≡ "stopped" =
          ground (arith, untold, is_success done, stops) in
        subst (StatusOf kind) (sym value)
          (stopped untold done ((eq_iff kind "stop_model_instance").0 stops))
    | inr other ↦
        let value : instance_status js kind request ≡ "running" =
          ground (arith, untold, is_success done, other) in
        subst (StatusOf kind) (sym value) (running untold done other)
  ]
  untold-StatusOf kind untold (inr failing) =
      let value : instance_status js kind request ≡ "failed" =
        ground (arith, untold, no_success failing) in
      subst (StatusOf kind) (sym value) (failed untold failing)

  StatusOf-instance_status :
      (kind : String) → IsFinal request.status → StatusOf kind (instance_status js kind request)
  StatusOf-instance_status kind final =
      elim (Option-cases (result_str js request.result "instance_status")) [
        | inl untold ↦ untold-StatusOf kind untold final
        | inr (s, e) ↦
            let value : instance_status js kind request ≡ s = ground (arith, e) in
            subst (StatusOf kind) (sym value) (told s e)
      ]

  -- the message of a test
  tested-NoteOf :
      (kind : String)
      → request.status ≡ "succeeded"
      → kind ≡ "test_model_instance"
      → NoteOf kind (instance_error js kind request)
  tested-NoteOf kind done test =
      let m = unwrap_or (result_str js request.result "message") "Test succeeded" in
      let summary = unwrap_or (result_str js request.result "response_summary") "" in
      let shown : instance_error js kind request
          ≡ some (if is_blank summary then m else m <> "：" <> summary) =
        ground (arith, is_success done, ap (λ s. s == "test_model_instance") test) in
      subst (NoteOf kind) (sym shown) (elim (Bool-cases (is_blank summary)) [
        | inl blank ↦
            subst (λ b. NoteOf kind (some (if b then m else m <> "：" <> summary))) (sym blank)
              (tested_without_summary m done test refl blank)
        | inr given ↦
            subst (λ b. NoteOf kind (some (if b then m else m <> "：" <> summary))) (sym given)
              (tested m summary done test refl refl given)
      ])

  failed-NoteOf :
      (kind : String) → request.status ≡ "failed" → NoteOf kind (instance_error js kind request)
  failed-NoteOf kind failing = elim (Option-cases (result_str js request.result "message")) [
    | inl silent ↦
        let value : instance_error js kind request ≡ some "Instance task execution failed" =
          ground (arith, no_success failing, silent) in
        subst (NoteOf kind) (sym value) (silent_failure failing silent)
    | inr (m, e) ↦
        let value : instance_error js kind request ≡ some m =
          ground (arith, no_success failing, e) in
        subst (NoteOf kind) (sym value) (failure m failing e)
  ]

  NoteOf-instance_error :
      (kind : String)
      → IsFinal request.status
      → is_instance_kind kind ≡ true
      → NoteOf kind (instance_error js kind request)
  NoteOf-instance_error kind (inr failing) listed = failed-NoteOf kind failing
  NoteOf-instance_error kind (inl done) listed = elim (Bool-cases (kind == "test_model_instance")) [
    | inl test ↦ tested-NoteOf kind done ((eq_iff kind "test_model_instance").0 test)
    | inr other ↦
        let value : instance_error js kind request ≡ result_str js request.result "message" =
          ground (arith, is_success done, other, listed) in
        subst (NoteOf kind) (sym value) (message done other)
  ]

  -- what the row of the instance is then
  pub record Reported (now : ℕ) (kind : String) (i j : Instance) : Type 0 where
    pub status : StatusOf kind j.status
    pub note : NoteOf kind j.last_error
    pub process : ProcessOf kind i j.process_id j.process_ref
    pub base_url : j.base_url ≡ or_else (result_str js request.result "base_url") i.base_url
    pub endpoint_url :
        j.endpoint_url ≡ or_else (result_str js request.result "endpoint_url") i.endpoint_url
    pub log_tail :
        j.log_tail
        ≡ or_else
            (map_option (take_chars 8192) (result_str js request.result "log_tail"))
            i.log_tail
    pub command :
        j.command
        ≡ or_else (map_option (take_chars 2048) (result_str js request.result "command")) i.command
    pub last_checked_at : j.last_checked_at ≡ some now

  ProcessOf-reported :
      (now : ℕ) (kind : String) (i : Instance)
      → ProcessOf kind i
          (reported js now kind request i).process_id
          (reported js now kind request i).process_ref
  ProcessOf-reported now kind i = elim (Bool-cases (kind == "stop_model_instance")) [
    | inl stops ↦
        subst
          (λ b.
            ProcessOf kind i
              (if b then none else or_else (result_i64 js request.result "process_id") i.process_id)
              (if b
                then none
                else or_else (result_str js request.result "process_ref") i.process_ref))
          (sym stops) (gone ((eq_iff kind "stop_model_instance").0 stops))
    | inr other ↦
        subst
          (λ b.
            ProcessOf kind i
              (if b then none else or_else (result_i64 js request.result "process_id") i.process_id)
              (if b
                then none
                else or_else (result_str js request.result "process_ref") i.process_ref))
          (sym other) (kept other)
  ]

  pub reported-Reported :
      (now : ℕ) (kind : String) (i : Instance)
      → IsFinal request.status
      → is_instance_kind kind ≡ true
      → Reported now kind i (reported js now kind request i)
  reported-Reported now kind i final listed = record {
    status = StatusOf-instance_status kind final;
    note = NoteOf-instance_error kind final listed;
    process = ProcessOf-reported now kind i;
    base_url = refl;
    endpoint_url = refl;
    log_tail = refl;
    command = refl;
    last_checked_at = refl;
  }
