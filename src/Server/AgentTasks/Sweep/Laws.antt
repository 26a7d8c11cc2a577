-- ===== src/Server/AgentTasks/Sweep/Laws.antt =====
-- The loop of the sweep against one bulk UPDATE of the task table.
use lightai_platform.Prelude.{
  if◌then◌else◌, ℕ, ◌≡◌, refl, String, Bool, false, true, ◌&&◌, ◌||◌, List, [], ◌∷◌, arith, ◌==◌,
  All, eq_iff, ap, ◌∙◌, sym, All-of, fun_ext, eq_refl, All-mono, if◌then◌else◌, ap₂, some, none,
  subst, text_other,
}
use lightai_platform.Prelude.Rows.{update, select, select_one}
use lightai_platform.Server.Serde.{Serde}
use lightai_platform.Server.Tables.{Db, Task, task_is, instance_is}
use lightai_platform.Server.Exec.{ok, err, reply, after, not_found}
use lightai_platform.Server.Exec.Laws.{next_ok}
use lightai_platform.Server.InstanceView.{checked, update_instance_check}
use lightai_platform.Prelude.Rows.Laws.{
  select_one-update-none, update_none, update_ext, update-update,
}
use lightai_platform.Server.AgentTasks.Sweep.{
  update_trash_failure, is_open, update_tasks, timed_out, overdue, mark_task_timed_out,
  fail_subject, sweep_rows, mark_timed_out_tasks, is_instance_kind, payload_str,
}

-- PRIMARY KEY (id): no later row has the id of an earlier one
abbrev pub UniqueIds : List Task → Type 0
UniqueIds [] = Unit {0}
UniqueIds (t ∷ ts) = All (λ u. task_is t.id u ≡ false) ts × UniqueIds ts

-- one of the rows has this id
abbrev listed : List Task → String → Bool
listed [] id = false
listed (t ∷ ts) id = id == t.id || listed ts id

-- what the loop does to the task table
abbrev marked : ℕ → List Task → Task → Bool
marked now ts t = is_open t.status && listed ts t.id

-- The subject of a task is in another table.
pub agent_tasks-fail_subject :
    (js : Serde) (now : ℕ) (t : Task) (db : Db)
    → (after (fail_subject js now t) db).agent_tasks ≡ db.agent_tasks
unfolding fail_subject update_trash_failure update_instance_check
agent_tasks-fail_subject js now t db = ground arith

sweep_rows_bulk :
    (js : Serde) (now : ℕ) (ts : List Task) (db : Db)
    → reply (sweep_rows js now ts) db ≡ ok tt
    → (after (sweep_rows js now ts) db).agent_tasks
      ≡ update (marked now ts) (timed_out now) db.agent_tasks
unfolding sweep_rows mark_task_timed_out
sweep_rows_bulk js now [] db h = sym (update_none _ _ _ (All-of _ (λ r. ground arith) _))
sweep_rows_bulk js now (t ∷ ts) db h =
    let p : Task → Bool = λ u. task_is t.id u && is_open u.status in
    let opened : Db = update_tasks p (timed_out now) db in
    let (_, _, e) = next_ok (fail_subject js now t opened) (λ _. sweep_rows js now ts) h in
    ap (λ r. r.1.agent_tasks) e
    ∙ sweep_rows_bulk js now ts (after (fail_subject js now t) opened) (ap (λ r. r.0) (sym e) ∙ h)
    ∙ ap (update (marked now ts) (timed_out now)) (agent_tasks-fail_subject js now t opened)
    ∙ update-update p (marked now ts) (timed_out now) (λ r. refl) db.agent_tasks
    ∙ ap (λ q. update q (timed_out now) db.agent_tasks) (fun_ext λ r. ground arith)

-- The rows that the sweep has selected, when the ids are unique, are the overdue ones.
listed-select :
    (now : ℕ) (id : String) (ts : List Task)
    → All (λ u. task_is id u ≡ false) ts
    → listed (select (overdue now) ts) id ≡ false
unfolding select
listed-select now id [] h = refl
listed-select now id (t ∷ ts) h =
    ground (arith, listed-select now id ts h.1, eq_iff id t.id, eq_iff t.id id)

marked-overdue_head :
    (now : ℕ) (t : Task) (ts : List Task)
    → All (λ u. task_is t.id u ≡ false) ts
    → marked now (select (overdue now) (t ∷ ts)) t ≡ overdue now t
unfolding select
marked-overdue_head now t ts h = ground (arith, listed-select now t.id ts h, eq_refl t.id)

marked-select_cons :
    (now : ℕ) (t u : Task) (ts : List Task)
    → task_is t.id u ≡ false
    → marked now (select (overdue now) (t ∷ ts)) u ≡ marked now (select (overdue now) ts) u
unfolding select
marked-select_cons now t u ts h = ground arith

marked-overdue :
    (now : ℕ) (ts : List Task)
    → UniqueIds ts
    → update (marked now (select (overdue now) ts)) (timed_out now) ts
      ≡ update (overdue now) (timed_out now) ts
unfolding update
marked-overdue now [] u = refl
marked-overdue now (t ∷ ts) u =
    let later : All
        (λ r. marked now (select (overdue now) (t ∷ ts)) r ≡ marked now (select (overdue now) ts) r)
        ts =
      All-mono _ _ (λ r h. marked-select_cons now t r ts h) ts u.0 in
    ap₂ ◌∷◌ (ap (λ b. if b then timed_out now t else t) (marked-overdue_head now t ts u.0))
      (update_ext _ _ (timed_out now) ts later ∙ marked-overdue now ts u.1)

-- If the ids of the tasks are unique and the sweep passes, the row by row loop over the tasks that it
-- selected leaves the task table as one bulk update of the overdue tasks would: each overdue task is
-- timed out, and every other task is as it was.
pub sweep_bulk :
    (js : Serde) (now : ℕ) (db : Db)
    → UniqueIds db.agent_tasks
    → reply (mark_timed_out_tasks js now) db ≡ ok tt
    → (after (mark_timed_out_tasks js now) db).agent_tasks
      ≡ update (overdue now) (timed_out now) db.agent_tasks
unfolding mark_timed_out_tasks
sweep_bulk js now db u h =
    sweep_rows_bulk js now (select (overdue now) db.agent_tasks) db h
    ∙ marked-overdue now db.agent_tasks u

-- The sweep does not touch the policies.
policies-fail_subject :
    (js : Serde) (now : ℕ) (t : Task) (db : Db)
    → (after (fail_subject js now t) db).policies ≡ db.policies
unfolding fail_subject update_trash_failure update_instance_check
policies-fail_subject js now t db = ground arith

policies-sweep_rows :
    (js : Serde) (now : ℕ) (ts : List Task) (db : Db)
    → reply (sweep_rows js now ts) db ≡ ok tt
    → (after (sweep_rows js now ts) db).policies ≡ db.policies
unfolding sweep_rows mark_task_timed_out
policies-sweep_rows js now [] db h = refl
policies-sweep_rows js now (t ∷ ts) db h =
    let opened : Db = update_tasks (λ u. task_is t.id u && is_open u.status) (timed_out now) db in
    let (_, _, e) = next_ok (fail_subject js now t opened) (λ _. sweep_rows js now ts) h in
    ap (λ r. r.1.policies) e
    ∙ policies-sweep_rows js now ts (after (fail_subject js now t) opened)
        (ap (λ r. r.0) (sym e) ∙ h)
    ∙ policies-fail_subject js now t opened

pub policies-sweep :
    (js : Serde) (now : ℕ) (db : Db)
    → reply (mark_timed_out_tasks js now) db ≡ ok tt
    → (after (mark_timed_out_tasks js now) db).policies ≡ db.policies
unfolding mark_timed_out_tasks
policies-sweep js now db h = policies-sweep_rows js now (select (overdue now) db.agent_tasks) db h

-- An update that keeps the ids keeps them unique.
pub UniqueIds-update :
    (p : Task → Bool) (f : Task → Task)
    → ((t : Task) → (f t).id ≡ t.id)
    → (ts : List Task) → UniqueIds ts
    → UniqueIds (update p f ts)
unfolding update
UniqueIds-update p f k [] u = tt
UniqueIds-update p f k (t ∷ ts) u = (fresh ts u.0, UniqueIds-update p f k ts u.1)
  where
    same : (x : Task) → (if p x then f x else x).id ≡ x.id
    same x = ground (arith, k x)

    fresh :
        (xs : List Task)
        → All (λ x. task_is t.id x ≡ false) xs
        → All (λ x. task_is (if p t then f t else t).id x ≡ false) (update p f xs)
    fresh [] h = tt
    fresh (x ∷ xs) h = (rw (same t, same x) h.0, fresh xs h.1)

pub instance_kind_other :
    (kind : String)
    → is_instance_kind kind ≡ true
    → ((kind == "verify_model_file") ≡ false) × ((kind == "cleanup_model_file") ≡ false)
instance_kind_other kind h =
    (text_other is_instance_kind kind _ refl h, text_other is_instance_kind kind _ refl h)

-- what the sweep leaves of a database when its first row fails
abbrev Stopped : Serde → ℕ → Task → Db → List Task → Type 0
Stopped js now t db rows =
    (reply (sweep_rows js now rows) db ≡ err (not_found "model instance not found"))
    × ((after (sweep_rows js now rows) db).agent_tasks
        ≡ update (λ u. task_is t.id u && is_open u.status) (timed_out now) db.agent_tasks)

first-Stopped :
    (js : Serde) (now : ℕ) (db : Db) (t : Task) (ts : List Task) (id : String)
    → is_instance_kind t.kind ≡ true
    → payload_str js t.payload_json "instance_id" ≡ some id
    → select_one (instance_is id) db.model_instances ≡ none
    → Stopped js now t db (t ∷ ts)
unfolding sweep_rows mark_task_timed_out fail_subject update_instance_check
first-Stopped js now db t ts id kind subject gone = ground (
  arith,
  instance_kind_other t.kind kind,
  select_one-update-none (instance_is id) (instance_is id)
      (checked now "failed" (some "Local instance task timed out")) (λ r. refl) db.model_instances
      gone,
)

-- Where the first of the overdue tasks that the sweep selects is one of an instance that is gone, the
-- sweep stops at it: the call fails, and of the overdue tasks only this first one is marked.
pub sweep_missing_instance :
    (js : Serde) (now : ℕ) (db : Db) (t : Task) (ts : List Task) (id : String)
    → select (overdue now) db.agent_tasks ≡ t ∷ ts
    → is_instance_kind t.kind ≡ true
    → payload_str js t.payload_json "instance_id" ≡ some id
    → select_one (instance_is id) db.model_instances ≡ none
    → (reply (mark_timed_out_tasks js now) db ≡ err (not_found "model instance not found"))
      × ((after (mark_timed_out_tasks js now) db).agent_tasks
          ≡ update (λ u. task_is t.id u && is_open u.status) (timed_out now) db.agent_tasks)
unfolding mark_timed_out_tasks
sweep_missing_instance js now db t ts id rows kind subject gone =
    subst (Stopped js now t db) (sym rows) (first-Stopped js now db t ts id kind subject gone)
