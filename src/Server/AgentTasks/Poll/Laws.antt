-- ===== src/Server/AgentTasks/Poll/Laws.antt =====
-- What an agent gets from a poll.
use lightai_platform.Prelude.{
  if◌then◌else◌, ℕ, ◌+◌, ◌≡◌, refl, ap, ◌∙◌, String, Bool, true, false, List, [], ◌∷◌, Option, none,
  some, arith, All, eq_iff, eq_refl, any, ◌≢◌, Bool-cases, inl, inr, ◌⊎◌,
}
use lightai_platform.Prelude.Rows.{update, select_one, select_first}
use lightai_platform.Prelude.Rows.Laws.{select_first_sound, Least, select_one-update}
use lightai_platform.Server.Serde.{Serde}
use lightai_platform.Server.Tables.{Db, Task, task_is}
use lightai_platform.Server.Exec.{ok, err, reply, after, Result}
use lightai_platform.Server.Config.{effective_agent_config}
use lightai_platform.Server.AgentTasks.Sweep.{
  update_tasks, timed_out, overdue, mark_timed_out_tasks,
}
use lightai_platform.Server.AgentTasks.Sweep.Laws.{
  UniqueIds, UniqueIds-update, sweep_bulk, policies-sweep,
}
use lightai_platform.Server.AgentTasks.Poll.{
  Round, again, queued_for, leased, lease_task, start_subject, poll_round, poll_agent_task,
  next_queued_agent_task, wait_round, AgentConfig, found, Ending, AgentTaskPollResponse, lease_secs,
  finish_round, answer,
}

-- the first queued row is the row that its id finds
first-All :
    (P : Task → Type 0) (p : Task → Bool) (key : Task → ℕ) (ts : List Task) (t : Task)
    → All P ts
    → select_first p key ts ≡ some t
    → P t
unfolding select_first
first-All P p key [] t h e = cc
first-All P p key (x ∷ ts) t h e = ground (arith, first-All P p key ts t h.1)

first_by_id :
    (p : Task → Bool) (key : Task → ℕ) (ts : List Task) (t : Task)
    → UniqueIds ts
    → select_first p key ts ≡ some t
    → select_one (task_is t.id) ts ≡ some t
unfolding select_first select_one
first_by_id p key [] t u e = cc
first_by_id p key (x ∷ ts) t u e = ground (
  arith,
  first-All (λ y. task_is x.id y ≡ false) p key ts t u.0,
  first_by_id p key ts t u.1,
  eq_refl x.id,
  eq_iff x.id t.id,
  eq_iff t.id x.id,
)

effective-policies :
    (js : Serde) (now : ℕ) (node_id : String) (db db' : Db)
    → db'.policies ≡ db.policies
    → effective_agent_config js now node_id db'
      ≡ (reply (effective_agent_config js now node_id) db, db')
unfolding effective_agent_config
effective-policies js now node_id db db' h = ground (arith, h)

expired-ends :
    (js : Serde) (node_id : String) (current : Option ℕ) (r : Round) (db : Db)
    → r.expired ≡ true
    → reply (poll_round js node_id current r) db ≡ ok again
    → ⊥
unfolding poll_round next_queued_agent_task
expired-ends js node_id current r db x h = ground arith

finish_ends :
    (js : Serde) (node_id : String) (now : ℕ) (r : Result Ending × Db)
    (more : Db → Option (Result (AgentTaskPollResponse js.Value) × Db))
    → finish_round js node_id now r more ≡ none
    → (r.0 ≡ ok again) × (more r.1 ≡ none)
finish_ends js node_id now (ok (found t), db) more h = cc
finish_ends js node_id now (ok (answer c), db) more h = cc
finish_ends js node_id now (ok again, db) more h = (refl, h)
finish_ends js node_id now (err e, db) more h = cc

-- A poll ends: if the deadline has passed in some round of the schedule, there is an answer or an
-- error, whatever the other requests do.
pub poll_ends :
    (js : Serde) (node_id : String) (current : Option ℕ) (rs : List Round) (db : Db)
    → any (λ r. r.expired) rs ≡ true
    → poll_agent_task js node_id current rs db ≢ none
unfolding poll_agent_task any
poll_ends js node_id current [] db h e = cc
poll_ends js node_id current (r ∷ rs) db h e =
    let (more, rest) =
      finish_ends js node_id r.now (poll_round js node_id current r db)
        (poll_agent_task js node_id current rs) e in
    elim (Bool-cases r.expired) [
      | inl x ↦ expired-ends js node_id current r db x more
      | inr x ↦
          poll_ends js node_id current rs (after (poll_round js node_id current r) db)
            (ground arith) rest
    ]

agent_tasks-start_subject :
    (js : Serde) (now : ℕ) (t : Task) (db : Db)
    → (start_subject js now t db).agent_tasks ≡ db.agent_tasks
unfolding start_subject
agent_tasks-start_subject js now t db = ground arith

policies-start_subject :
    (js : Serde) (now : ℕ) (t : Task) (db : Db) → (start_subject js now t db).policies ≡ db.policies
unfolding start_subject
policies-start_subject js now t db = ground arith

-- the response to a poll that leases `t`
abbrev pub response_to :
    (js : Serde) → ℕ → Task → js.Value → AgentConfig → AgentTaskPollResponse js.Value
response_to js now t payload config = record {
  task = some (record {
    id = t.id;
    node_id = t.node_id;
    kind = t.kind;
    status = "running";
    payload = payload;
    lease_until = some (now + lease_secs);
    attempt_count = t.attempt_count + 1;
    created_at = t.created_at;
    updated_at = now;
  });
  agent_config = config;
}

-- the database after the lease
abbrev pub after_lease : (js : Serde) → ℕ → Task → Db → Db
after_lease js now t db = start_subject js now t (update_tasks (task_is t.id) (leased now) db)

stored_lease :
    (js : Serde) (now : ℕ) (t : Task) (db : Db)
    → select_one (task_is t.id) db.agent_tasks ≡ some t
    → select_one (task_is t.id) (after_lease js now t db).agent_tasks ≡ some (leased now t)
stored_lease js now t db h =
    ap (select_one (task_is t.id)) (agent_tasks-start_subject js now t _)
    ∙ select_one-update (task_is t.id) (task_is t.id) (leased now) (λ r. refl) db.agent_tasks t h
    ∙ ap (λ b. some (if b then leased now t else t)) (eq_refl t.id)

lease_lem :
    (js : Serde) (now : ℕ) (t : Task) (payload : js.Value) (config : AgentConfig) (db : Db)
    → select_one (task_is t.id) db.agent_tasks ≡ some t
    → js.from_str t.payload_json ≡ some payload
    → reply (effective_agent_config js now t.node_id) db ≡ ok config
    → lease_task js now t.node_id t db
      ≡ (ok (response_to js now t payload config), after_lease js now t db)
unfolding lease_task
lease_lem js now t payload config db h p c = ground (
  arith,
  stored_lease js now t db h,
  effective-policies js now t.node_id db (after_lease js now t db)
      (policies-start_subject js now t _),
)

round_found :
    (js : Serde) (node_id : String) (current : Option ℕ) (r : Round) (db : Db) (t : Task)
    → reply (mark_timed_out_tasks js r.now) db ≡ ok tt
    → select_first
        (queued_for node_id)
        (λ u. u.created_at)
        (after (mark_timed_out_tasks js r.now) db).agent_tasks
      ≡ some t
    → poll_round js node_id current r db ≡ (ok (found t), after (mark_timed_out_tasks js r.now) db)
unfolding poll_round
round_found js node_id current r db t h e = ground arith

abbrev due : ℕ → Db → List Task
due now db = update (overdue now) (timed_out now) db.agent_tasks

-- If the ids of the tasks are unique, the sweep passes and a task is queued for the node after it, and
-- if the payload of the oldest such task is JSON and the configuration of the node can be read, the
-- first round answers the poll: the response shows that task, running, under a lease of 30 seconds
-- and with one more attempt, and the stored task is so too.
pub poll_oldest :
    (js : Serde) (current : Option ℕ) (r : Round) (rs : List Round) (db : Db) (t : Task)
    (payload : js.Value) (config : AgentConfig)
    → UniqueIds db.agent_tasks
    → reply (mark_timed_out_tasks js r.now) db ≡ ok tt
    → select_first (queued_for t.node_id) (λ u. u.created_at) (due r.now db) ≡ some t
    → js.from_str t.payload_json ≡ some payload
    → reply (effective_agent_config js r.now t.node_id) db ≡ ok config
    → let db' = after_lease js r.now t (after (mark_timed_out_tasks js r.now) db) in
      (poll_agent_task js t.node_id current (r ∷ rs) db
        ≡ some (ok (response_to js r.now t payload config), db'))
      × (select_one (task_is t.id) db'.agent_tasks ≡ some (leased r.now t))
      × (t.status ≡ "queued")
      × Least (queued_for t.node_id) (λ u. u.created_at) t (due r.now db)
unfolding poll_agent_task
poll_oldest js current r rs db t payload config u swept first parsed effective =
    let swept_db = after (mark_timed_out_tasks js r.now) db in
    let bulk = sweep_bulk js r.now db u swept in
    let (queued, least) =
      select_first_sound (queued_for t.node_id) (λ u. u.created_at) (due r.now db) t first in
    let here : select_one (task_is t.id) swept_db.agent_tasks ≡ some t =
      ap (select_one (task_is t.id)) bulk
      ∙ first_by_id (queued_for t.node_id) (λ u. u.created_at) (due r.now db) t
          (UniqueIds-update (overdue r.now) (timed_out r.now) (λ u. refl) db.agent_tasks u) first in
    let served = lease_lem js r.now t payload config swept_db here parsed (
      ap (λ x. x.0)
        (effective-policies js r.now t.node_id db swept_db (policies-sweep js r.now db swept))
      ∙ effective) in
    let round =
      round_found js t.node_id current r db t swept
        (ap (select_first (queued_for t.node_id) (λ u. u.created_at)) bulk ∙ first) in
    (
      ap (λ x. finish_round js t.node_id r.now x (poll_agent_task js t.node_id current rs)) round
          ∙ ap some served,
      stored_lease js r.now t swept_db here,
      ground (arith, queued, eq_iff t.status "queued"),
      least,
    )

-- A lease, whether or not the response can be built, marks the row and no other.
pub agent_tasks-lease :
    (js : Serde) (now : ℕ) (node_id : String) (t : Task) (db : Db)
    → (after (lease_task js now node_id t) db).agent_tasks
      ≡ update (task_is t.id) (leased now) db.agent_tasks
unfolding lease_task effective_agent_config
agent_tasks-lease js now node_id t db =
    ground (arith, agent_tasks-start_subject js now t (update_tasks (task_is t.id) (leased now) db))

pub agent_tasks-effective :
    (js : Serde) (now : ℕ) (node_id : String) (db : Db)
    → after (effective_agent_config js now node_id) db ≡ db
unfolding effective_agent_config
agent_tasks-effective js now node_id db = ground arith

-- After the sweep, a round leaves the database alone, or to the other requests.
pub round_cases :
    (js : Serde) (node_id : String) (current : Option ℕ) (r : Round) (db : Db)
    → let swept = after (mark_timed_out_tasks js r.now) db in
      let left = after (poll_round js node_id current r) db in
      (left ≡ swept) ⊎ (left ≡ r.meanwhile swept)
unfolding poll_round wait_round
round_cases js node_id current r db = ground (
  arith,
  agent_tasks-effective js r.now node_id (after (mark_timed_out_tasks js r.now) db),
  agent_tasks-effective js r.now_after node_id
      (r.meanwhile (after (mark_timed_out_tasks js r.now) db)),
)
