-- ===== src/Server/Instances/Run/Laws.antt =====
-- What start, stop, test and check do before they wait, and that the wait ends.
use lightai_platform.Prelude.{
  ℕ, String, ◌≡◌, ◌≢◌, ◌==◌, and_then, inl, inr, true, some, none, arith, Option-cases, List, any,
}
use lightai_platform.Prelude.Rows.{select_one}
use lightai_platform.Server.TaskRequest.{insert_task}
use lightai_platform.Server.Serde.{Serde}
use lightai_platform.Server.Tables.{Db, Instance, instance_is, Runtime, runtime_is}
use lightai_platform.Server.Exec.{ok, err, reply, after, DomainError}
use lightai_platform.Server.Exec.Effects.{read_cases, ReadOnly, Atomic, reads, atomic}
use lightai_platform.Server.Support.{online}
use lightai_platform.Server.Waiting.{Turn, wait_ends}
use lightai_platform.Server.InstanceView.{model_instance, InstanceView, update_instance}
use lightai_platform.Server.AgentTasks.Lifecycle.{queued_task}
use lightai_platform.Server.InstanceView.{model_instance_from_row, update_instance}
use lightai_platform.Server.InstanceView.Laws.{model_instance_found, row_of_view}
use lightai_platform.Server.Instances.Params.Laws.{parse-ReadOnly}
use lightai_platform.Server.Instances.Params.{
  runtime_environment, runtime_environment_usable, parse_instance_params,
}
use lightai_platform.Server.Instances.Params.Laws.{instance_reads}
use lightai_platform.Server.Instances.Run.{
  start_model_instance, instance_answer, instance_give_up, queue_instance_task, task_fields,
  task_payload, pending, run_local_instance_task, wait_for_model_instance_task, insert_task,
}

pub fields-ReadOnly :
    (js : Serde) (id runtime_id : String) (env : Runtime) (i : InstanceView) (params : js.Value)
    → ReadOnly (task_fields js id runtime_id env i params)
unfolding task_fields
fields-ReadOnly js id runtime_id env i params = search (instance_reads, reads) depth 9

pub queue-Atomic :
    (js : Serde) (now : ℕ) (id kind status task_id : String)
    → Atomic (queue_instance_task js now id kind status task_id)
unfolding queue_instance_task
queue-Atomic js now id kind status task_id =
    search (instance_reads, atomic, fields-ReadOnly) depth 30

-- What a queued instance task stands on: the instance is local, its node is online, and its runtime
-- environment has passed the check of the agent.
pub record Ready (now : ℕ) (db : Db) (i : Instance) (node_id : String) (env : Runtime)
    : Type 0 where
  pub is_local : (i.deploy_type == "local") ≡ true
  pub on_node : i.node_id ≡ some node_id
  pub node_is_online : online now node_id db ≡ true
  pub runtime :
      and_then i.runtime_environment_id (λ r. select_one (runtime_is r) db.runtime_environments)
      ≡ some env
  pub usable : runtime_environment_usable env.check_status ≡ true

module _ (js : Serde) (now : ℕ) (id kind status task_id : String) (db : Db) where
  abbrev pub Queued : Type 0
  Queued =
      (i : Instance) × (node_id : String) × (env : Runtime) × (payload_json : String) × (select_one
          (instance_is id) db.model_instances
        ≡ some i)
      × Ready now db i node_id env
      × (after (queue_instance_task js now id kind status task_id) db
          ≡ update_instance id (pending status now)
              (insert_task (queued_task task_id node_id kind payload_json now) db))

  queue_last :
      (i : Instance) (node_id runtime_id : String) (env : Runtime) (params : js.Value)
      → select_one (instance_is id) db.model_instances ≡ some i
      → i.node_id ≡ some node_id
      → i.runtime_environment_id ≡ some runtime_id
      → select_one (runtime_is runtime_id) db.runtime_environments ≡ some env
      → parse_instance_params js i.params_json db ≡ (ok params, db)
      → reply (queue_instance_task js now id kind status task_id) db ≡ ok tt
      → Queued
  unfolding queue_instance_task runtime_environment
  queue_last i node_id runtime_id env params stored node runtime row parsed h =
      let found = model_instance_found now id db i stored in
      let view = model_instance_from_row now db i in
      let same = row_of_view now db i in
      elim (read_cases _ db (fields-ReadOnly js id runtime_id env view params)) [
        | inr (e, fields) ↦ ground arith
        | inl (fs, fields) ↦ (
          i,
          node_id,
          env,
          js.to_string (task_payload js env view fs),
          stored,
          record {
            is_local = ground arith;
            on_node = node;
            node_is_online = ground arith;
            runtime = ground arith;
            usable = ground arith;
          },
          ground arith,
        )
      ]

  queue_local :
      (i : Instance)
      → select_one (instance_is id) db.model_instances ≡ some i
      → reply (queue_instance_task js now id kind status task_id) db ≡ ok tt
      → Queued
  unfolding queue_instance_task runtime_environment
  queue_local i stored h =
      let found = model_instance_found now id db i stored in
      let same = row_of_view now db i in
      elim (Option-cases i.node_id) [
        | inl e ↦ ground arith
        | inr (node_id, node) ↦ elim (Option-cases i.runtime_environment_id) [
          | inl e ↦ ground arith
          | inr (runtime_id, runtime) ↦
              elim (Option-cases (select_one (runtime_is runtime_id) db.runtime_environments)) [
                | inl e ↦ ground arith
                | inr (env, row) ↦ elim (read_cases _ db (parse-ReadOnly js i.params_json)) [
                  | inr (e, parsed) ↦ ground arith
                  | inl (params, parsed) ↦
                      queue_last i node_id runtime_id env params stored node runtime row parsed h
                ]
              ]
        ]
      ]

  -- A start, a stop or a test is queued only if the instance is local, its node is online and its
  -- runtime environment has passed the check; then the one change is a queued task for that node
  -- and the pending status of the instance.
  pub queue_ok : reply (queue_instance_task js now id kind status task_id) db ≡ ok tt → Queued
  unfolding queue_instance_task model_instance
  queue_ok h = elim (Option-cases (select_one (instance_is id) db.model_instances)) [
    | inl e ↦ ground arith
    | inr (i, stored) ↦ queue_local i stored h
  ]

  -- A start, a stop or a test that its checks refuse answers at once with the error, and changes
  -- nothing.
  pub run_refused :
      (turns : List Turn) (e : DomainError)
      → reply (queue_instance_task js now id kind status task_id) db ≡ err e
      → run_local_instance_task js now id kind status task_id turns db ≡ some (err e, db)
  unfolding run_local_instance_task
  run_refused turns e h =
      let same = (queue-Atomic js now id kind status task_id).at db e h in ground arith

-- A start of an instance ends: if the deadline passes in some round, there is an answer or an error,
-- whatever the agent and the other requests do.
pub start_ends :
    (js : Serde) (now : ℕ) (id task_id : String) (turns : List Turn) (db : Db)
    → any (λ r. r.expired) turns ≡ true
    → start_model_instance js now id task_id turns db ≢ none
unfolding start_model_instance wait_for_model_instance_task
start_ends js now id task_id turns db late =
    let queue = queue_instance_task js now id "start_model_instance" "starting" task_id in
    let ends =
      wait_ends (instance_answer js id) (instance_give_up js id task_id) task_id turns
        (after queue db) late in
    ground arith
