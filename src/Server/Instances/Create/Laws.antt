-- ===== src/Server/Instances/Create/Laws.antt =====
-- What a create request may store.
use lightai_platform.Prelude.{
  ℕ, String, ◌≡◌, ap, true, some, none, arith, Option, Option-cases, Bool-cases, ◌==◌, is_some_and,
  inl, inr, ◌⊎◌,
}
use lightai_platform.Prelude.Rows.{select_one}
use lightai_platform.Server.Serde.{Serde}
use lightai_platform.Server.Tables.{Db, Runtime, runtime_is, ModelFile}
use lightai_platform.Server.Exec.{ok, reply, after}
use lightai_platform.Server.Exec.Effects.{ReadOnly, read_cases}
use lightai_platform.Server.InstanceView.{InstanceView}
use lightai_platform.Server.Instances.Params.{
  live_file, runtime_environment, runtime_environment_usable, verified_model_file_for_instance,
  parse_instance_params,
}
use lightai_platform.Server.Instances.Params.Laws.{instance_reads, parse-ReadOnly}
use lightai_platform.Server.InstanceView.Laws.{model_instance-ReadOnly}
use lightai_platform.Server.Support.{validate_json_field}
use lightai_platform.Server.Support.Laws.{validate_json_field-ReadOnly}
use lightai_platform.Server.Instances.Create.{
  ModelInstanceCreateRequest, Subject, create_local_model_instance, ollama_subject, local_subject,
  file_subject, insert_instance, local_row,
}

-- What the model and the file of a new local instance are: a verified file of the same node that is
-- not deleted, and its model, unless the backend is Ollama, which has neither.
pub IsSubject : Db → String → Runtime → Subject → Type 0
IsSubject db node_id env subject =
    ((env.backend == "ollama") ≡ true)
    ⊎ ((file_id : String) × (file : ModelFile) × (select_one (live_file file_id) db.model_files
          ≡ some file)
        × ((file.status == "verified") ≡ true)
        × ((file.node_id == node_id) ≡ true)
        × (subject ≡ record { model_id = some file.model_id; model_file_id = some file_id }))

subject-ReadOnly :
    (js : Serde) (env : Runtime) (node_id : String) (params : js.Value) (wanted : Option String)
    → ReadOnly (local_subject js env node_id params wanted)
unfolding ollama_subject file_subject local_subject
subject-ReadOnly js env node_id params wanted = search instance_reads depth 12

file_sound :
    (js : Serde) (node_id : String) (wanted : Option String) (env : Runtime) (subject : Subject)
    (db : Db)
    → reply (file_subject js node_id wanted) db ≡ ok subject
    → IsSubject db node_id env subject
unfolding file_subject IsSubject verified_model_file_for_instance
file_sound js node_id none env subject db h = cc
file_sound js node_id (some file_id) env subject db h =
    elim (Option-cases (select_one (live_file file_id) db.model_files)) [
      | inl e ↦ ground arith
      | inr (file, e) ↦ inr (file_id, file, e, ground arith, ground arith, ground arith)
    ]

subject_sound :
    (js : Serde) (env : Runtime) (node_id : String) (params : js.Value) (wanted : Option String)
    (subject : Subject) (db : Db)
    → reply (local_subject js env node_id params wanted) db ≡ ok subject
    → IsSubject db node_id env subject
unfolding local_subject IsSubject
subject_sound js env node_id params wanted subject db h =
    elim (Bool-cases (env.backend == "ollama")) [
      | inl e ↦ inl e
      | inr e ↦ file_sound js node_id wanted env subject db (ground arith)
    ]

-- Where a new local instance stands: its runtime environment is one of its node, and has passed the
-- check of the agent.
pub record IsPlaced (db : Db) (node_id runtime_id : String) (env : Runtime) : Type 0 where
  pub runtime : select_one (runtime_is runtime_id) db.runtime_environments ≡ some env
  pub same_node : is_some_and env.node_id (λ n. n == node_id) ≡ true
  pub usable : runtime_environment_usable env.check_status ≡ true

module _ (js : Serde) (now : ℕ) (id : String) (request : ModelInstanceCreateRequest) (db : Db) where
  abbrev pub Created : Type 0
  Created =
      (node_id runtime_id : String) × (env : Runtime) × (subject : Subject) × (request.node_id
        ≡ some node_id)
      × (request.runtime_environment_id ≡ some runtime_id)
      × IsPlaced db node_id runtime_id env
      × IsSubject db node_id env subject
      × (after (create_local_model_instance js now id request) db
          ≡ insert_instance (local_row id now request node_id runtime_id env subject) db)

  create_last :
      (view : InstanceView) (params : js.Value) (node_id runtime_id : String) (env : Runtime)
      → validate_json_field js "params_json" request.params_json db ≡ (ok tt, db)
      → parse_instance_params js request.params_json db ≡ (ok params, db)
      → request.node_id ≡ some node_id
      → request.runtime_environment_id ≡ some runtime_id
      → select_one (runtime_is runtime_id) db.runtime_environments ≡ some env
      → reply (create_local_model_instance js now id request) db ≡ ok view
      → Created
  unfolding create_local_model_instance runtime_environment
  create_last view params node_id runtime_id env valid parsed node runtime row h =
      elim (read_cases _ db (subject-ReadOnly js env node_id params request.model_file_id)) [
        | inr (e, fields) ↦ ground arith
        | inl (subject, chosen) ↦
            let read =
              (model_instance-ReadOnly now id).at
                (insert_instance (local_row id now request node_id runtime_id env subject) db) in
            (
              node_id,
              runtime_id,
              env,
              subject,
              node,
              runtime,
              record { runtime = row; same_node = ground arith; usable = ground arith },
              subject_sound js env node_id params request.model_file_id subject db
                  (ap (λ r. r.0) chosen),
              ground arith,
            )
      ]

  create_ready :
      (view : InstanceView) (params : js.Value)
      → validate_json_field js "params_json" request.params_json db ≡ (ok tt, db)
      → parse_instance_params js request.params_json db ≡ (ok params, db)
      → reply (create_local_model_instance js now id request) db ≡ ok view
      → Created
  unfolding create_local_model_instance runtime_environment
  create_ready view params valid parsed h = elim (Option-cases request.node_id) [
    | inl e ↦ ground arith
    | inr (node_id, node) ↦ elim (Option-cases request.runtime_environment_id) [
      | inl e ↦ ground arith
      | inr (runtime_id, runtime) ↦
          elim (Option-cases (select_one (runtime_is runtime_id) db.runtime_environments)) [
            | inl e ↦ ground arith
            | inr (env, row) ↦
                create_last view params node_id runtime_id env valid parsed node runtime row h
          ]
    ]
  ]

  -- A create request of a local instance that succeeds names a node and a runtime environment of
  -- that node that has passed its check; unless the backend is Ollama, it names a verified file of
  -- the same node that is not deleted. The one change is then the new row: it is stopped, belongs to
  -- that node, environment and file, and has the model of the file.
  pub create_local_sound :
      (view : InstanceView)
      → reply (create_local_model_instance js now id request) db ≡ ok view
      → Created
  unfolding create_local_model_instance
  create_local_sound view h =
      elim (read_cases _ db (validate_json_field-ReadOnly js "params_json" request.params_json)) [
        | inr (e, valid) ↦ ground arith
        | inl (tt, valid) ↦ elim (read_cases _ db (parse-ReadOnly js request.params_json)) [
          | inr (e, parsed) ↦ ground arith
          | inl (params, parsed) ↦ create_ready view params valid parsed h
        ]
      ]
