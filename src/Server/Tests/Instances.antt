-- ===== src/Server/Tests/Instances.antt =====
-- Runs of the handlers of instances on the sample fleet.
use lightai_platform.Prelude.{
  ℕ, ◌≡◌, ◌≢◌, ◌⊎◌, refl, is_some, none, some, [], ◌∷◌, true, false, any, Bool,
}
use lightai_platform.Prelude.Rows.{select_one}
use lightai_platform.Server.Exec.{ok, err, reply, after, conflict}
use lightai_platform.Server.Tables.{Db, Instance, instance_is}
use lightai_platform.Server.InstanceView.{model_instance, model_instance_from_row}
use lightai_platform.Server.Support.{online, validate_json_field}
use lightai_platform.Server.Waiting.{Turn}
use lightai_platform.Server.Instances.Params.{
  Http, unreachable, runtime_environment, parse_instance_params, verified_model_file_for_instance,
}
use lightai_platform.Server.Instances.Create.{
  local_subject, file_subject, ModelInstanceCreateRequest, create_local_model_instance,
}
use lightai_platform.Server.Instances.Create.Laws.{Created, create_local_sound}
use lightai_platform.Server.Instances.Edit.{
  ModelInstanceUpdateRequest, update_model_instance, delete_model_instance,
}
use lightai_platform.Server.Instances.Edit.Laws.{live_is_protected, config_fields}
use lightai_platform.Server.Instances.Edit.Kept.{ConfigKept}
use lightai_platform.Server.Instances.Run.{task_fields, queue_instance_task, start_model_instance}
use lightai_platform.Server.Instances.Run.Laws.{Queued, queue_ok, start_ends}
use lightai_platform.Server.Tests.{text_json, fleet, instance}

-- no URL answers
abbrev offline_http : Http
offline_http = record { url_scheme = λ s. some "http"; fetch = λ s. unreachable "refused" }

abbrev rename : ModelInstanceUpdateRequest
rename = record {
  name = some "chat 2";
  backend = none;
  base_url = none;
  endpoint_url = none;
  health_url = none;
  runtime_version = none;
  model_name = none;
  description = none;
  status = none;
  params_json = none;
}

first_is_stored :
    select_one (instance_is "i1") fleet.model_instances ≡ some (instance "i1" "starting")
unfolding select_one
first_is_stored = refl

live_is_protected_example :
    ((any is_some (config_fields rename) ≡ false)
      ⊎ (update_model_instance text_json offline_http 420 "i1" rename fleet
          ≡ (err (conflict "Cannot modify a running instance. Stop it first."), fleet)))
    × ConfigKept "i1"
        (instance "i1" "starting")
        (after (update_model_instance text_json offline_http 420 "i1" rename) fleet)
    × (delete_model_instance 420 "i1" fleet
        ≡ (err (conflict "Cannot delete a running instance. Stop it first."), fleet))
unfolding lightai_platform.Prelude.Text.one_of
live_is_protected_example =
    live_is_protected text_json offline_http 420 "i1" rename fleet (instance "i1" "starting")
      first_is_stored refl

start_is_queued :
    reply (queue_instance_task text_json 420 "i2" "start_model_instance" "starting" "t9") fleet
    ≡ ok tt
unfolding queue_instance_task model_instance select_one model_instance_from_row online
    runtime_environment parse_instance_params task_fields verified_model_file_for_instance
start_is_queued = refl

queue_ok_example : Queued text_json 420 "i2" "start_model_instance" "starting" "t9" fleet
queue_ok_example =
    queue_ok text_json 420 "i2" "start_model_instance" "starting" "t9" fleet start_is_queued

-- at the time 500 the last heartbeat of the node is 100 seconds old
start_is_refused :
    reply (queue_instance_task text_json 500 "i2" "start_model_instance" "starting" "t9") fleet
    ≡ err (conflict "Node Agent offline, cannot execute local instance task")
unfolding queue_instance_task model_instance select_one model_instance_from_row online
start_is_refused = refl

abbrev turn : ℕ → Bool → Turn
turn now expired = record { meanwhile = λ d. d; expired = expired; now = now }

start_ends_example :
    start_model_instance text_json 420 "i2" "t9" (turn 421 false ∷ turn 460 true ∷ []) fleet ≢ none
unfolding any
start_ends_example =
    start_ends text_json 420 "i2" "t9" (turn 421 false ∷ turn 460 true ∷ []) fleet refl

abbrev new_chat : ModelInstanceCreateRequest
new_chat = record {
  model_id = none;
  model_file_id = some "f1";
  node_id = some "n1";
  runtime_environment_id = some "r1";
  name = "chat 3";
  deploy_type = some "local";
  backend = none;
  base_url = none;
  endpoint_url = none;
  health_url = none;
  runtime_version = none;
  model_name = none;
  description = none;
  status = none;
  params_json = none;
}

abbrev created : Instance
created = record (instance "i3" "stopped") { name = "chat 3"; created_at = 420; updated_at = 420 }

abbrev fleet_with_chat : Db
fleet_with_chat = record fleet {
  model_instances = instance "i1" "starting" ∷ instance "i2" "stopped" ∷ created ∷ [];
}

chat_is_created :
    reply (create_local_model_instance text_json 420 "i3" new_chat) fleet
    ≡ ok (model_instance_from_row 420 fleet_with_chat created)
unfolding create_local_model_instance validate_json_field parse_instance_params runtime_environment
    select_one local_subject file_subject verified_model_file_for_instance model_instance
chat_is_created = refl

create_local_example : Created text_json 420 "i3" new_chat fleet
create_local_example =
    create_local_sound text_json 420 "i3" new_chat fleet
      (model_instance_from_row 420 fleet_with_chat created) chat_is_created
