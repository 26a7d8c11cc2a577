-- ===== src/Server/Tests/Logs.antt =====
-- The log of an instance of the sample fleet.
use lightai_platform.Server.Instances.Params.{runtime_environment}
use lightai_platform.Server.Support.{online}
use lightai_platform.Prelude.Rows.{select_one, update}
use lightai_platform.Server.InstanceView.{model_instance, model_instance_from_row}
use lightai_platform.Prelude.{◌≡◌, refl, false, some, [], ◌∷◌}
use lightai_platform.Server.Exec.{ok}
use lightai_platform.Server.Tables.{Db, Task}
use lightai_platform.Server.Waiting.{Turn, wait_for_task}
use lightai_platform.Server.Logs.{refresh_instance_logs, queue_instance_log, store_log_tail}
use lightai_platform.Server.Tests.{text_json, fleet, instance}
use lightai_platform.Server.AgentTasks.Lifecycle.{queued_task}

-- the agent has posted the log
abbrev log_read : Task
log_read = record (queued_task "t9" "n1" "read_instance_log" "{}" 420) {
  status = "succeeded";
  result_json = some "line";
}

abbrev posted_turn : Turn
posted_turn = record {
  meanwhile = λ db. record db { agent_tasks = log_read ∷ [] };
  expired = false;
  now = 425;
}

abbrev fleet_with_log : Db
fleet_with_log = record fleet {
  agent_tasks = log_read ∷ [];
  model_instances =
      record (instance "i1" "starting") { log_tail = some "【line】\nline"; updated_at = 425 }
      ∷ instance "i2" "stopped"
      ∷ [];
}

log_is_refreshed :
    refresh_instance_logs text_json 420 "t9" "i1" (posted_turn ∷ []) fleet
    ≡ some (ok "【line】\nline", fleet_with_log)
unfolding refresh_instance_logs queue_instance_log model_instance select_one model_instance_from_row
    online runtime_environment wait_for_task store_log_tail update
log_is_refreshed = refl
