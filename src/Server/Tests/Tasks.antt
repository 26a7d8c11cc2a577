-- ===== src/Server/Tests/Tasks.antt =====
-- Runs of the task queue on the sample fleet.
use lightai_platform.Prelude.{
  ℕ, ◌≡◌, ◌≢◌, ◌<◌, ◌+◌, refl, none, some, [], ◌∷◌, true, false, All, inl, arith, ◌&&◌, Bool,
  String, any,
}
use lightai_platform.Prelude.Text.{one_of}
use lightai_platform.Prelude.Rows.{update, select_one, select, select_first}
use lightai_platform.Prelude.Rows.Laws.{Least}
use lightai_platform.Server.Exec.{ok, err, reply, after, not_found}
use lightai_platform.Server.Tables.{Db, Task, Instance, task_is, instance_is}
use lightai_platform.Server.InstanceView.{update_instance_check}
use lightai_platform.Server.Config.{effective_agent_config}
use lightai_platform.Server.Policy.{AgentConfig, apply_policy, default_agent_config}
use lightai_platform.Server.AgentTasks.Sweep.{
  overdue, timed_out, mark_timed_out_tasks, is_open, queue_timeout_secs,
}
use lightai_platform.Server.AgentTasks.Sweep.Laws.{sweep_bulk, sweep_missing_instance, UniqueIds}
use lightai_platform.Server.AgentTasks.Poll.{Round, leased, poll_agent_task, queued_for}
use lightai_platform.Server.AgentTasks.Poll.Laws.{poll_oldest, poll_ends, response_to, after_lease}
use lightai_platform.Server.AgentTasks.Record.{
  AgentTaskResultRequest, record_agent_task_result, task_of,
}
use lightai_platform.Server.AgentTasks.Record.Effect.{Closed, record_instance_lem}
use lightai_platform.Server.AgentTasks.Record.Shown.{Reported}
use lightai_platform.Server.AgentTasks.Lifecycle.{
  AllTasks, sweep_closes, poll-AllTasks, sweep-AllTasks, record-AllTasks, Answered,
}
use lightai_platform.Server.Tests.{
  text_json, fleet, instance, fleet_with_lost_start, late_start, waiting_start, lost_start,
}

sweep_passes : reply (mark_timed_out_tasks text_json 420) fleet ≡ ok tt
unfolding mark_timed_out_tasks select select_one update update_instance_check
sweep_passes = refl

fleet-UniqueIds : UniqueIds fleet.agent_tasks
fleet-UniqueIds = ((refl, tt), (tt, tt))

sweep_bulk_example :
    (after (mark_timed_out_tasks text_json 420) fleet).agent_tasks
    ≡ update (overdue 420) (timed_out 420) fleet.agent_tasks
sweep_bulk_example = sweep_bulk text_json 420 fleet fleet-UniqueIds sweep_passes

fleet-AllTasks : AllTasks fleet
fleet-AllTasks = (ground arith, (ground arith, tt))

late_passes : reply (mark_timed_out_tasks text_json 900) fleet ≡ ok tt
unfolding mark_timed_out_tasks select select_one update update_instance_check
late_passes = refl

fleet_is_late :
    All
      (λ t.
        (t.created_at + queue_timeout_secs < 900) × ((l : ℕ) → t.lease_until ≡ some l → l < 900))
      fleet.agent_tasks
fleet_is_late = ((ground arith, λ l e. ground arith), ((ground arith, λ l e. ground arith), tt))

sweep_closes_example :
    All
      (λ t. is_open t.status ≡ false)
      (after (mark_timed_out_tasks text_json 900) fleet).agent_tasks
sweep_closes_example =
    sweep_closes text_json 900 fleet fleet-AllTasks fleet-UniqueIds late_passes fleet_is_late

lost_rows : select (overdue 420) fleet_with_lost_start.agent_tasks ≡ lost_start ∷ late_start ∷ []
unfolding select
lost_rows = refl

lost_instance : select_one (instance_is "i9") fleet_with_lost_start.model_instances ≡ none
unfolding select_one
lost_instance = refl

sweep_missing_instance_example :
    (reply (mark_timed_out_tasks text_json 420) fleet_with_lost_start
      ≡ err (not_found "model instance not found"))
    × ((after (mark_timed_out_tasks text_json 420) fleet_with_lost_start).agent_tasks
        ≡ update
            (λ u. task_is "t3" u && is_open u.status)
            (timed_out 420)
            fleet_with_lost_start.agent_tasks)
sweep_missing_instance_example =
    sweep_missing_instance text_json 420 fleet_with_lost_start lost_start (late_start ∷ []) "i9"
      lost_rows refl refl lost_instance

-- a round that finds no task waits, and the next one is past the deadline
abbrev round : ℕ → Bool → Round
round now expired = record {
  now = now;
  expired = expired;
  meanwhile = λ d. d;
  woken = false;
  now_after = now;
}

poll_ends_example :
    poll_agent_task text_json "n2" none (round 420 false ∷ round 421 true ∷ []) fleet ≢ none
unfolding any
poll_ends_example = poll_ends text_json "n2" none (round 420 false ∷ round 421 true ∷ []) fleet refl

poll-AllTasks_example : Answered (poll_agent_task text_json "n1" none (round 420 false ∷ []) fleet)
poll-AllTasks_example =
    poll-AllTasks text_json "n1" none (round 420 false ∷ []) fleet ((λ d h. h), tt) fleet-AllTasks

sweep-AllTasks_example : AllTasks (after (mark_timed_out_tasks text_json 420) fleet_with_lost_start)
sweep-AllTasks_example =
    sweep-AllTasks text_json 420 fleet_with_lost_start
      (ground arith, (ground arith, (ground arith, tt)))

waiting_is_first :
    select_first
      (queued_for "n1")
      (λ u. u.created_at)
      (update (overdue 420) (timed_out 420) fleet.agent_tasks)
    ≡ some waiting_start
unfolding select_first update
waiting_is_first = refl

abbrev config : AgentConfig
config = record (default_agent_config 420) { config_version = 1 }

default_is_effective : reply (effective_agent_config text_json 420 "n1") fleet ≡ ok config
unfolding effective_agent_config select_one apply_policy default_agent_config
default_is_effective = refl

abbrev swept : Db
swept = after (mark_timed_out_tasks text_json 420) fleet

abbrev served : Db
served = after_lease text_json 420 waiting_start swept

poll_oldest_example :
    (poll_agent_task text_json "n1" none (round 420 false ∷ []) fleet
      ≡ some (ok (response_to text_json 420 waiting_start "i2" config), served))
    × (select_one (task_is "t2") served.agent_tasks ≡ some (leased 420 waiting_start))
    × (waiting_start.status ≡ "queued")
    × Least
        (queued_for "n1")
        (λ u. u.created_at)
        waiting_start
        (update (overdue 420) (timed_out 420) fleet.agent_tasks)
poll_oldest_example =
    poll_oldest text_json none (round 420 false) [] fleet waiting_start "i2" config fleet-UniqueIds
      sweep_passes waiting_is_first refl default_is_effective

-- the agent of n1 has started i1
abbrev started : AgentTaskResultRequest String
started = record { node_id = "n1"; status = "succeeded"; result = "running" }

late_is_stored : select_one (task_of text_json "t1" "n1") fleet.agent_tasks ≡ some late_start
unfolding select_one
late_is_stored = refl

first_is_stored :
    select_one (instance_is "i1") fleet.model_instances ≡ some (instance "i1" "starting")
unfolding select_one
first_is_stored = refl

record_instance_example :
    let left = after (record_agent_task_result text_json 420 "t1" started) fleet in
    (reply (record_agent_task_result text_json 420 "t1" started) fleet ≡ ok tt)
    × ((u : Task) × (select_one (task_of text_json "t1" "n1") left.agent_tasks ≡ some u)
        × Closed text_json 420 started late_start u)
    × ((j : Instance) × (select_one (instance_is "i1") left.model_instances ≡ some j)
        × Reported text_json started 420 "start_model_instance" (instance "i1" "starting") j)
    × (select_one (instance_is "i2") left.model_instances
        ≡ select_one (instance_is "i2") fleet.model_instances)
unfolding one_of
record_instance_example =
    record_instance_lem text_json 420 "t1" started fleet late_start "i1" "i2" "i1"
      (instance "i1" "starting") late_is_stored (inl refl) refl refl refl first_is_stored refl

accepted : reply (record_agent_task_result text_json 420 "t1" started) fleet ≡ ok tt
unfolding record_agent_task_result select_one one_of update
accepted = refl

record-AllTasks_example :
    AllTasks (after (record_agent_task_result text_json 420 "t1" started) fleet)
record-AllTasks_example = record-AllTasks text_json 420 "t1" started fleet fleet-AllTasks

-- a result of another node
abbrev stray : AgentTaskResultRequest String
stray = record started { node_id = "n2" }

stray_is_refused :
    reply (record_agent_task_result text_json 420 "t1" stray) fleet
    ≡ err (not_found "agent task not found")
unfolding record_agent_task_result select_one
stray_is_refused = refl
