-- ===== src/Server/Reconcile.antt =====
-- `reconcile_managed_instances` of server/src/repository.rs: what a heartbeat's report of the
-- processes of a node does to its instances. It runs in the transaction of the heartbeat, and none
-- of its statements fails by itself. The appends to the platform log are left out.
pub mod Laws
use lightai_platform.Prelude.{
  ℕ, String, ◌<>◌, Bool, true, false, not, ◌&&◌, ◌||◌, Option, none, some, List, [], ◌∷◌, ◌==◌, map,
  any, and_then, is_some_and, map_option, or_else, if◌then◌else◌,
}
use lightai_platform.Prelude.Int.{ℤ}
use lightai_platform.Prelude.Rows.{select, select_one, update}
use lightai_platform.Server.Tables.{Db, Instance, instance_is, Runtime, runtime_is}

pub record ManagedInstanceReport : Type 0 where
  pub instance_id : String
  pub status : String
  pub message : String
  pub process_id : Option ℤ
  pub process_ref : Option String
  pub base_url : Option String
  pub endpoint_url : Option String
  pub command : Option String
  pub log_path : Option String

-- a status that the server does not know counts as failed
abbrev pub report_status : ManagedInstanceReport → String
report_status report =
    if report.status == "running"
    then "running"
    else if report.status == "stopped"
    then "stopped"
    else "failed"

abbrev when : {A : Type 0} → Bool → Option A → Option A
when test value = if test then value else none

-- WHERE node_id = ? AND deploy_type = 'local'
abbrev pub local_of : String → Instance → Bool
local_of node_id i = is_some_and i.node_id (λ n. n == node_id) && i.deploy_type == "local"

abbrev pub reconciled : ℕ → ManagedInstanceReport → Instance → Instance
reconciled now report i =
    let running = report_status report == "running" in
    record i {
      status = report_status report;
      process_id = when running report.process_id;
      process_ref = when running report.process_ref;
      base_url = or_else report.base_url i.base_url;
      endpoint_url = or_else report.endpoint_url i.endpoint_url;
      command = or_else report.command i.command;
      log_tail = or_else (map_option (λ path. "log file: " <> path) report.log_path) i.log_tail;
      last_checked_at = some now;
      last_error = when (not running) (some report.message);
      updated_at = now;
    }

-- the first loop
unfoldable pub apply_reports :
    ℕ → String → List ManagedInstanceReport → List Instance → List Instance
apply_reports now node_id [] rows = rows
apply_reports now node_id (report ∷ reports) rows = apply_reports now node_id reports (
    update (λ i. instance_is report.instance_id i && local_of node_id i) (reconciled now report)
      rows)

-- a backend is not that of Ollama, whose models run in a process of its own
abbrev is_process : Option Runtime → Bool
is_process none = true
is_process (some env) = not (env.backend == "ollama")

-- the join of the second query: a local instance of the node that runs in a process of the agent
abbrev pub is_managed : List Runtime → String → Instance → Bool
is_managed runtimes node_id i =
    local_of node_id i
    && is_process (and_then i.runtime_environment_id (λ id. select_one (runtime_is id) runtimes))

-- status IN ('starting', 'running', 'stopping')
abbrev pub is_active : String → Bool
is_active status = status == "starting" || status == "running" || status == "stopping"

abbrev pub lost : ℕ → Instance → Instance
lost now i = record i {
  status = "failed";
  process_id = none;
  process_ref = none;
  last_checked_at = some now;
  last_error =
      some
        "Agent did not report managed process status; process may have exited or been terminated externally";
  updated_at = now;
}

-- the ids that the reports name
abbrev pub is_reported : List ManagedInstanceReport → String → Bool
is_reported reports id = any (λ report. report.instance_id == id) reports

-- the second loop, over the ids that its query found
unfoldable pub fail_missing :
    ℕ → List ManagedInstanceReport → List String → List Instance → List Instance
fail_missing now reports [] rows = rows
fail_missing now reports (id ∷ ids) rows =
    fail_missing now reports ids
      (if is_reported reports id then rows else update (instance_is id) (lost now) rows)

unfoldable pub reconcile_managed_instances : String → List ManagedInstanceReport → ℕ → Db → Db
reconcile_managed_instances node_id reports now db =
    let rows = apply_reports now node_id reports db.model_instances in
    let active =
      select (λ i. is_managed db.runtime_environments node_id i && is_active i.status) rows in
    record db { model_instances = fail_missing now reports (map (λ i. i.id) active) rows }
