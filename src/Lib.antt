-- ===== src/Lib.antt =====
-- The server of the LightAI platform keeps a fleet of nodes. Each node runs an agent, which polls the
-- server for tasks, runs them and posts their results; an operator's request to start, stop, check or
-- test a model instance queues a task and waits for its result. This library models the parts of the
-- server that make this exchange correct, the catalog of models, files and runtime environments that
-- instances are made of, the rule by which an agent admits a collector script, and how the agent reads
-- what such a script prints, starts what it is asked to and keeps track of what it started.
--
-- Which file models what:
--   Prelude              the shared names; Prelude/Rows the statements on a table (SELECT, UPDATE,
--                        DELETE, INSERT), Prelude/Text the tests on texts
--   Server/Tables        the rows of migrations/ and the database as the record of its tables
--   Server/Exec          a handler as a function from a database to a result and a database; an error
--                        keeps what was written before it, but for a transaction; its children hold
--                        the rules for handlers that only read and for those that fail without a trace
--   Server/Serde         the interface of serde_json, a crate that is not part of the repository
--   Server/Policy        AgentConfig, AgentConfigPolicy and apply_policy of server/src/repository.rs,
--                        server/src/models.rs
--   Server/Config        effective_agent_config, save_agent_config_policy and the stored policies,
--                        server/src/repository.rs; the policy of the log, server/src/platform_log.rs
--   Server/Support       validators, server/src/domain/support.rs
--   Server/InstanceView  model_instance and update_instance_check, server/src/domain/instances.rs
--   Server/AgentTasks    server/src/agent_tasks.rs: Sweep (mark_timed_out_tasks), Poll
--                        (poll_agent_task), Record (record_agent_task_result), Lifecycle (what holds
--                        of every stored task)
--   Server/Waiting       the loop in which a handler waits for a task
--   Server/Instances     server/src/domain/instances.rs: Params (validators), Create, Edit (update and
--                        delete), Run (start, stop), Check (check, test; server/src/http_check.rs)
--   Server/Runtimes      server/src/domain/runtimes.rs: Request (validators), Check (the wait for the
--                        agent's check), Edit (create, update, delete, check)
--   Server/ModelFiles    server/src/domain/model_files.rs: View, Verify (the wait for the agent), Edit,
--                        Summary (model_file_summary)
--   Server/Models        server/src/domain/model_catalog.rs
--   Server/Gateway       server/src/domain/gateway.rs
--   Server/Logs          read_agent_log, refresh_instance_logs and ollama_model_list,
--                        server/src/domain/instance_logs.rs
--   Server/Sessions      the sessions of users: login, check, end, and a change of password,
--                        server/src/repository.rs
--   Server/Users         the users and groups of server/src/repository.rs, and the invariant that
--                        their operations keep (Laws)
--   Server/Routes        server/src/routes.rs: who is let through (control_plane_auth) and the handlers
--                        on sessions, users and groups (Serve); the requests that reach a state of the
--                        accounts (Laws/Reached)
--   Server/Listings      the lists of instances, models, files, runtimes and trash
--   Server/Reconcile     reconcile_managed_instances of server/src/repository.rs: what the heartbeat of
--                        a node does to its instances
--   Server/Trash         cleanup_model_file_trash, delete_model_file_trash and, in Ensure,
--                        ensure_model_file_trash, server/src/domain/model_trash.rs
--   Agent/Collectors     CollectorDir::check_enabled, agent/src/collector/mod.rs
--   Agent/Tsv            agent/src/collector/tsv.rs: Cells (rows, columns, the loop), Number, Discovery,
--                        Metrics, Merge
--   Agent/Launch         the parameters of an instance, agent/src/tasks/process.rs, its arguments and
--                        their display, agent/src/tasks/process_command.rs
--   Agent/Docker         the configuration and the arguments of a container,
--                        agent/src/tasks/docker_backend.rs
--   Agent/Processes      the store of managed processes, agent/src/managed_process.rs, in Processes/Store, and
--                        the stop of an instance, agent/src/tasks/process.rs, in Processes/Stop
--   Agent/Gateway        the supervisor of the gateway's process, agent/src/gateway_supervisor.rs, with the
--                        children Spec, Start, Log, Stop and Check
--   Agent/Logs           the tails and the redaction of logs, agent/src/tasks/process_logs.rs
--   Server/Tests         a small fleet and runs of the handlers on it
--
-- How the parts meet: an instance handler (Instances/Run) inserts a queued task and marks the instance
-- as pending in one transaction; the agent's poll (AgentTasks/Poll) sweeps the overdue tasks, leases
-- the oldest queued task of its node, and its result (AgentTasks/Record) ends the task and updates the
-- row that the task is about; the waiting handler (Waiting) reads the task until it has ended or its
-- deadline has passed.
--
-- Requests interleave where the program awaits a notification or sleeps: a poll and a wait run on
-- a schedule, which gives for each round what other requests do to the database, the clock and
-- whether the deadline has passed. A schedule may be over before the loop is: then the model
-- returns none. A schedule in which the deadline passes in some round is long enough. Elsewhere a
-- handler runs without an interruption. Ids of new rows and the clock are arguments. Times are
-- natural numbers, which the truncated difference of support.rs does not tell from the source's.
-- Numbers of type f64 are a parameter of Agent/Tsv: what Rust's library reads as one, and its
-- bytes. So are, of Server/Gateway, the parts of a URL that the crate reqwest reads, and the
-- decoder of a response, and of Server/Sessions, the hashes that server/src/auth.rs takes from the
-- crates sha2 and argon2, with the salt that it draws. Of Server/Routes, what the router and the
-- extractors of axum make of a request is the endpoint that it is served with, and the order in which
-- a HashSet gives its elements is a function. Of the agent, what its node answers (/proc, /bin/kill,
-- docker, the file system) is a record of functions that each operation takes; a number of 16 bits
-- wraps around.
--
-- Not modelled: the summaries of errors of instance_logs.rs, the HTTP routes that pass a request on
-- to a domain function, the audit events, the rest of the heartbeat and the metrics, the start of a process with its
-- readiness probe, Ollama, the agent's loop of tasks, the
-- process of the gateway and the web front end; the platform log, which no modelled result depends
-- on; the order in which SQLite returns rows without an ORDER BY, which is taken as that of
-- insertion.
pub mod Prelude
pub mod Server
pub mod Agent
