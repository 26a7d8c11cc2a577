-- ===== src/Agent/Tests/Processes.antt =====
-- A node with a process that its store knows, one that has taken the number of another, and a container.
use lightai_platform.Prelude.Rows.{delete, select_one}
use lightai_platform.Prelude.{◌≡◌, refl, ◌==◌, none, some, [], ◌∷◌, nat_eq, if◌then◌else◌}
use lightai_platform.Agent.Launch.{ok, err}
use lightai_platform.Agent.Processes.{ManagedProcessRecord, AgentNode, Commands, StoreFile, stored}
use lightai_platform.Agent.Processes.Store.{find, save, upsert, remove}
use lightai_platform.Agent.Processes.Stop.{
  stop_model_instance_with_store, stopped, instance_failure,
}
use lightai_platform.Agent.Processes.Store.Laws.{find-upsert}
use lightai_platform.Agent.Processes.Stop.Laws.{Signalled, stop-Signalled, failed_stop_is_forgotten}

-- process 10 runs since 7; docker does not answer
abbrev commands : Commands
commands = record {
  process_start_time = λ pid. if nat_eq pid 10 then some 7 else none;
  kill = λ pid. none;
  kill_child = λ pid. none;
  docker_stop = λ ref. some "Docker stop timed out";
  inspect = λ ref. err "no daemon";
  write = λ records. none;
}

abbrev llama : ManagedProcessRecord
llama = record {
  instance_id = "i1";
  process_id = 10;
  process_start_time = some 7;
  base_url = none;
  endpoint_url = none;
  command = some "llama-server";
  log_path = none;
  started_at = 5;
  container_id = none;
  container_name = none;
  deploy_type = some "local";
}

abbrev vllm : ManagedProcessRecord
vllm = record llama { instance_id = "i2"; container_id = some "c2"; deploy_type = some "docker" }

abbrev two_records : StoreFile
two_records = stored (llama ∷ vllm ∷ [])

abbrev node : AgentNode
node = record { store = some two_records; registry = []; signals = [] }

abbrev restarted : ManagedProcessRecord
restarted = record llama { process_id = 11 }

moved_is_stored : upsert commands two_records restarted ≡ (none, stored (vllm ∷ restarted ∷ []))
unfolding upsert save delete
moved_is_stored = refl

upsert_example :
    find (stored (vllm ∷ restarted ∷ [])) "i1"
    ≡ (if "i1" == restarted.instance_id then ok (some restarted) else find two_records "i1")
upsert_example =
    find-upsert commands two_records (stored (vllm ∷ restarted ∷ [])) restarted "i1" moved_is_stored

llama_is_removed : remove commands two_records "i1" ≡ (none, stored (vllm ∷ []))
unfolding remove save delete
llama_is_removed = refl

stop-Signalled_example :
    Signalled commands "i1" node (stop_model_instance_with_store commands "i1" node).1
stop-Signalled_example = stop-Signalled commands "i1" node

vllm_is_found : find two_records "i2" ≡ ok (some vllm)
unfolding find select_one
vllm_is_found = refl

forgotten_example :
    let first = stop_model_instance_with_store commands "i2" node in
    (first.0 ≡ stopped "Docker stop timed out" vllm.command)
    × ((left : StoreFile) × (first.1.store ≡ some left) × (find left "i2" ≡ ok none))
    × ((stop_model_instance_with_store commands "i2" first.1).0
        ≡ instance_failure
            "no platform managed process record found; refusing to stop this instance")
unfolding select_one
forgotten_example =
    failed_stop_is_forgotten commands "i2" "c2" "Docker stop timed out" vllm two_records node refl
      vllm_is_found refl refl refl (λ records. refl) refl
