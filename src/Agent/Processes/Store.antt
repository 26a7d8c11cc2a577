-- ===== src/Agent/Processes/Store.antt =====
-- The store of the managed processes, agent/src/managed_process.rs.
pub mod Laws
use lightai_platform.Prelude.{String, Bool, Option, none, some, List, [], ◌==◌, map, if◌then◌else◌}
use lightai_platform.Prelude.Rows.{select_one, delete, insert, select}
use lightai_platform.Agent.Launch.{Outcome, ok, err}
use lightai_platform.Agent.Processes.{
  check_record, ManagedProcessRecord, Commands, ManagedInstanceReport, StoreFile, missing,
  unreadable, stored,
}

unfoldable pub load : StoreFile → Outcome (List ManagedProcessRecord)
load missing = ok []
load (unreadable e) = err e
load (stored records) = ok records

abbrev pub of_instance : String → ManagedProcessRecord → Bool
of_instance id r = r.instance_id == id

abbrev pub found_in :
    String → Outcome (List ManagedProcessRecord) → Outcome (Option ManagedProcessRecord)
found_in id (err e) = err e
found_in id (ok records) = ok (select_one (of_instance id) records)

unfoldable pub find : StoreFile → String → Outcome (Option ManagedProcessRecord)
unfolding load
find file id = found_in id (load file)

module _ (os : Commands) where
  abbrev pub written :
      List ManagedProcessRecord → Option (String × StoreFile) → Option String × StoreFile
  written records none = (none, stored records)
  written records (some (e, left)) = (some e, left)

  -- an error, if there is one, and the file
  unfoldable pub save : List ManagedProcessRecord → Option String × StoreFile
  save records = written records (os.write records)

  abbrev pub upsert_loaded :
      ManagedProcessRecord
      → StoreFile
      → Outcome (List ManagedProcessRecord)
      → Option String × StoreFile
  upsert_loaded r file (err e) = (some e, file)
  upsert_loaded r file (ok records) = save (insert r (delete (of_instance r.instance_id) records))

  unfoldable pub upsert : StoreFile → ManagedProcessRecord → Option String × StoreFile
  unfolding load
  upsert file r = upsert_loaded r file (load file)

  abbrev pub remove_loaded :
      String → StoreFile → Outcome (List ManagedProcessRecord) → Option String × StoreFile
  remove_loaded id file (err e) = (some e, file)
  remove_loaded id file (ok records) = save (delete (of_instance id) records)

  unfoldable pub remove : StoreFile → String → Option String × StoreFile
  unfolding load
  remove file id = remove_loaded id file (load file)

  abbrev pub report_of : ManagedProcessRecord → ManagedInstanceReport
  report_of r =
      let check = check_record os r in
      record {
        instance_id = r.instance_id;
        status = if check.is_running then "running" else "failed";
        message = check.message;
        process_id = r.process_id;
        base_url = r.base_url;
        endpoint_url = r.endpoint_url;
        command = r.command;
        log_path = r.log_path;
      }

  abbrev pub reports_loaded :
      StoreFile → Outcome (List ManagedProcessRecord) → List ManagedInstanceReport × StoreFile
  reports_loaded file (err e) = ([], file)
  reports_loaded file (ok records) =
      (map report_of records, (save (select (λ r. (check_record os r).is_running) records)).1)

  unfoldable pub reports : StoreFile → List ManagedInstanceReport × StoreFile
  unfolding load save
  reports file = reports_loaded file (load file)
