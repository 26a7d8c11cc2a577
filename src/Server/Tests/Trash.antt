-- ===== src/Server/Tests/Trash.antt =====
-- The cleanup of a file of the sample fleet.
use lightai_platform.Prelude.{◌≡◌, refl, none, some, [], ◌∷◌, true}
use lightai_platform.Prelude.Rows.{select_one}
use lightai_platform.Server.Tables.{Db, Trash, trash_is}
use lightai_platform.Server.Waiting.{Turn}
use lightai_platform.Server.Tests.{fleet}

abbrev old_file : Trash
old_file = record {
  id = "x1";
  model_file_id = some "f0";
  model_id = some "m0";
  node_id = some "n1";
  path = "/models/m0";
  reason = none;
  status = "pending";
  file_deleted_at = none;
  cleanup_task_id = none;
  last_error = none;
  note = none;
  created_at = 10;
  updated_at = 10;
}

abbrev fleet_with_trash : Db
fleet_with_trash = record fleet { model_file_trash = old_file ∷ [] }

abbrev last_turn : Turn
last_turn = record { meanwhile = λ d. d; expired = true; now = 440 }

old_file_is_stored : select_one (trash_is "x1") fleet_with_trash.model_file_trash ≡ some old_file
unfolding select_one
old_file_is_stored = refl
