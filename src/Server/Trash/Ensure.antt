-- ===== src/Server/Trash/Ensure.antt =====
-- `ensure_model_file_trash` of server/src/domain/model_trash.rs: the item of a file, the newest one if
-- there are several, or a new one.
pub mod Laws
use lightai_platform.Prelude.{
  ℕ, String, Bool, Option, none, some, List, [], ◌∷◌, ◌==◌, is_some_and, if◌then◌else◌, ltb, ◌∷◌,
}
use lightai_platform.Prelude.Rows.{insert, select}
use lightai_platform.Server.Serde.{Serde}
use lightai_platform.Server.Tables.{Db, Trash}
use lightai_platform.Server.Exec.{Exec, gets, modify, ◌>>=◌, ◌>>◌}
use lightai_platform.Server.ModelFiles.View.{ModelFileView, model_file}
use lightai_platform.Server.Trash.{ModelFileTrashView, model_file_trash_item}

-- WHERE model_file_id = ?
abbrev pub trash_of : String → Trash → Bool
trash_of file_id t = is_some_and t.model_file_id (λ id. id == file_id)

-- ORDER BY created_at DESC LIMIT 1, the first row of several with one time
unfoldable pub newest_trash : String → List Trash → Option Trash
newest_trash file_id [] = none
newest_trash file_id (t ∷ ts) =
    let rest = newest_trash file_id ts in if trash_of file_id t then some (later t rest) else rest
  where
    later : Trash → Option Trash → Trash
    later t none = t
    later t (some u) = if ltb t.created_at u.created_at then u else t

abbrev pub new_trash : ℕ → String → String → ModelFileView → Option String → Option String → Trash
new_trash now id file_id file reason remark = record {
  id = id;
  model_file_id = some file_id;
  model_id = some file.model_id;
  node_id = some file.node_id;
  path = file.path;
  reason = reason;
  status = "pending";
  file_deleted_at = none;
  cleanup_task_id = none;
  last_error = none;
  note = remark;
  created_at = now;
  updated_at = now;
}

-- a new item
unfoldable pub create_trash :
    Serde → ℕ → String → String → Option String → Option String → Exec ModelFileTrashView
create_trash js now trash_id file_id reason remark = do
  file ← model_file js now file_id
  modify (λ db. record db {
    model_file_trash =
        insert (new_trash now trash_id file_id file reason remark) db.model_file_trash;
  })
  model_file_trash_item trash_id

-- the item that was found, or a new one
unfoldable pub found_or_new :
    Serde
    → ℕ
    → String
    → String
    → Option String
    → Option String
    → Option Trash
    → Exec ModelFileTrashView
found_or_new js now trash_id file_id reason remark (some item) = model_file_trash_item item.id
found_or_new js now trash_id file_id reason remark none =
    create_trash js now trash_id file_id reason remark

unfoldable pub ensure_model_file_trash :
    Serde → ℕ → String → String → Option String → Option String → Exec ModelFileTrashView
ensure_model_file_trash js now trash_id file_id reason remark = do
  existing ← gets (λ db. newest_trash file_id db.model_file_trash)
  found_or_new js now trash_id file_id reason remark existing

pub record ModelFileTrashRequest : Type 0 where
  pub reason : Option String
  pub note : Option String

unfoldable pub create_model_file_trash :
    Serde → ℕ → String → String → ModelFileTrashRequest → Exec ModelFileTrashView
create_model_file_trash js now trash_id file_id request =
    ensure_model_file_trash js now trash_id file_id request.reason request.note
