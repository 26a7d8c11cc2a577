-- ===== src/Server/Models/Laws.antt =====
-- What the handlers of models promise.
use lightai_platform.Prelude.{
  ℕ, String, ◌<>◌, ◌≡◌, refl, sym, subst, ap, ◌&&◌, Bool, true, false, List, [], ◌∷◌, any, is_some,
  arith, All, map, Bool-cases, inl, inr,
}
use lightai_platform.Prelude.Rows.{update, select_one, select}
use lightai_platform.Server.Serde.{Serde}
use lightai_platform.Server.Tables.{Db, Model, Instance}
use lightai_platform.Server.Exec.{Result, ok, err, next, DomainError, conflict}
use lightai_platform.Server.Exec.Effects.{Keeps, Keeps-bind, keeps, ReadOnly, read_cases}
use lightai_platform.Server.Waiting.{Turn, Ends, ends}
use lightai_platform.Server.Support.{live_model}
use lightai_platform.Server.Trash.{ModelFileTrashView}
use lightai_platform.Server.Trash.Ensure.{ensure_model_file_trash}
use lightai_platform.Server.Trash.Ensure.Laws.{HasTrash, ensure_gives, ensure-HasTrash}
use lightai_platform.Server.Runtimes.Laws.{if_given-ReadOnly, select-any}
use lightai_platform.Server.Support.Laws.{valid_reads}
use lightai_platform.Server.Runtimes.Edit.{join_names}
use lightai_platform.Server.Instances.Edit.{is_live}
use lightai_platform.Server.ModelFiles.Laws.{verify_file-Ends}
use lightai_platform.Server.Models.{
  ModelRequest, create_model, update_model, check_model_request, trash_files, remove_model,
  delete_model, update_models, removed, uses_model, is_protected, file_ids, Turn,
}

module _ (js : Serde) (now : ℕ) (trash_id : String → String) where
  trash_files-HasTrash :
      (id : String) (fs : List String) → Keeps (HasTrash id) (trash_files js now trash_id fs)
  unfolding trash_files
  trash_files-HasTrash id [] = search keeps
  trash_files-HasTrash id (f ∷ fs) =
      Keeps-bind (HasTrash id) (ensure_model_file_trash js now (trash_id f) f _ _)
        (λ _. trash_files js now trash_id fs) (ensure-HasTrash js now id (trash_id f) f _ _)
        (λ _. trash_files-HasTrash id fs)

  step_gives :
      (f : String) (fs : List String) (r : Result ModelFileTrashView × Db) (u : Unit) (db' : Db)
      → ((a : ModelFileTrashView) (d : Db) → r ≡ (ok a, d) → HasTrash f d)
      → ((d : Db) → trash_files js now trash_id fs d ≡ (ok u, db') → All (λ id. HasTrash id db') fs)
      → next r (λ _. trash_files js now trash_id fs) ≡ (ok u, db')
      → All (λ id. HasTrash id db') (f ∷ fs)
  step_gives f fs (ok a, d) u db' has rest h = (
    subst (HasTrash f) (ap (λ r. r.1) h) ((trash_files-HasTrash f fs).at d (has a d refl)),
    rest d h,
  )
  step_gives f fs (err e, d) u db' has rest h = cc

  -- A loop that ends well leaves every file with an item in the trash.
  trash_files_give :
      (fs : List String) (db db' : Db) (u : Unit)
      → trash_files js now trash_id fs db ≡ (ok u, db')
      → All (λ id. HasTrash id db') fs
  unfolding trash_files
  trash_files_give [] db db' u h = tt
  trash_files_give (f ∷ fs) db db' u h =
      step_gives f fs (ensure_model_file_trash js now (trash_id f) f _ _ db) u db'
        ((ensure_gives js now (trash_id f) f _ _).at db) (λ d. trash_files_give fs d db' u) h

abbrev pub has_live_model : String → Db → Bool
has_live_model id db = any (live_model id) db.models

removed_live :
    (now : ℕ) (id : String) (ms : List Model)
    → any (live_model id) (update (live_model id) (removed now) ms) ≡ false
unfolding any update
removed_live now id [] = refl
removed_live now id (m ∷ ms) = ground (arith, removed_live now id ms)

remove_inv :
    (now : ℕ) (id : String) (db db' : Db) (u : Unit)
    → remove_model now id db ≡ (ok u, db')
    → db' ≡ update_models (live_model id) (removed now) db
unfolding remove_model
remove_inv now id db db' u h = ground arith

finished :
    (now : ℕ) (id : String) (fs : List String) (r : Result (Unit {0}) × Db) (u : Unit) (db' : Db)
    → ((a : Unit) (d : Db) → r ≡ (ok a, d) → All (λ f. HasTrash f d) fs)
    → next r (λ _. remove_model now id) ≡ (ok u, db')
    → All (λ f. HasTrash f db') fs × (has_live_model id db' ≡ false)
finished now id fs (ok a, d) u db' given h =
    let e = remove_inv now id d db' u h in
    (
      subst (λ x. All (λ f. HasTrash f x) fs) (sym e) (given a d refl),
      subst (λ x. has_live_model id x ≡ false) (sym e) (removed_live now id d.models),
    )
finished now id fs (err x, d) u db' given h = cc

-- A `delete_model` that succeeds has met no instance of the model that starts or runs, has put every
-- file of the model into the trash, and leaves no live model with the id.
pub delete_model_sound :
    (js : Serde) (now : ℕ) (trash_id : String → String) (id : String) (db db' : Db) (u : Unit)
    → delete_model js now trash_id id db ≡ (ok u, db')
    → (any (λ i. uses_model id i && is_protected i.status) db.model_instances ≡ false)
      × All (λ f. HasTrash f db') (file_ids id db)
      × (has_live_model id db' ≡ false)
unfolding delete_model
delete_model_sound js now trash_id id db db' u h =
    let used : Bool = any (λ i. uses_model id i && is_protected i.status) db.model_instances in
    let found : Bool = is_some (select_one (live_model id) db.models) in
    elim (Bool-cases used) [
      | inl e ↦ ground arith
      | inr e ↦ elim (Bool-cases found) [
        | inl k ↦
            let (trashed, gone) =
              finished now id (file_ids id db) (trash_files js now trash_id (file_ids id db) db) u
                db' (λ a d. trash_files_give js now trash_id (file_ids id db) db d a)
                (ground arith) in
            (e, trashed, gone)
        | inr k ↦ ground arith
      ]
    ]

-- A creation of a model ends: if the deadline passes in some round of the wait for the agent, there is
-- an answer or an error, whatever the agent and the other requests do.
pub create_model-Ends :
    (js : Serde) (now later : ℕ) (id file_id task_id : String) (r : ModelRequest)
    (turns : List Turn)
    → any (λ r. r.expired) turns ≡ true
    → Ends (create_model js now later id file_id task_id r turns)
unfolding create_model
create_model-Ends js now later id file_id task_id r turns late =
    search (ends, verify_file-Ends) depth 14

check-ReadOnly : (js : Serde) (r : ModelRequest) → ReadOnly (check_model_request js r)
unfolding check_model_request
check-ReadOnly js r = search (valid_reads, if_given-ReadOnly) depth 20

-- A model that a running, starting or stopping instance uses cannot be changed: the update is refused
-- with some error, and the database stays as it is.
pub used_model_is_protected :
    (js : Serde) (now : ℕ) (id : String) (r : ModelRequest) (db : Db)
    → any (λ i. uses_model id i && is_live i.status) db.model_instances ≡ true
    → (e : DomainError) × (update_model js now id r db ≡ (err e, db))
unfolding update_model
used_model_is_protected js now id r db used =
    let p : Instance → Bool = λ i. uses_model id i && is_live i.status in
    let some_name = select-any p db.model_instances used in
    let names = join_names (map (λ i. i.name) (select p db.model_instances)) in
    elim (read_cases _ db (check-ReadOnly js r)) [
      | inl (u, e) ↦ (
        conflict (
            "Model in use by running instance " <> names
            <> ". Cannot modify. Stop the instance first."),
        ground arith,
      )
      | inr (x, e) ↦ (x, ground arith)
    ]
