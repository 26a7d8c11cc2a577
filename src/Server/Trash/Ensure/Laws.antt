-- ===== src/Server/Trash/Ensure/Laws.antt =====
-- Once a file has an item in the trash, it keeps one, and `ensure_model_file_trash` gives it one.
use lightai_platform.Prelude.{
  ℕ, String, ◌≡◌, refl, eq_refl, sym, ap, ◌∙◌, subst, Bool, true, ◌||◌, Option, none, some, List,
  [], ◌∷◌, ◌++◌, any, is_some, arith,
}
use lightai_platform.Prelude.Rows.{update, insert}
use lightai_platform.Server.Serde.{Serde}
use lightai_platform.Server.Tables.{Db, Task, Trash, trash_is}
use lightai_platform.Server.Exec.{ok, modify, ◌>>◌}
use lightai_platform.Server.Waiting.Yields.{Replies, replies}
use lightai_platform.Server.Exec.Effects.{ReadOnly, reads, Keeps, Keeps-modify, Keeps-bind, keeps}
use lightai_platform.Server.AgentTasks.Sweep.{
  fail_file, fail_trash, fail_instance, sweep_rows, fail_subject, mark_task_timed_out,
  mark_timed_out_tasks, update_trash_failure,
}
use lightai_platform.Server.InstanceView.{
  update_instance_check, update_instance, checked, model_instance,
}
use lightai_platform.Server.ModelFiles.View.{
  ModelFileView, expire_files, model_file, model_file_rows,
}
use lightai_platform.Server.Trash.{model_file_trash_item, ModelFileTrashView}
use lightai_platform.Server.Trash.Ensure.{
  new_trash, found_or_new, trash_of, newest_trash, create_trash, ensure_model_file_trash,
}

abbrev pub HasTrash : String → Db → Type 0
HasTrash file_id db = any (trash_of file_id) db.model_file_trash ≡ true

any-update :
    (p q : Trash → Bool) (f : Trash → Trash)
    → ((t : Trash) → p (f t) ≡ p t)
    → (ts : List Trash) → any p (update q f ts) ≡ any p ts
unfolding any update
any-update p q f h [] = refl
any-update p q f h (t ∷ ts) = ground (arith, h t, any-update p q f h ts)

any-here : (p : Trash → Bool) (t : Trash) → p t ≡ true → any p (t ∷ []) ≡ true
unfolding any
any-here p t h = ground (arith, h)

any-insert : (p : Trash → Bool) (ts us : List Trash) → any p (ts ++ us) ≡ any p ts || any p us
unfolding any
any-insert p [] us = refl
any-insert p (t ∷ ts) us = ground (arith, any-insert p ts us)

newest_trash-any :
    (id : String) (ts : List Trash) → is_some (newest_trash id ts) ≡ any (trash_of id) ts
unfolding newest_trash any
newest_trash-any id [] = refl
newest_trash-any id (t ∷ ts) = ground (arith, newest_trash-any id ts)

module _ (js : Serde) (now : ℕ) (id : String) where
  trash_failure-HasTrash :
      (x status message : String) → Keeps (HasTrash id) (update_trash_failure now x status message)
  unfolding update_trash_failure
  trash_failure-HasTrash x status message = record {
    at = λ db h.
        any-update (trash_of id) (trash_is x)
          (λ t. record t { status = status; last_error = some message; updated_at = now })
          (λ t. refl) db.model_file_trash
        ∙ h;
  }

  fail_file-HasTrash : (o : Option String) → Keeps (HasTrash id) (fail_file js now o)
  fail_file-HasTrash none = search keeps
  fail_file-HasTrash (some x) = Keeps-modify (HasTrash id) _ (λ db h. h)

  fail_trash-HasTrash : (o : Option String) → Keeps (HasTrash id) (fail_trash js now o)
  fail_trash-HasTrash none = search keeps
  fail_trash-HasTrash (some x) = trash_failure-HasTrash x "cleanup_timeout" "file cleanup timed out"

  checked-HasTrash :
      (x status : String) (error : Option String)
      → Keeps (HasTrash id) (modify (update_instance x (checked now status error)))
  checked-HasTrash x status error = Keeps-modify (HasTrash id) _ (λ db h. h)

  fail_instance-HasTrash : (o : Option String) → Keeps (HasTrash id) (fail_instance js now o)
  unfolding update_instance_check model_instance
  fail_instance-HasTrash none = search keeps
  fail_instance-HasTrash (some x) = search (keeps, checked-HasTrash) depth 14

  fail_subject-HasTrash : (t : Task) → Keeps (HasTrash id) (fail_subject js now t)
  unfolding fail_subject
  fail_subject-HasTrash t =
      search (keeps, fail_file-HasTrash, fail_trash-HasTrash, fail_instance-HasTrash) depth 12

  sweep_rows-HasTrash : (ts : List Task) → Keeps (HasTrash id) (sweep_rows js now ts)
  unfolding sweep_rows mark_task_timed_out
  sweep_rows-HasTrash [] = search keeps
  sweep_rows-HasTrash (t ∷ ts) =
      Keeps-bind (HasTrash id) (modify _) (λ _. fail_subject js now t >> sweep_rows js now ts)
        (Keeps-modify (HasTrash id) _ (λ db h. h))
        (λ _.
          Keeps-bind (HasTrash id) (fail_subject js now t) (λ _. sweep_rows js now ts)
            (fail_subject-HasTrash t) (λ _. sweep_rows-HasTrash ts))

  pub sweep-HasTrash : Keeps (HasTrash id) (mark_timed_out_tasks js now)
  unfolding mark_timed_out_tasks
  sweep-HasTrash = search (keeps, sweep_rows-HasTrash)

  trash-expire_files :
      (vs : List ModelFileView) (db : Db)
      → (expire_files now vs db).model_file_trash ≡ db.model_file_trash
  unfolding expire_files
  trash-expire_files [] db = refl
  trash-expire_files (v ∷ vs) db = trash-expire_files vs _ ∙ ground arith

  expire-HasTrash : (vs : List ModelFileView) → Keeps (HasTrash id) (modify (expire_files now vs))
  expire-HasTrash vs =
      Keeps-modify (HasTrash id) (expire_files now vs)
        (λ db h. subst (λ ts. any (trash_of id) ts ≡ true) (sym (trash-expire_files vs db)) h)

  rows-HasTrash :
      (model_id file_id : Option String)
      → Keeps (HasTrash id) (model_file_rows js now model_id file_id)
  unfolding model_file_rows
  rows-HasTrash model_id file_id = search (keeps, sweep-HasTrash, expire-HasTrash) depth 12

  pub file-HasTrash : (x : String) → Keeps (HasTrash id) (model_file js now x)
  unfolding model_file
  file-HasTrash x = search (keeps, rows-HasTrash) depth 12

  item-ReadOnly : (trash_id : String) → ReadOnly (model_file_trash_item trash_id)
  unfolding model_file_trash_item
  item-ReadOnly trash_id = search reads

  insert-HasTrash :
      (t : Trash)
      → Keeps
          (HasTrash id)
          (modify (λ db. record db { model_file_trash = insert t db.model_file_trash }))
  insert-HasTrash t =
      Keeps-modify (HasTrash id) _
        (λ db h. ground (arith, any-insert (trash_of id) db.model_file_trash (t ∷ []), h))

  create_trash-HasTrash :
      (trash_id file_id : String) (reason remark : Option String)
      → Keeps (HasTrash id) (create_trash js now trash_id file_id reason remark)
  unfolding create_trash
  create_trash-HasTrash trash_id file_id reason remark =
      search (keeps, file-HasTrash, insert-HasTrash, item-ReadOnly) depth 14

  found_or_new-HasTrash :
      (trash_id file_id : String) (reason remark : Option String) (o : Option Trash)
      → Keeps (HasTrash id) (found_or_new js now trash_id file_id reason remark o)
  unfolding found_or_new
  found_or_new-HasTrash trash_id file_id reason remark (some item) = search (keeps, item-ReadOnly)
  found_or_new-HasTrash trash_id file_id reason remark none =
      create_trash-HasTrash trash_id file_id reason remark

  -- What is given to one file is not taken from another.
  pub ensure-HasTrash :
      (trash_id file_id : String) (reason remark : Option String)
      → Keeps (HasTrash id) (ensure_model_file_trash js now trash_id file_id reason remark)
  unfolding ensure_model_file_trash
  ensure-HasTrash trash_id file_id reason remark = search (keeps, found_or_new-HasTrash)

module _ (js : Serde) (now : ℕ) (trash_id id : String) (reason remark : Option String) where
  inserted_gives :
      (file : ModelFileView)
      → Replies
          (λ _ db. HasTrash id db)
          (modify (λ db. record db {
            model_file_trash =
                insert (new_trash now trash_id id file reason remark) db.model_file_trash;
          })
            >> model_file_trash_item trash_id)
  inserted_gives file = record {
    at = λ db a d e.
        let row = new_trash now trash_id id file reason remark in
        let stored : Db = record db { model_file_trash = insert row db.model_file_trash } in
        let kept = (item-ReadOnly js now id trash_id).at stored in
        let has : HasTrash id stored = ground (
          arith,
          any-insert (trash_of id) db.model_file_trash (row ∷ []),
          any-here (trash_of id) row (eq_refl id),
        ) in
        subst (HasTrash id) (sym kept ∙ ap (λ r. r.1) e) has;
  }

  create_gives : Replies (λ _ db. HasTrash id db) (create_trash js now trash_id id reason remark)
  unfolding create_trash
  create_gives = search (replies, inserted_gives)

  found_gives :
      (o : Option Trash) (db : Db) (a : ModelFileTrashView) (d : Db)
      → newest_trash id db.model_file_trash ≡ o
      → found_or_new js now trash_id id reason remark o db ≡ (ok a, d)
      → HasTrash id d
  unfolding found_or_new
  found_gives none db a d e h = create_gives.at db a d h
  found_gives (some item) db a d e h =
      subst (HasTrash id) (sym ((item-ReadOnly js now id item.id).at db) ∙ ap (λ r. r.1) h)
        (sym (newest_trash-any id db.model_file_trash) ∙ ap is_some e)

  -- An `ensure_model_file_trash` that succeeds leaves the file with an item.
  pub ensure_gives :
      Replies (λ _ db. HasTrash id db) (ensure_model_file_trash js now trash_id id reason remark)
  unfolding ensure_model_file_trash
  ensure_gives = record {
    at = λ db a d h. found_gives (newest_trash id db.model_file_trash) db a d refl h;
  }
