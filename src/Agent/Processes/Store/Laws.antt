-- ===== src/Agent/Processes/Store/Laws.antt =====
-- What the store of the managed processes, agent/src/managed_process.rs, promises.
use lightai_platform.Prelude.{
  String, ◌≡◌, refl, ap, true, false, none, some, List, [], ◌∷◌, ◌==◌, map, if◌then◌else◌, all,
  arith, Bool-cases, Option-cases, inl, inr, eq_iff, eq_refl,
}
use lightai_platform.Prelude.Rows.{select_one, delete, insert, select}
use lightai_platform.Agent.Launch.{Outcome, ok, err}
use lightai_platform.Agent.Processes.{
  check_record, ManagedProcessRecord, Commands, StoreFile, missing, unreadable, stored,
}
use lightai_platform.Agent.Processes.Store.{
  load, of_instance, found_in, find, save, upsert_loaded, upsert, remove_loaded, remove, report_of,
  reports,
}

select_one-delete :
    (id k : String) (rs : List ManagedProcessRecord)
    → select_one (of_instance id) (delete (of_instance k) rs)
      ≡ (if id == k then none else select_one (of_instance id) rs)
unfolding select_one delete
select_one-delete id k [] = ground arith
select_one-delete id k (r ∷ rs) =
    ground (
      arith,
      select_one-delete id k rs,
      eq_iff r.instance_id k,
      eq_iff r.instance_id id,
      eq_iff id k,
    )

select_one-insert :
    (id : String) (r : ManagedProcessRecord) (rs : List ManagedProcessRecord)
    → select_one (of_instance id) rs ≡ none
    → select_one (of_instance id) (insert r rs) ≡ (if r.instance_id == id then some r else none)
unfolding select_one
select_one-insert id r [] h = refl
select_one-insert id r (x ∷ rs) h = ground (arith, h, select_one-insert id r rs)

select_one-insert_other :
    (id : String) (r : ManagedProcessRecord) (rs : List ManagedProcessRecord)
    → r.instance_id == id ≡ false
    → select_one (of_instance id) (insert r rs) ≡ select_one (of_instance id) rs
unfolding select_one
select_one-insert_other id r [] h = ground (arith, h)
select_one-insert_other id r (x ∷ rs) h = ground (arith, select_one-insert_other id r rs h)

module _ (os : Commands) where
  saved_file :
      (records : List ManagedProcessRecord) (file : StoreFile)
      → save os records ≡ (none, file)
      → file ≡ stored records
  unfolding save
  saved_file records file h = elim (Option-cases (os.write records)) [
    | inl e ↦ ground (arith, h, e)
    | inr (x, e) ↦ ground (arith, h, e)
  ]

  replaced :
      (id : String) (r : ManagedProcessRecord) (rs : List ManagedProcessRecord)
      → select_one (of_instance id) (insert r (delete (of_instance r.instance_id) rs))
        ≡ (if id == r.instance_id then some r else select_one (of_instance id) rs)
  replaced id r rs =
      let ds = delete (of_instance r.instance_id) rs in
      let gone = select_one-delete id r.instance_id rs in
      elim (Bool-cases (id == r.instance_id)) [
        | inl e ↦
            let same = (eq_iff id r.instance_id).0 e in
            ground (arith, e, gone, same, select_one-insert id r ds, eq_refl id)
        | inr e ↦ ground (
          arith,
          e,
          gone,
          select_one-insert_other id r ds,
          eq_iff r.instance_id id,
          eq_iff id r.instance_id,
        )
      ]

  upsert_find :
      (id : String) (r : ManagedProcessRecord) (file after : StoreFile)
      (o : Outcome (List ManagedProcessRecord))
      → upsert_loaded os r file o ≡ (none, after)
      → find after id ≡ (if id == r.instance_id then ok (some r) else found_in id o)
  unfolding find load
  upsert_find id r file after (err e) h = cc
  upsert_find id r file after (ok rs) h =
      rw (saved_file (insert r (delete (of_instance r.instance_id) rs)) after h)
        (ground (arith, replaced id r rs))

  -- A record that is stored is the one that is found for its instance from then on, in place of any
  -- earlier one, and those of the other instances are found as before.
  pub find-upsert :
      (file after : StoreFile) (r : ManagedProcessRecord) (id : String)
      → upsert os file r ≡ (none, after)
      → find after id ≡ (if id == r.instance_id then ok (some r) else find file id)
  unfolding upsert find
  find-upsert file after r id h = upsert_find id r file after (load file) h

  remove_find :
      (id k : String) (file after : StoreFile) (o : Outcome (List ManagedProcessRecord))
      → remove_loaded os k file o ≡ (none, after)
      → find after id ≡ (if id == k then ok none else found_in id o)
  unfolding find load
  remove_find id k file after (err e) h = cc
  remove_find id k file after (ok rs) h =
      rw (saved_file (delete (of_instance k) rs) after h)
        (ground (arith, select_one-delete id k rs))

  pub find-remove :
      (file after : StoreFile) (k id : String)
      → remove os file k ≡ (none, after)
      → find after id ≡ (if id == k then ok none else find file id)
  unfolding remove find
  find-remove file after k id h = remove_find id k file after (load file) h

  -- a removal does not fail where the store is read and written
  removed_is_written :
      (id : String) (file : StoreFile) (r : ManagedProcessRecord)
      → find file id ≡ ok (some r)
      → ((records : List ManagedProcessRecord) → os.write records ≡ none)
      → (remove os file id).0 ≡ none
  unfolding find load remove save delete
  removed_is_written id missing r h writable = rw (writable []) refl
  removed_is_written id (unreadable e) r h writable = cc
  removed_is_written id (stored records) r h writable =
      rw (writable (delete (of_instance id) records)) refl

  pub removed_is_not_found :
      (id : String) (file : StoreFile) (r : ManagedProcessRecord)
      → find file id ≡ ok (some r)
      → ((records : List ManagedProcessRecord) → os.write records ≡ none)
      → find (remove os file id).1 id ≡ ok none
  removed_is_not_found id file r h writable =
      let gone =
        find-remove file (remove os file id).1 id id
          (ap (λ e. (e, (remove os file id).1)) (removed_is_written id file r h writable)) in
      rw (eq_refl id) at gone

  still_running :
      (records : List ManagedProcessRecord)
      → all
          (λ x. x.status == "running")
          (map (report_of os) (select (λ r. (check_record os r).is_running) records))
        ≡ true
  unfolding all select
  still_running [] = refl
  still_running (r ∷ rs) = elim (Bool-cases (check_record os r).is_running) [
    | inl e ↦ rw e (rw e (still_running rs))
    | inr e ↦ rw e (still_running rs)
  ]

  -- What is reported as failed is reported once: where the store can be written and nothing else
  -- changes, the next reports are all of running processes.
  pub reports_prune :
      (file : StoreFile)
      → ((records : List ManagedProcessRecord) → os.write records ≡ none)
      → all (λ x. x.status == "running") (reports os (reports os file).1).0 ≡ true
  unfolding reports save load all select
  reports_prune missing h = rw (h []) refl
  reports_prune (unreadable e) h = refl
  reports_prune (stored records) h =
      rw (h (select (λ r. (check_record os r).is_running) records)) (still_running records)
