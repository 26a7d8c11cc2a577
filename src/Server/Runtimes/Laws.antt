-- ===== src/Server/Runtimes/Laws.antt =====
-- What the handlers of runtime environments promise.
use lightai_platform.Prelude.{
  ℕ, String, ◌≡◌, refl, subst, sym, ◌<>◌, true, false, ◌&&◌, Bool, Option, none, some, List, [],
  ◌∷◌, any, is_some, All, arith, Bool-cases, inl, inr, ◌==◌, map, eq_iff,
}
use lightai_platform.Prelude.Rows.{select, select_one, insert, delete}
use lightai_platform.Server.Serde.{Serde}
use lightai_platform.Server.Tables.{Db, Runtime, runtime_is, Instance, node_is}
use lightai_platform.Server.Exec.{Exec, err, conflict, after, DomainError}
use lightai_platform.Server.Exec.Effects.{ReadOnly, reads, read_cases}
use lightai_platform.Server.Support.Laws.{valid_reads}
use lightai_platform.Server.Waiting.{Turn, Ends, ends}
use lightai_platform.Server.Waiting.Yields.{Yields}
use lightai_platform.Server.Instances.Params.{runtime_environment_usable}
use lightai_platform.Server.Instances.Edit.{is_live}
use lightai_platform.Server.Runtimes.Request.{
  RuntimeEnvironmentRequest, validate_runtime, validate_runtime_entrypoints, if_given,
}
use lightai_platform.Server.Runtimes.Check.{
  CheckedRuntimeEnvironment, check_runtime_environment_before_save,
}
use lightai_platform.Server.Runtimes.Edit.{
  join_names, new_runtime, uses_runtime, create_runtime_environment, update_runtime_environment,
  delete_runtime_environment, check_runtime_environment, check_online, is_empty,
}

abbrev IsUsable : CheckedRuntimeEnvironment → Db → Type 0
IsUsable c d = runtime_environment_usable (some c.check_status) ≡ true

-- what a creation that succeeds has stored
abbrev pub Stored : String → String → RuntimeEnvironmentRequest → Db → Type 0
Stored id node_id r db' =
    (checked : CheckedRuntimeEnvironment) × (now : ℕ) × (db : Db) × (runtime_environment_usable
        (some checked.check_status)
      ≡ true)
    × (is_some (select_one (node_is node_id) db.nodes) ≡ true)
    × (db' ≡ record db {
      runtime_environments = insert (new_runtime id now node_id r checked) db.runtime_environments;
    })

pub if_given-ReadOnly :
    (validate : String → Exec Unit) (value : Option String)
    → ((s : String) → ReadOnly (validate s))
    → ReadOnly (if_given validate value)
if_given-ReadOnly validate none h = search reads
if_given-ReadOnly validate (some s) h = h s

entrypoints-ReadOnly : (r : RuntimeEnvironmentRequest) → ReadOnly (validate_runtime_entrypoints r)
unfolding validate_runtime_entrypoints
entrypoints-ReadOnly r = search (valid_reads, if_given-ReadOnly) depth 20

pub validate_runtime-ReadOnly :
    (js : Serde) (r : RuntimeEnvironmentRequest) → ReadOnly (validate_runtime js r)
unfolding validate_runtime
validate_runtime-ReadOnly js r = search (valid_reads, entrypoints-ReadOnly) depth 20

pub select-any :
    (p : Instance → Bool) (rows : List Instance)
    → any p rows ≡ true
    → is_empty (map (λ i. i.name) (select p rows)) ≡ false
unfolding any select
select-any p [] h = cc
select-any p (i ∷ rows) h = ground (arith, select-any p rows)

-- An environment that a running, starting or stopping instance uses cannot be changed: the update is
-- refused with some error, and the database stays as it is.
pub used_runtime_is_protected :
    (js : Serde) (now : ℕ) (id : String) (r : RuntimeEnvironmentRequest) (db : Db)
    → any (λ i. uses_runtime id i && is_live i.status) db.model_instances ≡ true
    → (e : DomainError) × (update_runtime_environment js now id r db ≡ (err e, db))
unfolding update_runtime_environment
used_runtime_is_protected js now id r db used =
    let p : Instance → Bool = λ i. uses_runtime id i && is_live i.status in
    let some_name = select-any p db.model_instances used in
    let names = join_names (map (λ i. i.name) (select p db.model_instances)) in
    elim (read_cases _ db (validate_runtime-ReadOnly js r)) [
      | inl (u, e) ↦ (
        conflict (
            "Runtime in use by running instance " <> names
            <> ". Cannot modify. Stop the instance first."),
        ground arith,
      )
      | inr (x, e) ↦ (x, ground arith)
    ]

-- every instance that names a runtime environment names a stored one
abbrev pub RefersTo : List Runtime → Instance → Type 0
RefersTo runtimes i =
    (r : String)
    → i.runtime_environment_id ≡ some r
    → is_some (select_one (runtime_is r) runtimes) ≡ true

abbrev pub HasRuntimes : Db → Type 0
HasRuntimes db = All (RefersTo db.runtime_environments) db.model_instances

select_one-delete_other :
    (id r : String) (runtimes : List Runtime)
    → (r == id) ≡ false
    → select_one (runtime_is r) (delete (runtime_is id) runtimes)
      ≡ select_one (runtime_is r) runtimes
unfolding select_one delete
select_one-delete_other id r [] h = refl
select_one-delete_other id r (x ∷ xs) h =
    ground (arith, select_one-delete_other id r xs h, eq_iff x.id id, eq_iff x.id r, eq_iff r id)

unused-HasRuntimes :
    (id : String) (runtimes : List Runtime) (rows : List Instance)
    → any (uses_runtime id) rows ≡ false
    → All (RefersTo runtimes) rows
    → All (RefersTo (delete (runtime_is id) runtimes)) rows
unfolding any
unused-HasRuntimes id runtimes [] h k = tt
unused-HasRuntimes id runtimes (i ∷ rows) h k = (
  (λ r e. ground (arith, k.0 r e, select_one-delete_other id r runtimes)),
  unused-HasRuntimes id runtimes rows (ground arith) k.1,
)

-- The deletion of an environment, whether it is accepted or refused, leaves no instance without its
-- runtime environment.
pub delete_runtime-HasRuntimes :
    (id : String) (db : Db)
    → HasRuntimes db
    → HasRuntimes (after (delete_runtime_environment id) db)
unfolding delete_runtime_environment
delete_runtime-HasRuntimes id db h = elim (Bool-cases (any (uses_runtime id) db.model_instances)) [
  | inl used ↦
      let kept : after (delete_runtime_environment id) db ≡ db = ground arith in
      subst HasRuntimes (sym kept) h
  | inr unused ↦
      let removed = delete (runtime_is id) db.runtime_environments in
      let left : after (delete_runtime_environment id) db
          ≡ record db { runtime_environments = removed } =
        ground arith in
      subst HasRuntimes (sym left)
        (unused-HasRuntimes id db.runtime_environments db.model_instances unused h)
]

-- A creation of a runtime environment ends: if the deadline passes in some round of the wait for the
-- agent, there is an answer or an error, whatever the agent and the other requests do.
pub create_runtime-Ends :
    (js : Serde) (now later : ℕ) (id task_id node_id : String) (r : RuntimeEnvironmentRequest)
    (turns : List Turn)
    → any (λ r. r.expired) turns ≡ true
    → Ends (create_runtime_environment js now later id task_id node_id r turns)
unfolding create_runtime_environment check_runtime_environment_before_save
create_runtime-Ends js now later id task_id node_id r turns late = search ends depth 14

-- A check of a stored runtime environment ends in the same way.
pub check_runtime-Ends :
    (js : Serde) (now later : ℕ) (id task_id : String) (turns : List Turn)
    → any (λ r. r.expired) turns ≡ true
    → Ends (check_runtime_environment js now later id task_id turns)
unfolding check_runtime_environment check_online check_runtime_environment_before_save
check_runtime-Ends js now later id task_id turns late = search ends depth 14
