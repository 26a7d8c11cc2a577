-- ===== src/Server/Waiting.antt =====
-- The loop in which a handler waits for the result of an agent task: it stands in
-- server/src/domain/instances.rs, model_files.rs, model_trash.rs, runtimes.rs, gateway.rs and
-- instance_logs.rs with other answers. Every 100 ms it reads the row of the task; between two reads
-- other requests run. A schedule gives, for each round, what they do and the clock.
pub mod Yields
use lightai_platform.Prelude.{
  ℕ, String, ◌≡◌, ◌≢◌, refl, false, true, Bool, Option, none, some, List, [], ◌∷◌, any,
  if◌then◌else◌, arith, Bool-cases, inl, inr, map_option,
}
use lightai_platform.Prelude.Rows.{select_one}
use lightai_platform.Server.Tables.{Db, Task, task_is}
use lightai_platform.Server.Exec.{Result, ok, err, internal, Exec, next}

-- a handler that may still wait when the schedule is over: then it is `none`
abbrev pub Waiting : Type 0 → Type 0
Waiting A = Db → Option (Result A × Db)

-- What the other requests do before the read, whether the deadline has passed at it, and the clock.
pub record Turn : Type 0 where
  pub meanwhile : Db → Db
  pub expired : Bool
  pub now : ℕ

abbrev pub then_settle : {A B : Type 0} → Result A × Db → (A → Waiting B) → Option (Result B × Db)
then_settle (ok a, db) f = f a db
then_settle (err e, db) f = some (err e, db)

-- the statements of a handler up to the loop, and the loop
abbrev pub then_wait : {A B : Type 0} → Exec A → (A → Waiting B) → Waiting B
then_wait m f db = then_settle (m db) f

abbrev pub at_once : {A : Type 0} → Exec A → Waiting A
at_once m db = some (m db)

module _ {A : Type 0} (answer : ℕ → Task → Option (Exec A)) (give_up : ℕ → Exec A)
    (id : String) where
  -- what the row of the task says: an answer, or one more round
  abbrev turn : Turn → Option Task → Db → Waiting A → Option (Result A × Db)
  turn r none db more = some (err (internal "no rows returned"), db)
  turn r (some t) db more = elim (answer r.now t) [
    | some m ↦ some (m db)
    | none ↦ if r.expired then some (give_up r.now db) else more db
  ]

  unfoldable pub wait_for_task : List Turn → Waiting A
  wait_for_task [] db = none
  wait_for_task (r ∷ rs) db =
      let read = r.meanwhile db in
      turn r (select_one (task_is id) read.agent_tasks) read (wait_for_task rs)

  turn_expired :
      (r : Turn) (o : Option Task) (db : Db) (more : Waiting A)
      → r.expired ≡ true
      → turn r o db more ≢ none
  turn_expired r o db more x e = ground arith

  turn_more :
      (r : Turn) (o : Option Task) (db : Db) (more : Waiting A)
      → turn r o db more ≡ none
      → more db ≡ none
  turn_more r o db more e = ground arith

  -- A wait ends: if the deadline has passed in some round, there is an answer or an error, whatever
  -- the other requests do.
  pub wait_ends :
      (rs : List Turn) (db : Db) → any (λ r. r.expired) rs ≡ true → wait_for_task rs db ≢ none
  unfolding wait_for_task any
  wait_ends [] db h e = cc
  wait_ends (r ∷ rs) db h e =
      let read = r.meanwhile db in
      let row = select_one (task_is id) read.agent_tasks in
      elim (Bool-cases r.expired) [
        | inl x ↦ turn_expired r row read (wait_for_task rs) x e
        | inr x ↦ wait_ends rs read (ground arith) (turn_more r row read (wait_for_task rs) e)
      ]

settle_ends :
    {A B : Type 0} (r : Result A × Db) (f : A → Waiting B)
    → ((a : A) (d : Db) → f a d ≢ none)
    → then_settle r f ≢ none
settle_ends (ok a, d) f h k = h a d k
settle_ends (err x, d) f h k = cc

-- A handler does not wait for ever if what follows its statements does not.
pub then_wait_ends :
    {A B : Type 0} (m : Exec A) (f : A → Waiting B) (db : Db)
    → ((a : A) (d : Db) → f a d ≢ none)
    → then_wait m f db ≢ none
then_wait_ends m f db h = settle_ends (m db) f h

-- `m` is awaited, and then some statements run
abbrev pub then_do : {A B : Type 0} → Waiting A → (A → Exec B) → Waiting B
then_do m f db = map_option (λ r. next r f) (m db)

-- A handler that ends, with an answer or an error, from every database; and a rule for each way to
-- build one.
pub record Ends {A : Type 0} (m : Waiting A) : Type 0 where
  pub at : (db : Db) → m db ≢ none

module _ {A B : Type 0} where
  pub Ends-then_wait :
      (m : Exec A) (f : A → Waiting B) → ((a : A) → Ends (f a)) → Ends (then_wait m f)
  Ends-then_wait m f h = record { at = λ db. then_wait_ends m f db (λ a d. (h a).at d) }

  then_do_ends :
      (o : Option (Result A × Db)) (f : A → Exec B) → o ≢ none → map_option (λ r. next r f) o ≢ none
  then_do_ends none f h e = h refl
  then_do_ends (some r) f h e = cc

  pub Ends-then_do : (m : Waiting A) (f : A → Exec B) → Ends m → Ends (then_do m f)
  Ends-then_do m f h = record { at = λ db. then_do_ends (m db) f (h.at db) }

module _ {A : Type 0} where
  pub Ends-at_once : (m : Exec A) → Ends (at_once m)
  Ends-at_once m = record { at = λ db e. cc }

  pub Ends-if : (b : Bool) (m n : Waiting A) → Ends m → Ends n → Ends (if b then m else n)
  Ends-if true m n hm hn = hm
  Ends-if false m n hm hn = hn

  -- The deadline passes in some round.
  pub Ends-wait :
      (answer : ℕ → Task → Option (Exec A)) (give_up : ℕ → Exec A) (id : String) (rs : List Turn)
      → any (λ r. r.expired) rs ≡ true
      → Ends (wait_for_task answer give_up id rs)
  Ends-wait answer give_up id rs late = record { at = λ db. wait_ends answer give_up id rs db late }

pub ruleset ends = (Ends-then_wait, Ends-then_do, Ends-at_once, Ends-if, Ends-wait)
