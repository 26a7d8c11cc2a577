-- ===== src/Server/Waiting/Yields.antt =====
-- What holds of the answer of a handler that waits and of the database that it leaves, whatever other
-- requests do meanwhile.
use lightai_platform.Prelude.{
  ℕ, String, ◌≡◌, refl, subst, ◌==◌, Bool, true, false, Option, none, some, List, [], ◌∷◌,
  if◌then◌else◌, arith, map_option,
}
use lightai_platform.Prelude.Rows.{select_one}
use lightai_platform.Server.Tables.{Db, Task, task_is}
use lightai_platform.Server.Exec.{Result, ok, err, DomainError, Exec, pure, fail, next, ◌>>=◌}
use lightai_platform.Server.TaskRequest.{answer_of}
use lightai_platform.Server.Waiting.{
  Waiting, Turn, then_wait, then_settle, then_do, at_once, wait_for_task, turn,
}

-- Statements whose answers, with the database that they leave, satisfy `P`.
pub record Replies {A : Type 0} (P : A → Db → Type 0) (m : Exec A) : Type 0 where
  pub at : (db : Db) (a : A) (d : Db) → m db ≡ (ok a, d) → P a d

-- A handler whose answers, with the database that it leaves, satisfy `P`.
pub record Yields {A : Type 0} (P : A → Db → Type 0) (m : Waiting A) : Type 0 where
  pub at : (db : Db) (a : A) (d : Db) → m db ≡ some (ok a, d) → P a d

module _ {A : Type 0} (P : A → Db → Type 0) where
  pub Replies-fail : (e : DomainError) → Replies P (fail e)
  Replies-fail e = record { at = λ db a d h. cc }

  pub Replies-pure : (a : A) → ((d : Db) → P a d) → Replies P (pure a)
  Replies-pure a p = record { at = λ db b d h. subst (λ x. P x d) (cc) (p d) }

  pub Replies-if :
      (b : Bool) (m n : Exec A) → Replies P m → Replies P n → Replies P (if b then m else n)
  Replies-if true m n hm hn = hm
  Replies-if false m n hm hn = hn

  module _ {B : Type 0} where
    next_replies :
        (r : Result B × Db) (f : B → Exec A) (a : A) (d : Db)
        → ((b : B) → Replies P (f b))
        → next r f ≡ (ok a, d)
        → P a d
    next_replies (ok b, d') f a d h e = (h b).at d' a d e
    next_replies (err x, d') f a d h e = cc

    pub Replies-bind :
        (m : Exec B) (f : B → Exec A) → ((b : B) → Replies P (f b)) → Replies P (m >>= f)
    Replies-bind m f h = record { at = λ db a d e. next_replies (m db) f a d h e }

    settled_yields :
        (r : Result B × Db) (f : B → Waiting A) (a : A) (d : Db)
        → ((b : B) → Yields P (f b))
        → then_settle r f ≡ some (ok a, d)
        → P a d
    settled_yields (ok b, d') f a d h e = (h b).at d' a d e
    settled_yields (err x, d') f a d h e = cc

    pub Yields-then_wait :
        (m : Exec B) (f : B → Waiting A) → ((b : B) → Yields P (f b)) → Yields P (then_wait m f)
    Yields-then_wait m f h = record { at = λ db a d e. settled_yields (m db) f a d h e }

    done_yields :
        (Q : B → Db → Type 0) (o : Option (Result B × Db)) (f : B → Exec A) (a : A) (d : Db)
        → ((b : B) (d' : Db) → o ≡ some (ok b, d') → Q b d')
        → ((b : B) (d' : Db) → Q b d' → f b d' ≡ (ok a, d) → P a d)
        → map_option (λ r. next r f) o ≡ some (ok a, d)
        → P a d
    done_yields Q none f a d q h e = cc
    done_yields Q (some (ok b, d')) f a d q h e = h b d' (q b d' refl) (ground (arith, e))
    done_yields Q (some (err x, d')) f a d q h e = cc

    -- What is known of the answer of the wait, the statements after it may use.
    pub Yields-then_do :
        (Q : B → Db → Type 0) (m : Waiting B) (f : B → Exec A)
        → Yields Q m
        → ((b : B) (d' : Db) (a : A) (d : Db) → Q b d' → f b d' ≡ (ok a, d) → P a d)
        → Yields P (then_do m f)
    Yields-then_do Q m f q h = record {
      at = λ db a d e. done_yields Q (m db) f a d (q.at db) (λ b d'. h b d' a d) e;
    }

  once_yields :
      (m : Exec A) (db : Db) (a : A) (d : Db) → Replies P m → some (m db) ≡ some (ok a, d) → P a d
  once_yields m db a d h e = h.at db a d (ground (arith, e))

  pub Yields-at_once : (m : Exec A) → Replies P m → Yields P (at_once m)
  Yields-at_once m h = record { at = λ db a d e. once_yields m db a d h e }

  pub Yields-if :
      (b : Bool) (m n : Waiting A) → Yields P m → Yields P n → Yields P (if b then m else n)
  Yields-if true m n hm hn = hm
  Yields-if false m n hm hn = hn

  -- The answer to a task is one of the three that its status chooses from.
  answer_cases :
      (x y z m : Exec A) (b c d : Bool)
      → Replies P x
      → Replies P y
      → Replies P z
      → (if b then some x else if c then some y else if d then some z else none) ≡ some m
      → Replies P m
  answer_cases x y z m true c d hx hy hz e = subst (Replies P) (cc) hx
  answer_cases x y z m false true d hx hy hz e = subst (Replies P) (cc) hy
  answer_cases x y z m false false true hx hy hz e = subst (Replies P) (cc) hz
  answer_cases x y z m false false false hx hy hz e = cc

  pub Replies-answer_of :
      (t : Task) (x y z m : Exec A)
      → Replies P x
      → Replies P y
      → Replies P z
      → answer_of t x y z ≡ some m
      → Replies P m
  Replies-answer_of t x y z m hx hy hz e =
      answer_cases x y z m (t.status == "succeeded") (t.status == "failed")
        (t.status == "timed_out") hx hy hz e

  module _ (answer : ℕ → Task → Option (Exec A)) (give_up : ℕ → Exec A) (id : String)
      (answers : (n : ℕ) (t : Task) (m : Exec A) → answer n t ≡ some m → Replies P m)
      (gives_up : (n : ℕ) → Replies P (give_up n)) where
    answer_yields :
        (r : Turn) (t : Task) (db : Db) (more : Waiting A) (a : A) (d : Db)
        → ((d' : Db) → more d' ≡ some (ok a, d) → P a d)
        → (o : Option (Exec A)) (late : Bool) → answer r.now t ≡ o
        → elim o [ some m ↦ some (m db) | none ↦ if late then some (give_up r.now db) else more db ]
          ≡ some (ok a, d)
        → P a d
    answer_yields r t db more a d h (some m) late found e =
        once_yields m db a d (answers r.now t m found) e
    answer_yields r t db more a d h none true found e =
        once_yields (give_up r.now) db a d (gives_up r.now) e
    answer_yields r t db more a d h none false found e = h db e

    turn_yields :
        (r : Turn) (o : Option Task) (db : Db) (more : Waiting A) (a : A) (d : Db)
        → ((d' : Db) → more d' ≡ some (ok a, d) → P a d)
        → turn answer give_up id r o db more ≡ some (ok a, d)
        → P a d
    turn_yields r none db more a d h e = cc
    turn_yields r (some t) db more a d h e =
        answer_yields r t db more a d h (answer r.now t) r.expired refl e

    wait_yields :
        (rs : List Turn) (db : Db) (a : A) (d : Db)
        → wait_for_task answer give_up id rs db ≡ some (ok a, d)
        → P a d
    unfolding wait_for_task
    wait_yields [] db a d e = cc
    wait_yields (r ∷ rs) db a d e =
        let read = r.meanwhile db in
        turn_yields r (select_one (task_is id) read.agent_tasks) read
          (wait_for_task answer give_up id rs) a d (λ d' k. wait_yields rs d' a d k) e

    pub Yields-wait : (rs : List Turn) → Yields P (wait_for_task answer give_up id rs)
    Yields-wait rs = record { at = wait_yields rs }

pub ruleset replies = (Replies-fail, Replies-pure, Replies-if, Replies-bind)

pub ruleset yields = (replies, Yields-then_wait, Yields-at_once, Yields-if, Yields-wait)
