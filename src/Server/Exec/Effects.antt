-- ===== src/Server/Exec/Effects.antt =====
-- Two effects of a handler, with a rule for each way to build one: it only reads, or it leaves the
-- database as it was when it fails.
use lightai_platform.Prelude.{
  ◌≡◌, refl, ap, sym, subst, ◌∙◌, ◌⊎◌, inl, inr, Bool, true, false, Option, none, some,
  if◌then◌else◌,
}
use lightai_platform.Server.Tables.{Db}
use lightai_platform.Server.Exec.{
  Result, ok, err, DomainError, Exec, reply, after, pure, fail, gets, modify, need, refuse_if,
  transaction, settle, next, ◌>>=◌,
}
use lightai_platform.Server.Exec.Laws.{transaction_error, next_inv}

pub record ReadOnly {A : Type 0} (m : Exec A) : Type 0 where
  pub at : (db : Db) → after m db ≡ db

pub record Atomic {A : Type 0} (m : Exec A) : Type 0 where
  pub at : (db : Db) (e : DomainError) → reply m db ≡ err e → after m db ≡ db

module _ {A : Type 0} where
  pub ReadOnly-pure : (a : A) → ReadOnly (pure a)
  ReadOnly-pure a = record { at = λ db. refl }

  pub ReadOnly-fail : (e : DomainError) → ReadOnly (fail {A = A} e)
  ReadOnly-fail e = record { at = λ db. refl }

  pub ReadOnly-gets : (f : Db → A) → ReadOnly (gets f)
  ReadOnly-gets f = record { at = λ db. refl }

  pub ReadOnly-need : (o : Option A) (e : DomainError) → ReadOnly (need o e)
  ReadOnly-need none e = record { at = λ db. refl }
  ReadOnly-need (some a) e = record { at = λ db. refl }

  pub ReadOnly-if :
      (b : Bool) (m n : Exec A) → ReadOnly m → ReadOnly n → ReadOnly (if b then m else n)
  ReadOnly-if true m n hm hn = hm
  ReadOnly-if false m n hm hn = hn

  pub Atomic-read : (m : Exec A) → ReadOnly m → Atomic m
  Atomic-read m h = record { at = λ db e _. h.at db }

  pub Atomic-transaction : (m : Exec A) → Atomic (transaction m)
  Atomic-transaction m = record { at = transaction_error m }

  pub Atomic-if : (b : Bool) (m n : Exec A) → Atomic m → Atomic n → Atomic (if b then m else n)
  Atomic-if true m n hm hn = hm
  Atomic-if false m n hm hn = hn

pub ReadOnly-refuse_if : (b : Bool) (e : DomainError) → ReadOnly (refuse_if b e)
ReadOnly-refuse_if true e = record { at = λ db. refl }
ReadOnly-refuse_if false e = record { at = λ db. refl }

pub Atomic-modify : (f : Db → Db) → Atomic (modify f)
Atomic-modify f = record { at = λ db e h. cc }

-- What a handler that only reads comes to.
pub read_cases :
    {A : Type 0} (m : Exec A) (db : Db)
    → ReadOnly m
    → ((a : A) × (m db ≡ (ok a, db))) ⊎ ((e : DomainError) × (m db ≡ (err e, db)))
read_cases m db h = pair_cases (m db) db (h.at db)
  where
    pair_cases :
        {A : Type 0} (r : Result A × Db) (db : Db)
        → r.1 ≡ db
        → ((a : A) × (r ≡ (ok a, db))) ⊎ ((e : DomainError) × (r ≡ (err e, db)))
    pair_cases (ok a, x) db e = inl (a, ap (λ y. (ok a, y)) e)
    pair_cases (err k, x) db e = inr (k, ap (λ y. (err k, y)) e)

module _ {A B : Type 0} where
  next_read : (r : Result A × Db) (f : A → Exec B) → ((a : A) → ReadOnly (f a)) → (next r f).1 ≡ r.1
  next_read (ok a, db) f h = (h a).at db
  next_read (err e, db) f h = refl

  next-Atomic :
      (r : Result A × Db) (f : A → Exec B) (e : DomainError)
      → ((a : A) → Atomic (f a))
      → (next r f).0 ≡ err e
      → (next r f).1 ≡ r.1
  next-Atomic (ok a, db) f e h k = (h a).at db e k
  next-Atomic (err x, db) f e h k = refl

  pub ReadOnly-bind :
      (m : Exec A) (f : A → Exec B) → ReadOnly m → ((a : A) → ReadOnly (f a)) → ReadOnly (m >>= f)
  ReadOnly-bind m f hm hf = record { at = λ db. next_read (m db) f hf ∙ hm.at db }

  pub Atomic-bind :
      (m : Exec A) (f : A → Exec B) → ReadOnly m → ((a : A) → Atomic (f a)) → Atomic (m >>= f)
  Atomic-bind m f hm hf = record { at = λ db e h. next-Atomic (m db) f e hf h ∙ hm.at db }

pub ruleset reads = (
  ReadOnly-pure, ReadOnly-fail, ReadOnly-gets, ReadOnly-need, ReadOnly-if, ReadOnly-refuse_if,
  ReadOnly-bind,
)

pub ruleset atomic = (reads, Atomic-read, Atomic-transaction, Atomic-if, Atomic-modify, Atomic-bind)

-- Statements that keep a property of the database, also when they fail on the way.
pub record Keeps {A : Type 0} (P : Db → Type 0) (m : Exec A) : Type 0 where
  pub at : (db : Db) → P db → P (after m db)

module _ (P : Db → Type 0) where
  pub Keeps-modify : (f : Db → Db) → ((db : Db) → P db → P (f db)) → Keeps P (modify f)
  Keeps-modify f h = record { at = h }

  pub Keeps-read : {A : Type 0} (m : Exec A) → ReadOnly m → Keeps P m
  Keeps-read m h = record { at = λ db p. subst P (sym (h.at db)) p }

  pub Keeps-if :
      {A : Type 0} (b : Bool) (m n : Exec A) → Keeps P m → Keeps P n → Keeps P (if b then m else n)
  Keeps-if true m n hm hn = hm
  Keeps-if false m n hm hn = hn

  pub Keeps-bind :
      {A B : Type 0} (m : Exec A) (f : A → Exec B)
      → Keeps P m
      → ((a : A) → Keeps P (f a))
      → Keeps P (m >>= f)
  Keeps-bind m f hm hf = record {
    at = λ db p. next_inv P (m db) f (hm.at db p) (λ a d. (hf a).at d);
  }

  settle_keeps : {A : Type 0} (db : Db) (r : Result A × Db) → P db → P r.1 → P (settle db r).1
  settle_keeps db (ok a, d) p q = q
  settle_keeps db (err e, d) p q = p

  pub Keeps-transaction : {A : Type 0} (m : Exec A) → Keeps P m → Keeps P (transaction m)
  Keeps-transaction m h = record { at = λ db p. settle_keeps db (m db) p (h.at db p) }

pub ruleset keeps = (reads, Keeps-read, Keeps-if, Keeps-bind, Keeps-transaction)
