-- ===== src/Server/Exec/Laws.antt =====
-- Inversion of a sequence of statements.
use lightai_platform.Prelude.{◌≡◌, refl, arith, ◌⊎◌, inl, inr}
use lightai_platform.Server.Tables.{Db}
use lightai_platform.Server.Exec.{
  Result, ok, err, Exec, DomainError, next, transaction, reply, after,
}

-- A sequence that succeeds has a first part that succeeds.
pub next_ok :
    {A B : Type 0} (r : Result A × Db) (f : A → Exec B) {b : B}
    → (next r f).0 ≡ ok b
    → (a : A) × (r.0 ≡ ok a) × (next r f ≡ f a r.1)
next_ok (ok a, db) f h = (a, refl, refl)
next_ok (err e, db) f h = cc

-- A transaction that fails leaves the database as it was.
pub transaction_error :
    {A : Type 0} (m : Exec A) (db : Db) (e : DomainError)
    → reply (transaction m) db ≡ err e
    → after (transaction m) db ≡ db
transaction_error m db e h = ground arith

-- What a first part establishes and every continuation keeps holds in the end.
pub next_inv {ℓ} :
    {A B : Type 0} (P : Db → Type ℓ) (r : Result A × Db) (f : A → Exec B)
    → P r.1
    → ((a : A) (db : Db) → P db → P (f a db).1)
    → P (next r f).1
next_inv P (ok a, db) f h k = k a db h
next_inv P (err e, db) f h k = h

pub unit_cases : (r : Result (Unit {0})) → (r ≡ ok tt) ⊎ ((e : DomainError) × (r ≡ err e))
unit_cases (ok tt) = inl refl
unit_cases (err e) = inr (e, refl)
