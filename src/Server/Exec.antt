-- ===== src/Server/Exec.antt =====
-- A handler of the server: it runs statements on the database and returns a value or a
-- `DomainError` (server/src/domain/support.rs). What was written before an error stays written,
-- unless it was written in a transaction.
pub mod Laws
pub mod Effects
use lightai_platform.Prelude.{
  ◌≡◌, refl, String, Bool, true, false, Option, none, some, List, map, if◌then◌else◌,
}
use lightai_platform.Server.Tables.{Db}

pub data DomainError : Type 0 where
  bad_request not_found conflict internal : String → DomainError

pub data Result {ℓ} (A : Type ℓ) : Type ℓ where
  ok : A → Result A
  err : DomainError → Result A

abbrev pub Exec : Type 0 → Type 0
Exec A = Db → Result A × Db

-- the value that a call returns, and the database that it leaves
abbrev pub reply : {A : Type 0} → Exec A → Db → Result A
reply m db = (m db).0

abbrev pub after : {A : Type 0} → Exec A → Db → Db
after m db = (m db).1

abbrev pub pure : {A : Type 0} → A → Exec A
pure a db = (ok a, db)

abbrev pub fail : {A : Type 0} → DomainError → Exec A
fail e db = (err e, db)

abbrev pub lift : {A : Type 0} → Result A → Exec A
lift r db = (r, db)

-- a query, and an update of the whole database
abbrev pub gets : {A : Type 0} → (Db → A) → Exec A
gets f db = (ok (f db), db)

abbrev pub modify : (Db → Db) → Exec Unit
modify f db = (ok tt, f db)

abbrev pub next : {A B : Type 0} → Result A × Db → (A → Exec B) → Result B × Db
next (ok a, db) f = f a db
next (err e, db) f = (err e, db)

infixl 5 ◌>>=◌ ◌>>◌
abbrev pub ◌>>=◌ : {A B : Type 0} → Exec A → (A → Exec B) → Exec B
◌>>=◌ m f db = next (m db) f

abbrev pub ◌>>◌ : {B : Type 0} → Exec Unit → Exec B → Exec B
m >> k = m >>= λ _. k

-- `.ok_or_else(|| error)?`
abbrev pub need : {A : Type 0} → Option A → DomainError → Exec A
need none e = fail e
need (some a) e = pure a

-- `if test { return Err(error) }`
abbrev pub refuse_if : Bool → DomainError → Exec Unit
refuse_if true e = fail e
refuse_if false e = pure tt

abbrev pub settle : {A : Type 0} → Db → Result A × Db → Result A × Db
settle before (ok a, db) = (ok a, db)
settle before (err e, db) = (err e, before)

-- `pool.begin()` to `tx.commit()`: an error in between rolls back
abbrev pub transaction : {A : Type 0} → Exec A → Exec A
transaction m db = settle db (m db)
