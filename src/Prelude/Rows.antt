-- ===== src/Prelude/Rows.antt =====
-- A table of the database as the list of its rows in order of insertion, and the statements that
-- the program runs on it: SELECT, UPDATE, DELETE and INSERT with a WHERE clause.
pub mod Laws
use Prim.Native.Nat.{ℕ}
use mathlib.Core.Bool.{Bool}
use mathlib.Core.Option.{Option, none, some}
use mathlib.Core.List.{List, [], ◌∷◌, ◌++◌}
use lightai_platform.Prelude.Tests.{leb, if◌then◌else◌}

module _ {ℓ} {A : Type ℓ} where
  -- SELECT * FROM t WHERE p, at most one row wanted
  unfoldable pub select_one : (A → Bool) → List A → Option A
  select_one p [] = none
  select_one p (r ∷ rs) = if p r then some r else select_one p rs

  -- SELECT * FROM t WHERE p
  unfoldable pub select : (A → Bool) → List A → List A
  select p [] = []
  select p (r ∷ rs) = let rest = select p rs in if p r then r ∷ rest else rest

  -- UPDATE t SET f WHERE p
  unfoldable pub update : (A → Bool) → (A → A) → List A → List A
  update p f [] = []
  update p f (r ∷ rs) = (if p r then f r else r) ∷ update p f rs

  -- DELETE FROM t WHERE p
  unfoldable pub delete : (A → Bool) → List A → List A
  delete p [] = []
  delete p (r ∷ rs) = let rest = delete p rs in if p r then rest else r ∷ rest

  -- INSERT INTO t VALUES r
  abbrev pub insert : A → List A → List A
  insert r rs = rs ++ r ∷ []

  -- the row with the smaller key, the earlier one where they are equal
  abbrev pub earlier : (A → ℕ) → A → Option A → A
  earlier key r none = r
  earlier key r (some s) = if leb (key r) (key s) then r else s

  -- SELECT * FROM t WHERE p ORDER BY key LIMIT 1
  unfoldable pub select_first : (A → Bool) → (A → ℕ) → List A → Option A
  select_first p key [] = none
  select_first p key (r ∷ rs) =
      let rest = select_first p key rs in if p r then some (earlier key r rest) else rest

  unfoldable pub insert_by : (A → A → Bool) → A → List A → List A
  insert_by before r [] = r ∷ []
  insert_by before r (s ∷ rs) =
      let rest = insert_by before r rs in if before r s then r ∷ s ∷ rs else s ∷ rest

  -- ORDER BY
  unfoldable pub sort_by : (A → A → Bool) → List A → List A
  unfolding insert_by
  sort_by before [] = []
  sort_by before (r ∷ rs) = insert_by before r (sort_by before rs)

  -- `rows.into_iter().next()`
  abbrev pub first : List A → Option A
  first [] = none
  first (r ∷ rs) = some r
