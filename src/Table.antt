-- ===== src/Table.antt =====
-- The SQL statements of the repositories over one table, as functions on the list of its rows.
-- A row's key is a test here: `SELECT ... WHERE key`, `UPDATE ... WHERE key`.
pub mod Laws
pub mod Members
pub mod First
pub mod Overwrite
pub mod Both
use css360_syllabus_bot.Prelude.{
  ℕ, suc, Bool, Option, none, some, List, [], ◌∷◌, ◌++◌, if◌then◌else◌,
}

module _ {Row : Type 0} where
  -- SELECT ... WHERE test, one row.
  unfoldable pub find : (Row → Bool) → List Row → Option Row
  find test [] = none
  find test (row ∷ rows) = if test row then some row else find test rows

  -- SELECT ... WHERE test.
  unfoldable pub select : (Row → Bool) → List Row → List Row
  select test [] = []
  select test (row ∷ rows) = let rest = select test rows in if test row then row ∷ rest else rest

  -- UPDATE ... SET change WHERE test.
  unfoldable pub update : (Row → Bool) → (Row → Row) → List Row → List Row
  update test change [] = []
  update test change (row ∷ rows) = (if test row then change row else row) ∷ update test change rows

  -- INSERT.
  unfoldable pub insert : Row → List Row → List Row
  insert row rows = rows ++ row ∷ []

  -- SELECT count(*) WHERE test.
  unfoldable pub count : (Row → Bool) → List Row → ℕ
  count test [] = 0
  count test (row ∷ rows) = let n = count test rows in if test row then suc n else n

  unfoldable pub first_from : (Row → Row → Bool) → Row → List Row → Row
  first_from before best [] = best
  first_from before best (row ∷ rows) =
      first_from before (if before row best then row else best) rows

  -- ORDER BY before LIMIT 1.
  unfoldable pub first : (Row → Row → Bool) → List Row → Option Row
  unfolding first_from
  first before [] = none
  first before (row ∷ rows) = some (first_from before row rows)
