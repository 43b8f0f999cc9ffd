-- ===== src/Table/Laws.antt =====
-- What the statements do to counts and look-ups.
use mathlib.Core.Option
use css360_syllabus_bot.Prelude.{
  ◌+◌, ◌≤◌, ◌≡◌, refl, Bool, true, none, some, List, [], ◌∷◌, arith, Bool-cases, if◌then◌else◌, inl,
  inr,
}
use css360_syllabus_bot.Table.{find, update, insert, count}

module _ {Row : Type 0} where
  -- An inserted row is counted once, where the test holds of it.
  pub count-insert :
      (test : Row → Bool) (row : Row) (rows : List Row)
      → count test (insert row rows) ≡ count test rows + (if test row then 1 else 0)
  unfolding count insert
  count-insert test row [] = ground arith
  count-insert test row (x ∷ rows) = ground (arith, count-insert test row rows)

  -- A row that is found makes the count positive.
  pub count-find :
      (test : Row → Bool) (rows : List Row) (row : Row)
      → find test rows ≡ some row
      → 1 ≤ count test rows
  unfolding count find
  count-find test [] row h = ground arith
  count-find test (x ∷ rows) row h = ground (arith, count-find test rows row)

  pub find-none-count :
      (test : Row → Bool) (rows : List Row) → count test rows ≡ 0 → find test rows ≡ none
  unfolding count find
  find-none-count test [] h = refl
  find-none-count test (x ∷ rows) h = ground (arith, find-none-count test rows)

  pub count-find-none :
      (test : Row → Bool) (rows : List Row) → find test rows ≡ none → count test rows ≡ 0
  unfolding count find
  count-find-none test [] h = refl
  count-find-none test (x ∷ rows) h = ground (arith, count-find-none test rows)

  -- What is found passes the test.
  pub find_passes :
      (test : Row → Bool) (rows : List Row) (row : Row)
      → find test rows ≡ some row
      → test row ≡ true
  unfolding find
  find_passes test [] row h = ground arith
  find_passes test (x ∷ rows) row h = ground (arith, find_passes test rows row)

  -- An update that keeps a test's outcome keeps its count.
  pub count-update_same :
      (test key : Row → Bool) (change : Row → Row) (rows : List Row)
      → ((row : Row) → test (change row) ≡ test row)
      → count test (update key change rows) ≡ count test rows
  unfolding count update
  count-update_same test key change [] same = refl
  count-update_same test key change (x ∷ rows) same =
      ground (arith, same x, count-update_same test key change rows same)

  -- An update of no row changes nothing.
  pub update_none :
      (key : Row → Bool) (change : Row → Row) (rows : List Row)
      → count key rows ≡ 0
      → update key change rows ≡ rows
  unfolding count update
  update_none key change [] h = refl
  update_none key change (x ∷ rows) h = ground (arith, update_none key change rows)

  -- Where the key is unique and the row that it finds passes the test if the changed row does, an
  -- update adds nothing to the count.
  pub count-update-le :
      (test key : Row → Bool) (change : Row → Row) (rows : List Row) (row : Row)
      → count key rows ≤ 1
      → find key rows ≡ some row
      → (test (change row) ≡ true → test row ≡ true)
      → count test (update key change rows) ≤ count test rows
  unfolding count find update
  count-update-le test key change [] row unique found keeps = ground arith
  count-update-le test key change (x ∷ rows) row unique found keeps = elim (Bool-cases (key x)) [
    | inl here ↦ ground (arith, update_none key change rows)
    | inr there ↦ ground (arith, count-update-le test key change rows row)
  ]

  -- A look-up after an update that keeps the look-up's test.
  pub find-update :
      (test key : Row → Bool) (change : Row → Row) (rows : List Row)
      → ((row : Row) → test (change row) ≡ test row)
      → find test (update key change rows)
        ≡ Option.map (λ row. if key row then change row else row) (find test rows)
  unfolding find update
  find-update test key change [] same = refl
  find-update test key change (x ∷ rows) same =
      ground (arith, same x, find-update test key change rows same)

  -- A look-up after an insertion.
  pub find-insert :
      (test : Row → Bool) (row : Row) (rows : List Row)
      → find test rows ≡ none
      → find test (insert row rows) ≡ (if test row then some row else none)
  unfolding find insert
  find-insert test row [] h = refl
  find-insert test row (x ∷ rows) h = ground (arith, find-insert test row rows)

  pub find-insert_old :
      (test : Row → Bool) (row : Row) (rows : List Row) (old : Row)
      → find test rows ≡ some old
      → find test (insert row rows) ≡ some old
  unfolding find insert
  find-insert_old test row [] old h = ground arith
  find-insert_old test row (x ∷ rows) old h = ground (arith, find-insert_old test row rows old)
