-- ===== src/Table/Both.antt =====
-- A look-up by a unique key and a further condition, and updates that keep a condition of all rows.
use css360_syllabus_bot.Prelude.{
  ◌≤◌, ◌≡◌, refl, Bool, true, false, ◌&&◌, Option, none, some, List, [], ◌∷◌, arith, Bool-cases,
  if◌then◌else◌, inl, inr,
}
use css360_syllabus_bot.Table.{find, update, count}
use css360_syllabus_bot.Table.Laws.{find-none-count}

module _ {Row : Type 0} where
  -- What is found by a key, where it meets the condition.
  abbrev pub if_meets : (Row → Bool) → Option Row → Option Row
  if_meets condition none = none
  if_meets condition (some row) = if condition row then some row else none

  pub count-both :
      (key condition : Row → Bool) (rows : List Row)
      → count key rows ≡ 0
      → count (λ row. key row && condition row) rows ≡ 0
  unfolding count
  count-both key condition [] h = refl
  count-both key condition (x ∷ rows) h = ground (arith, count-both key condition rows)

  pub find-both :
      (key condition : Row → Bool) (rows : List Row)
      → count key rows ≤ 1
      → find (λ row. key row && condition row) rows ≡ if_meets condition (find key rows)
  unfolding find count
  find-both key condition [] u = refl
  find-both key condition (x ∷ rows) u = elim (Bool-cases (key x)) [
    | inl here ↦ elim (Bool-cases (condition x)) [
      | inl meets ↦ rw (here, meets) refl
      | inr fails ↦
          let none_more =
            find-none-count (λ row. key row && condition row) rows
              (count-both key condition rows (ground arith)) in
          rw (here, fails) none_more
    ]
    | inr other ↦ rw other (find-both key condition rows (ground arith))
  ]

  -- Where no row passes the test and the change of no row that it reaches makes it pass, none passes.
  pub count-update_none :
      (test key : Row → Bool) (change : Row → Row) (rows : List Row)
      → ((row : Row) → key row ≡ true → test row ≡ false → test (change row) ≡ false)
      → count test rows ≡ 0
      → count test (update key change rows) ≡ 0
  unfolding count update
  count-update_none test key change [] keeps h = refl
  count-update_none test key change (x ∷ rows) keeps h =
      ground (arith, keeps x, count-update_none test key change rows keeps)

  -- Where the change of a row makes the test fail, no row passes after the change of those that pass.
  pub count-update_cleared :
      (test : Row → Bool) (change : Row → Row) (rows : List Row)
      → ((row : Row) → test (change row) ≡ false)
      → count test (update test change rows) ≡ 0
  unfolding count update
  count-update_cleared test change [] clears = refl
  count-update_cleared test change (x ∷ rows) clears =
      ground (arith, clears x, count-update_cleared test change rows clears)

  -- Where the change makes the test fail for the rows of the key, and only those could pass, none does.
  pub count-update_keyed :
      (test key : Row → Bool) (change : Row → Row) (rows : List Row)
      → ((row : Row) → key row ≡ true → test (change row) ≡ false)
      → ((row : Row) → key row ≡ false → test row ≡ false)
      → count test (update key change rows) ≡ 0
  unfolding count update
  count-update_keyed test key change [] clears others = refl
  count-update_keyed test key change (x ∷ rows) clears others =
      ground (arith, clears x, others x, count-update_keyed test key change rows clears others)
