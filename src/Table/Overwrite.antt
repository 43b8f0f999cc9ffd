-- ===== src/Table/Overwrite.antt =====
-- A row that an upsert writes is the row found afterwards.
use css360_syllabus_bot.Prelude.{
  ◌≡◌, refl, ◌∙◌, Bool, true, false, some, List, [], ◌∷◌, any, arith, if◌then◌else◌, Bool-cases,
  inl, inr,
}
use css360_syllabus_bot.Table.{find, update, insert}
use css360_syllabus_bot.Table.Laws.{find-insert, find-none-count}
use css360_syllabus_bot.Table.Members.{any-false-count}

module _ {Row : Type 0} where
  pub find-overwrite :
      (test : Row → Bool) (row : Row) (rows : List Row)
      → test row ≡ true
      → any test rows ≡ true
      → find test (update test (λ _. row) rows) ≡ some row
  unfolding find update
  find-overwrite test row [] own there = cc
  find-overwrite test row (x ∷ rows) own there = elim (Bool-cases (test x)) [
    | inl here ↦ rw (here, own) refl
    | inr other ↦ rw (other, other) (find-overwrite test row rows own (ground arith))
  ]

  -- INSERT ... ON CONFLICT DO UPDATE of every column.
  pub find-upsert :
      (test : Row → Bool) (row : Row) (rows : List Row)
      → test row ≡ true
      → find test (if any test rows then update test (λ _. row) rows else insert row rows)
        ≡ some row
  find-upsert test row rows own = elim (Bool-cases (any test rows)) [
    | inl there ↦ rw there (find-overwrite test row rows own there)
    | inr missing ↦ rw missing (
        find-insert test row rows (find-none-count test rows (any-false-count test rows missing))
        ∙ rw own refl)
  ]

  overwrite_other :
      (test key : Row → Bool) (row : Row) (rows : List Row)
      → test row ≡ false
      → ((x : Row) → key x ≡ true → test x ≡ false)
      → find test (update key (λ _. row) rows) ≡ find test rows
  unfolding find update
  overwrite_other test key row [] other apart = refl
  overwrite_other test key row (x ∷ rows) other apart = elim (Bool-cases (key x)) [
    | inl hit ↦ rw (hit, other, apart x hit) (overwrite_other test key row rows other apart)
    | inr miss ↦ rw (miss, overwrite_other test key row rows other apart) refl
  ]

  insert_other :
      (test : Row → Bool) (row : Row) (rows : List Row)
      → test row ≡ false
      → find test (insert row rows) ≡ find test rows
  unfolding find insert
  insert_other test row [] other = rw other refl
  insert_other test row (x ∷ rows) other = rw (insert_other test row rows other) refl

  -- An upsert changes no row under another key.
  pub find-upsert_other :
      (test key : Row → Bool) (row : Row) (rows : List Row)
      → test row ≡ false
      → ((x : Row) → key x ≡ true → test x ≡ false)
      → find test (if any key rows then update key (λ _. row) rows else insert row rows)
        ≡ find test rows
  find-upsert_other test key row rows other apart = elim (Bool-cases (any key rows)) [
    | inl there ↦ rw there (overwrite_other test key row rows other apart)
    | inr missing ↦ rw missing (insert_other test row rows other)
  ]
