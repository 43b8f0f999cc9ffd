-- ===== src/Table/Members.antt =====
-- The rows that a selection, an ordering and a look-up return.
use css360_syllabus_bot.Prelude.{
  ◌≤◌, ◌≡◌, ◌⊎◌, refl, Bool, true, false, some, List, [], ◌∷◌, any, arith, Bool-cases,
  if◌then◌else◌, inl, inr,
}
use css360_syllabus_bot.Table.{find, select, count, first_from, first}

module _ {Row : Type 0} where
  -- The row stands in the table.
  abbrev pub Elem : Row → List Row → Type 0
  Elem row [] = ⊥
  Elem row (x ∷ rows) = (x ≡ row) ⊎ Elem row rows

  pub any-false-count :
      (test : Row → Bool) (rows : List Row) → any test rows ≡ false → count test rows ≡ 0
  unfolding count
  any-false-count test [] h = refl
  any-false-count test (x ∷ rows) h = ground (arith, any-false-count test rows)

  pub any-true-count :
      (test : Row → Bool) (rows : List Row) → any test rows ≡ true → 1 ≤ count test rows
  unfolding count
  any-true-count test [] h = cc
  any-true-count test (x ∷ rows) h = ground (arith, any-true-count test rows)

  pub any_of_find :
      (test : Row → Bool) (rows : List Row) (row : Row)
      → find test rows ≡ some row
      → any test rows ≡ true
  unfolding find
  any_of_find test [] row h = cc
  any_of_find test (x ∷ rows) row h = ground (arith, any_of_find test rows row)

  placed :
      (test : Row → Bool) (x row : Row) (rest : List Row) {Rest : Type 0}
      → test x ≡ true
      → (Elem row rest → Rest × (test row ≡ true))
      → (x ≡ row) ⊎ Elem row rest
      → ((x ≡ row) ⊎ Rest) × (test row ≡ true)
  placed test x row rest passes deeper (inl e) = (inl e, rw (← e) passes)
  placed test x row rest passes deeper (inr m) = let (inside, p) = deeper m in (inr inside, p)

  -- A row selected stands in the table and passes the test.
  pub Elem-select :
      (test : Row → Bool) (rows : List Row) (row : Row)
      → Elem row (select test rows)
      → Elem row rows × (test row ≡ true)
  unfolding select
  Elem-select test [] row h = absurd h
  Elem-select test (x ∷ rows) row h = elim (Bool-cases (test x)) [
    | inl passes ↦
        placed test x row (select test rows) passes (Elem-select test rows row) (rw passes at h)
    | inr fails ↦ let (e, p) = Elem-select test rows row (rw fails at h) in (inr e, p)
  ]

  chosen :
      (b : Bool) (x best row : Row) {Rest : Type 0}
      → ((if b then x else best) ≡ row) ⊎ Rest
      → (best ≡ row) ⊎ ((x ≡ row) ⊎ Rest)
  chosen true x best row (inl e) = inr (inl e)
  chosen false x best row (inl e) = inl e
  chosen b x best row (inr m) = inr (inr m)

  first_from-Elem :
      (before : Row → Row → Bool) (best : Row) (rows : List Row) (row : Row)
      → first_from before best rows ≡ row
      → (best ≡ row) ⊎ Elem row rows
  unfolding first_from
  first_from-Elem before best [] row h = inl h
  first_from-Elem before best (x ∷ rows) row h =
      chosen (before x best) x best row
        (first_from-Elem before (if before x best then x else best) rows row h)

  pub Elem-first :
      (before : Row → Row → Bool) (rows : List Row) (row : Row)
      → first before rows ≡ some row
      → Elem row rows
  unfolding first
  Elem-first before [] row h = cc
  Elem-first before (x ∷ rows) row h = first_from-Elem before x rows row (cc)

  pub Elem-find :
      (test : Row → Bool) (rows : List Row) (row : Row) → find test rows ≡ some row → Elem row rows
  unfolding find
  Elem-find test [] row h = cc
  Elem-find test (x ∷ rows) row h = elim (Bool-cases (test x)) [
    | inl here ↦ inl (ground arith)
    | inr other ↦ inr (Elem-find test rows row (rw other at h))
  ]

  pub count-Elem :
      (test : Row → Bool) (rows : List Row) (row : Row)
      → Elem row rows
      → test row ≡ true
      → 1 ≤ count test rows
  unfolding count
  count-Elem test [] row h p = absurd h
  count-Elem test (x ∷ rows) row (inl e) p = ground arith
  count-Elem test (x ∷ rows) row (inr m) p = ground (arith, count-Elem test rows row m p)

  -- A unique key finds its row.
  pub find-Elem :
      (test : Row → Bool) (rows : List Row) (row : Row)
      → Elem row rows
      → test row ≡ true
      → count test rows ≤ 1
      → find test rows ≡ some row
  unfolding find count
  find-Elem test [] row h p u = absurd h
  find-Elem test (x ∷ rows) row (inl e) p u = ground arith
  find-Elem test (x ∷ rows) row (inr m) p u =
      ground (arith, count-Elem test rows row m p, find-Elem test rows row m p)
