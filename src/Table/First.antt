-- ===== src/Table/First.antt =====
-- The row that `ORDER BY ... LIMIT 1` returns is the least.
use css360_syllabus_bot.Prelude.{
  ◌≡◌, ◌≤◌, ◌⊎◌, refl, Bool, true, false, some, List, [], ◌∷◌, arith, Bool-cases, if◌then◌else◌,
  inl, inr,
}
use css360_syllabus_bot.Table.{select, count, first_from, first}
use css360_syllabus_bot.Table.Members.{Elem, Elem-select, Elem-first}

module _ {Row : Type 0} where
  -- A row of the table that passes the test is selected.
  pub select-Elem :
      (test : Row → Bool) (rows : List Row) (row : Row)
      → Elem row rows
      → test row ≡ true
      → Elem row (select test rows)
  unfolding select
  select-Elem test [] row h p = absurd h
  select-Elem test (x ∷ rows) row (inl e) p = rw (e, p) (inl refl)
  select-Elem test (x ∷ rows) row (inr m) p = elim (Bool-cases (test x)) [
    | inl here ↦ rw here (inr (select-Elem test rows row m p))
    | inr fails ↦ rw fails (select-Elem test rows row m p)
  ]

  -- A strict order: no row stands before itself, and what stands before is before all that follow.
  pub record IsOrder (before : Row → Row → Bool) : Type 0 where
    pub irreflexive : (a : Row) → before a a ≡ false
    pub transitive : (a b c : Row) → before a b ≡ true → before b c ≡ true → before a c ≡ true

  first_from-keeps :
      (before : Row → Row → Bool) (best : Row) (rows : List Row) (row : Row)
      → IsOrder before
      → before row best ≡ false
      → before row (first_from before best rows) ≡ false
  unfolding first_from
  first_from-keeps before best [] row o h = h
  first_from-keeps before best (x ∷ rows) row o h =
      first_from-keeps before (if before x best then x else best) rows row o
        (ground (arith, o.transitive row x best))

  first_from-least :
      (before : Row → Row → Bool) (best : Row) (rows : List Row) (row : Row)
      → IsOrder before
      → (best ≡ row) ⊎ Elem row rows
      → before row (first_from before best rows) ≡ false
  unfolding first_from
  first_from-least before best rows row o (inl e) =
      first_from-keeps before best rows row o (rw (e, o.irreflexive row) refl)
  first_from-least before best [] row o (inr m) = absurd m
  first_from-least before best (x ∷ rows) row o (inr (inl e)) =
      first_from-keeps before (if before x best then x else best) rows row o
        (ground (arith, e, o.irreflexive row))
  first_from-least before best (x ∷ rows) row o (inr (inr m)) =
      first_from-least before (if before x best then x else best) rows row o (inr m)

  pub first-least :
      (before : Row → Row → Bool) (rows : List Row) (row best : Row)
      → IsOrder before
      → first before rows ≡ some best
      → Elem row rows
      → before row best ≡ false
  unfolding first
  first-least before [] row best o h m = absurd m
  first-least before (x ∷ rows) row best o h m =
      ground (arith, first_from-least before x rows row o m)

  select-some :
      (before : Row → Row → Bool) (test : Row → Bool) (rows : List Row)
      → 1 ≤ count test rows
      → (best : Row) × (first before (select test rows) ≡ some best)
  unfolding first select count
  select-some before test [] h = absurd (ground arith)
  select-some before test (x ∷ rows) h = elim (Bool-cases (test x)) [
    | inl here ↦ (first_from before x (select test rows), rw here refl)
    | inr fails ↦
        let (best, e) = select-some before test rows (rw fails at h) in (best, rw (fails, e) refl)
  ]

  -- Where some row passes the test, one is chosen, and it passes.
  pub first-select :
      (before : Row → Row → Bool) (test : Row → Bool) (rows : List Row)
      → 1 ≤ count test rows
      → (best : Row) × (first before (select test rows) ≡ some best)
        × (Elem best rows)
        × (test best ≡ true)
  first-select before test rows h =
      let (best, e) = select-some before test rows h in
      let (inside, passes) =
        Elem-select test rows best (Elem-first before (select test rows) best e) in
      (best, e, inside, passes)
