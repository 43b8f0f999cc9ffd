-- ===== src/Training/Sound/Invariant.antt =====
-- Moves keep the invariant, lose no run, and leave a succeeded run succeeded.
use css360_syllabus_bot.Prelude.{
  ◌≡◌, refl, true, false, String, some, List, any, arith, string_eq, eq_iff, Bool-cases, inl, inr,
}
use css360_syllabus_bot.Table.{find, update, insert}
use css360_syllabus_bot.Table.Laws.{
  count-update_same, count-update-le, count-insert, find_passes, find-update, find-insert_old,
}
use css360_syllabus_bot.Table.Members.{any-false-count}
use css360_syllabus_bot.Training.Run.{RunState, TrainingRun}
use css360_syllabus_bot.Training.Runs.{has_key, is_outstanding}
use css360_syllabus_bot.Training.Sound.{
  IsSound, KeepsKey, ◌⟶◌, stays, requeues, is_taken, is_submitted, fails, succeeds, is_patched,
  ⟶-terminal, Moves, still, writes, queues,
}

pub same_key :
    (change : TrainingRun → TrainingRun)
    → KeepsKey change
    → (c r : String) (x : TrainingRun) → has_key c r (change x) ≡ has_key c r x
same_key change keeps c r x = rw ((keeps x).0, (keeps x).1)

write-IsSound :
    (rows : List TrainingRun) (course_id run_id : String) (change : TrainingRun → TrainingRun)
    (row : TrainingRun)
    → KeepsKey change
    → find (has_key course_id run_id) rows ≡ some row
    → row.state ⟶ (change row).state
    → IsSound rows
    → IsSound (update (has_key course_id run_id) change rows)
write-IsSound rows course_id run_id change row keeps found move s = record {
  keyed = λ c r.
      rw
        (count-update_same (has_key c r) (has_key course_id run_id) change rows
          (same_key change keeps c r))
        (s.keyed c r);
  one_outstanding = λ c. omega (
    arith,
    count-update-le (is_outstanding c) (has_key course_id run_id) change rows row
        (s.keyed course_id run_id) found (ground (arith, (keeps row).0, ⟶-terminal move)),
    s.one_outstanding c,
  );
}

pub insert-IsSound :
    (rows : List TrainingRun) (row : TrainingRun)
    → any (is_outstanding row.course_id) rows ≡ false
    → any (has_key row.course_id row.run_id) rows ≡ false
    → IsSound rows
    → IsSound (insert row rows)
insert-IsSound rows row idle free s = record {
  keyed = λ c r. ground (
    arith,
    count-insert (has_key c r) row rows,
    s.keyed c r,
    eq_iff row.course_id c,
    eq_iff row.run_id r,
    any-false-count (has_key row.course_id row.run_id) rows free,
  );
  one_outstanding = λ c. ground (
    arith,
    count-insert (is_outstanding c) row rows,
    s.one_outstanding c,
    eq_iff row.course_id c,
    any-false-count (is_outstanding row.course_id) rows idle,
  );
}

pub Moves-IsSound :
    {start rows : List TrainingRun} → Moves start rows → IsSound start → IsSound rows
Moves-IsSound still s = s
Moves-IsSound (writes {rows} c r change row m keeps job found move) s =
    write-IsSound rows c r change row keeps found move (Moves-IsSound m s)
Moves-IsSound (queues {rows} row m fresh idle free) s =
    insert-IsSound rows row idle free (Moves-IsSound m s)

⟶-succeeded : {s t : RunState} → s ⟶ t → s ≡ RunState.succeeded → t ≡ RunState.succeeded
⟶-succeeded stays h = h
⟶-succeeded (requeues u) h = ground arith
⟶-succeeded (is_taken u) h = ground arith
⟶-succeeded (is_submitted u) h = ground arith
⟶-succeeded (fails u) h = absurd (u h)
⟶-succeeded succeeds h = refl
⟶-succeeded (is_patched u) h = ground arith

-- The run under a key is there, and has succeeded.
abbrev pub HasSucceeded : String → String → List TrainingRun → Type 0
HasSucceeded course_id run_id rows =
    (row : TrainingRun) × (find (has_key course_id run_id) rows ≡ some row)
    × (row.state ≡ RunState.succeeded)

one_key :
    (c r c' r' : String) (x : TrainingRun)
    → has_key c r x ≡ true
    → has_key c' r' x ≡ true
    → (c ≡ c') × (r ≡ r')
one_key c r c' r' x h h' = (
  ground (arith, eq_iff x.course_id c, eq_iff x.course_id c'),
  ground (arith, eq_iff x.run_id r, eq_iff x.run_id r'),
)

-- A row found under two keys is the same row.
same_row :
    (rows : List TrainingRun) (c r c' r' : String) (old row : TrainingRun)
    → find (has_key c' r') rows ≡ some old
    → find (has_key c r) rows ≡ some row
    → has_key c r old ≡ true
    → old ≡ row
same_row rows c r c' r' old row there found same =
    let (e, e') = one_key c r c' r' old same (find_passes (has_key c' r') rows old there) in
    let here : find (has_key c' r') rows ≡ some row = rw (← e, ← e') found in cc

write-HasSucceeded :
    (rows : List TrainingRun) (c r course_id run_id : String) (change : TrainingRun → TrainingRun)
    (row : TrainingRun)
    → KeepsKey change
    → find (has_key c r) rows ≡ some row
    → row.state ⟶ (change row).state
    → HasSucceeded course_id run_id rows
    → HasSucceeded course_id run_id (update (has_key c r) change rows)
write-HasSucceeded rows c r course_id run_id change row keeps found move (old, there, done) =
    elim (Bool-cases (has_key c r old)) [
      | inl same ↦
          let e = same_row rows c r course_id run_id old row there found same in
          (
            change old,
            rw (
              find-update (has_key course_id run_id) (has_key c r) change rows
                  (same_key change keeps course_id run_id),
              there,
              same,
            ),
            rw e (⟶-succeeded move (rw (← e) done)),
          )
      | inr other ↦ (
        old,
        rw (
          find-update (has_key course_id run_id) (has_key c r) change rows
              (same_key change keeps course_id run_id),
          there,
          other,
        ),
        done,
      )
    ]

pub Moves-HasSucceeded :
    {start rows : List TrainingRun} (course_id run_id : String)
    → Moves start rows
    → HasSucceeded course_id run_id start
    → HasSucceeded course_id run_id rows
Moves-HasSucceeded c r still h = h
Moves-HasSucceeded c r (writes {rows} c' r' change row m keeps job found move) h =
    write-HasSucceeded rows c' r' c r change row keeps found move (Moves-HasSucceeded c r m h)
Moves-HasSucceeded c r (queues {rows} row m fresh idle free) h =
    let (old, there, done) = Moves-HasSucceeded c r m h in
    (old, find-insert_old (has_key c r) row rows old there, done)
