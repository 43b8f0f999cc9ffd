-- ===== src/Training/Sound/Once.antt =====
-- A run with a Slurm job is not taken again.
use css360_syllabus_bot.Prelude.{
  ℕ, ◌≡◌, refl, Bool, true, String, Option, some, List, [], ◌∷◌, arith, Bool-cases, inl, inr, strip,
}
use css360_syllabus_bot.Table.{find}
use css360_syllabus_bot.Table.Laws.{find-update, find-insert_old}
use css360_syllabus_bot.Training.Run.{TrainingRun, RunRecord}
use css360_syllabus_bot.Training.Error.{ok}
use css360_syllabus_bot.Training.Database.{Database}
use css360_syllabus_bot.Training.Runs.{has_key}
use css360_syllabus_bot.Training.Patch.{is_given}
use css360_syllabus_bot.Training.Claims.{is_claimable, claim_next_training_run}
use css360_syllabus_bot.Training.Lease.{taking_row, key_of}
use css360_syllabus_bot.Training.Sound.{IsSound, Moves, still, writes, queues}
use css360_syllabus_bot.Training.Sound.Invariant.{Moves-IsSound, same_key}
use css360_syllabus_bot.Training.Sound.Operations.{
  Operation, perform, perform_all, patches_keep_order,
}
use css360_syllabus_bot.Training.Sound.History.{both, perform-Moves, perform_all-IsSound}

-- The run under a key is there, and a job was submitted for it.
abbrev pub HasJob : String → String → List TrainingRun → Type 0
HasJob course_id run_id rows =
    (row : TrainingRun) × (find (has_key course_id run_id) rows ≡ some row)
    × (is_given row.job_id ≡ true)

Moves-HasJob :
    {start rows : List TrainingRun} (course_id run_id : String)
    → Moves start rows
    → HasJob course_id run_id start
    → HasJob course_id run_id rows
Moves-HasJob c r still h = h
Moves-HasJob c r (writes {rows} c' r' change row m keeps job found move) h =
    let (old, there, has) = Moves-HasJob c r m h in
    elim (Bool-cases (has_key c' r' old)) [
      | inl same ↦ (
        change old,
        rw
            (
              find-update (has_key c r) (has_key c' r') change rows (same_key change keeps c r),
              there,
              same,
            )
            refl,
        job old has,
      )
      | inr other ↦ (
        old,
        rw
            (
              find-update (has_key c r) (has_key c' r') change rows (same_key change keeps c r),
              there,
              other,
            )
            refl,
        has,
      )
    ]
Moves-HasJob c r (queues {rows} row m fresh idle free) h =
    let (old, there, has) = Moves-HasJob c r m h in
    (old, find-insert_old (has_key c r) row rows old there, has)

unclaimable :
    (now : ℕ) (ids : Option (List String)) (row : TrainingRun)
    → is_given row.job_id ≡ true
    → is_claimable now ids row ≡ true
    → ⊥
unfolding is_claimable
unclaimable now ids row job free = ground arith

module _ (text_before : String → String → Bool) (digit_value : ℕ → Option ℕ) where
  perform_all-HasJob :
      (db : Database) (history : List Operation) (course_id run_id : String)
      → IsSound db.runs
      → patches_keep_order text_before digit_value db history ≡ true
      → HasJob course_id run_id db.runs
      → HasJob course_id run_id (perform_all text_before digit_value db history).runs
  unfolding perform_all patches_keep_order
  perform_all-HasJob db [] course_id run_id u k h = h
  perform_all-HasJob db (o ∷ rest) course_id run_id u k h =
      let m = perform-Moves text_before digit_value db o u (both k).0 in
      perform_all-HasJob (perform text_before digit_value db o) rest course_id run_id
        (Moves-IsSound m u) (both k).1 (Moves-HasJob course_id run_id m h)

  -- From a sound queue, a run that a job was submitted for is not handed to a worker again: after
  -- every history of the operations listed by `Operation` in which no admin's patch sets a run's job
  -- to null or moves a run that has ended to another state, other than from failed to succeeded, and
  -- at any time, what a claim returns is another run.
  pub submitted_once :
      (db done : Database) (history : List Operation) (course_id run_id owner : String)
      (lease_seconds now : ℕ) (course_ids : Option (List String)) (locked : TrainingRun → Bool)
      (taken : RunRecord)
      → IsSound db.runs
      → patches_keep_order text_before digit_value db history ≡ true
      → HasJob course_id run_id db.runs
      → claim_next_training_run text_before
          (perform_all text_before digit_value db history)
          owner
          lease_seconds
          now
          course_ids
          locked
        ≡ ok (some taken, done)
      → ¬ ((taken.course_id ≡ course_id) × (taken.run_id ≡ run_id))
  submitted_once db done history course_id run_id owner lease_seconds now course_ids locked taken u
        k h claimed (c, r) =
      let later = perform_all text_before digit_value db history in
      let t =
        taking_row text_before later done owner lease_seconds now course_ids locked taken
          (perform_all-IsSound text_before digit_value db history u k) claimed in
      let (c', r') = key_of (strip owner) lease_seconds now t.row taken t.read in
      let (row, there, job) = perform_all-HasJob db history course_id run_id u k h in
      let here : find (has_key course_id run_id) later.runs ≡ some t.row =
        rw (← c, ← r, c', r') t.found in
      unclaimable now course_ids t.row (cc (here, there, job)) t.claimable
