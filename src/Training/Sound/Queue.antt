-- ===== src/Training/Sound/Queue.antt =====
-- Queueing, claiming and retrying keep the invariant of the run queue.
use css360_syllabus_bot.Prelude.{
  ℕ, ◌≡◌, refl, Bool, true, false, not, ◌&&◌, String, Option, some, List, strip, arith, string_eq,
  eq_iff, Option-cases, inl, inr,
}
use css360_syllabus_bot.Table.{find, select}
use css360_syllabus_bot.Table.Members.{Elem-select, Elem-first, find-Elem}
use css360_syllabus_bot.Training.Run.{is_terminal, TrainingRun}
use css360_syllabus_bot.Training.Database.{Database}
use css360_syllabus_bot.Training.Runs.{has_key, new_run, enqueue_training_run}
use css360_syllabus_bot.Training.Claims.{
  is_claimable, stamp, queued_before, next_claimable, claim_next_training_run,
}
use css360_syllabus_bot.Training.Ensures.{
  Ensures, returned, Ensures-guard, Ensures-bind_eq, Ensures-require, Ensures-step,
}
use css360_syllabus_bot.Training.Sound.{IsSound, is_taken, Moves, writes, queues}

pub enqueue-Moves :
    {start : List TrainingRun} (db : Database) (course_id run_id mode dataset_ref : String)
    (approved train validation : ℕ) (sha : Option String) (now : ℕ)
    → Moves start db.runs
    → Ensures
        (λ r. Moves start r.1.runs)
        (enqueue_training_run db course_id run_id mode dataset_ref approved train validation sha
          now)
unfolding enqueue_training_run
enqueue-Moves db course_id run_id mode dataset_ref approved train validation sha now s =
    Ensures-guard _ _ _ λ _. Ensures-guard _ _ _ λ _. Ensures-guard _ _ _ λ idle.
      Ensures-guard _ _ _ λ _. Ensures-guard _ _ _ λ free. Ensures-bind_eq _ _ λ found _.
        Ensures-require _ _ _ λ created _. returned (
          queues (new_run course_id run_id mode dataset_ref approved train validation sha now) s
            refl (ground arith) (ground arith))

module _ (text_before : String → String → Bool) where
  -- The row that a claim chooses is the one under its key, claimable and not locked.
  pub next_claimable_found :
      (db : Database) (now : ℕ) (course_ids : Option (List String)) (locked : TrainingRun → Bool)
      (row : TrainingRun)
      → IsSound db.runs
      → next_claimable text_before db now course_ids locked ≡ some row
      → (find (has_key row.course_id row.run_id) db.runs ≡ some row)
        × (is_claimable now course_ids row ≡ true)
        × (locked row ≡ false)
  unfolding next_claimable
  next_claimable_found db now course_ids locked row s h =
      let test = λ (x : TrainingRun). is_claimable now course_ids x && not (locked x) in
      let (inside, passes) =
        Elem-select test db.runs row
          (Elem-first (queued_before text_before) (select test db.runs) row h) in
      (
        find-Elem (has_key row.course_id row.run_id) db.runs row inside (own_key row)
            (s.keyed row.course_id row.run_id),
        ground arith,
        ground arith,
      )
    where
      own_key : (row : TrainingRun) → has_key row.course_id row.run_id row ≡ true
      own_key row =
          rw ((eq_iff row.course_id row.course_id).1 refl, (eq_iff row.run_id row.run_id).1 refl)

  pub claimable-open :
      (now : ℕ) (course_ids : Option (List String)) (row : TrainingRun)
      → is_claimable now course_ids row ≡ true
      → is_terminal row.state ≡ false
  unfolding is_claimable
  claimable-open now course_ids row h = ground arith

  pub claim-Moves :
      {start : List TrainingRun} (db : Database) (owner : String) (lease_seconds now : ℕ)
      (course_ids : Option (List String)) (locked : TrainingRun → Bool)
      → IsSound db.runs
      → Moves start db.runs
      → Ensures
          (λ r. Moves start r.1.runs)
          (claim_next_training_run text_before db owner lease_seconds now course_ids locked)
  unfolding claim_next_training_run
  claim-Moves db owner lease_seconds now course_ids locked u s = Ensures-guard _ _ _ λ _.
      Ensures-guard _ _ _ λ _. Ensures-step _ _ λ _.
        elim (Option-cases (next_claimable text_before db now course_ids locked)) [
          | inl nothing ↦ rw nothing (returned s)
          | inr (row, chosen) ↦
              let (found, claimable, _) =
                next_claimable_found db now course_ids locked row u chosen in
              rw chosen (
                Ensures-bind_eq _ _ λ run _. returned (
                  writes row.course_id row.run_id (stamp (strip owner) lease_seconds now) row s
                    (λ x. (refl, refl)) (λ x h. h) found
                    (is_taken (claimable-open now course_ids row claimable))))
        ]
