-- ===== src/Training/Examples/Histories.antt =====
-- Histories of the example course.
use css360_syllabus_bot.Prelude.{◌≤◌, ◌≡◌, refl, true, false, strip, none, List, [], ◌∷◌}
use css360_syllabus_bot.CourseId.{is_valid_course_id}
use css360_syllabus_bot.Table.{count, find, update, select, first}
use css360_syllabus_bot.Training.Run.{map_training_run, optional_string}
use css360_syllabus_bot.Training.Error.{guard, ◌>>=◌, ◌>>◌}
use css360_syllabus_bot.Training.Claims.{
  is_claimable, assert_valid_course_ids, stamp, next_claimable, claim_next_training_run,
}
use css360_syllabus_bot.Training.AdminPatch.{TrainingRunUpdateRequest}
use css360_syllabus_bot.Training.Sound.Patches.{keeps_end, is_orderly}
use css360_syllabus_bot.Training.Runs.{is_outstanding, get_training_run}
use css360_syllabus_bot.Training.Sound.Invariant.{HasSucceeded}
use css360_syllabus_bot.Training.Sound.Operations.{
  Operation, claim, release, submitted, failed, retry, enqueue, patched, perform, perform_all,
  patches_keep_order,
}
use css360_syllabus_bot.Training.Sound.History.{at_most_one_outstanding, succeeded_final}
use css360_syllabus_bot.Training.Examples.{
  course, queued_row, succeeded_row, database_of, before, digit, one_row-IsSound,
}

-- An admin's patch that clears the lease and nothing else.
abbrev pub lease_cleared : TrainingRunUpdateRequest
lease_cleared = record {
  state = none;
  dataset_ref = none;
  approved_example_count = none;
  train_examples = none;
  validation_examples = none;
  attempt = none;
  job_id = none;
  claim = none;
  clear_claim = true;
  error = none;
}

-- A worker claims, an admin clears the lease, another worker claims; one reports a job and then its failure, an admin queues again.
abbrev pub day : List Operation
day =
    claim "worker-a" 900 2000 none (λ row. false)
    ∷ patched course "run-1" lease_cleared 2000
    ∷ claim "worker-b" 900 2001 none (λ row. false)
    ∷ submitted course "run-1" "41" 100 20 3000
    ∷ failed course "run-1" "out of memory" 4000
    ∷ retry course none "run-2" 5000 5000
    ∷ enqueue course "run-3" "full" "data/css360" 120 100 20 none 6000
    ∷ release course "run-1" none 7000
    ∷ []

day_of_queued : patches_keep_order before digit (database_of queued_row) day ≡ true
unfolding patches_keep_order is_orderly keeps_end perform claim_next_training_run get_training_run
    map_training_run guard ◌>>=◌ ◌>>◌ is_valid_course_id strip optional_string find update select
    first stamp is_claimable assert_valid_course_ids next_claimable
day_of_queued = refl

day_of_succeeded : patches_keep_order before digit (database_of succeeded_row) day ≡ true
unfolding patches_keep_order is_orderly keeps_end perform claim_next_training_run get_training_run
    map_training_run guard ◌>>=◌ ◌>>◌ is_valid_course_id strip optional_string find update select
    first stamp is_claimable assert_valid_course_ids next_claimable
day_of_succeeded = refl

at_most_one_outstanding_example :
    count (is_outstanding course) (perform_all before digit (database_of queued_row) day).runs ≤ 1
at_most_one_outstanding_example =
    at_most_one_outstanding before digit (database_of queued_row) day course
      (one_row-IsSound queued_row) day_of_queued

succeeded_final_example :
    HasSucceeded course "run-1" (perform_all before digit (database_of succeeded_row) day).runs
unfolding find
succeeded_final_example =
    succeeded_final before digit (database_of succeeded_row) day course "run-1"
      (one_row-IsSound succeeded_row) day_of_succeeded (succeeded_row, refl, refl)
