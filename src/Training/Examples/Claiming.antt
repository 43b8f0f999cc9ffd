-- ===== src/Training/Examples/Claiming.antt =====
-- Claims of the example course's run.
use css360_syllabus_bot.Prelude.{
  List, ◌<◌, ◌≡◌, ◌⊎◌, ◌↔◌, inl, inr, refl, Bool, true, false, none, some, [], ◌∷◌, arith, strip,
}
use css360_syllabus_bot.Table.{find, update, select, first, insert}
use css360_syllabus_bot.Table.First.{IsOrder}
use css360_syllabus_bot.Training.Run.{Claim, TrainingRun, map_training_run, optional_string}
use css360_syllabus_bot.Training.Error.{require, ok, guard, ◌>>=◌, ◌>>◌}
use css360_syllabus_bot.Training.Runs.{find_run, get_training_run}
use css360_syllabus_bot.Training.Database.{Database}
use css360_syllabus_bot.Training.Claims.{
  assert_valid_course_ids, is_claimable, stamp, next_claimable, claim_next_training_run,
}
use css360_syllabus_bot.Training.RetryBlock.{training_run_retry_block}
use css360_syllabus_bot.Training.Stale.{IsStale, retry_block_exact, lease_agreed}
use css360_syllabus_bot.Training.Sound.{IsSound}
use css360_syllabus_bot.Training.Sound.Invariant.{insert-IsSound}
use css360_syllabus_bot.Training.AdminPatch.{patch_fields, update_course_training_run}
use css360_syllabus_bot.Training.Patch.{write_run, update_training_run}
use css360_syllabus_bot.Training.Sound.Patches.{keeps_end, is_orderly}
use css360_syllabus_bot.Training.Examples.Histories.{lease_cleared}
use css360_syllabus_bot.Training.Sound.Operations.{
  Operation, patched, perform, perform_all, patches_keep_order,
}
use css360_syllabus_bot.Training.Sound.Once.{submitted_once}
use css360_syllabus_bot.Training.Lease.{claim_exclusive}
use css360_syllabus_bot.Training.Lease.Held.{IsHeld, claim_takes}
use css360_syllabus_bot.Training.Lease.Order.{claim_takes_earliest}
use css360_syllabus_bot.CourseId.{is_valid_course_id}
use css360_syllabus_bot.Training.Examples.{
  course, queued_row, submitted_row, database_of, before, digit, one_row-IsSound,
}

abbrev pub any_row : TrainingRun → Bool
any_row row = false

abbrev pub held_row : TrainingRun
unfolding stamp
held_row = stamp "worker-a" 900 2000 queued_row

first_claim :
    claim_next_training_run before (database_of queued_row) "worker-a" 900 2000 none any_row
    ≡ ok (some (map_training_run held_row), database_of held_row)
unfolding claim_next_training_run get_training_run map_training_run guard ◌>>=◌ ◌>>◌
    is_valid_course_id strip optional_string find update select first stamp is_claimable
    assert_valid_course_ids next_claimable
first_claim = refl

claim_takes_example :
    IsHeld
      (database_of queued_row)
      (database_of held_row)
      "worker-a"
      900
      2000
      any_row
      (map_training_run held_row)
claim_takes_example =
    claim_takes before (database_of queued_row) (database_of held_row) "worker-a" 900 2000 none
      any_row (map_training_run held_row) (one_row-IsSound queued_row) first_claim

-- A run of a second course, queued later.
abbrev pub other_row : TrainingRun
other_row = record queued_row { course_id = "css430"; run_id = "run-9"; enqueued_at = 1500 }

abbrev pub two_courses : TrainingRun → TrainingRun → Database
two_courses row other = record (database_of row) {
  runs = row ∷ other ∷ [];
  courses = course ∷ "css430" ∷ [];
}

two_courses-IsSound : IsSound (queued_row ∷ other_row ∷ [])
unfolding insert
two_courses-IsSound =
    insert-IsSound (queued_row ∷ []) other_row refl refl (one_row-IsSound queued_row)

abbrev pub other_held : TrainingRun
unfolding stamp
other_held = stamp "worker-b" 900 3000 other_row

first_of_two :
    claim_next_training_run before
      (two_courses queued_row other_row)
      "worker-a"
      900
      2000
      none
      any_row
    ≡ ok (some (map_training_run held_row), two_courses held_row other_row)
unfolding claim_next_training_run get_training_run map_training_run guard ◌>>=◌ ◌>>◌
    is_valid_course_id strip optional_string find update select first stamp is_claimable
    assert_valid_course_ids next_claimable
first_of_two = refl

second_of_two :
    claim_next_training_run before (two_courses held_row other_row) "worker-b" 900 3000 none any_row
    ≡ ok (some (map_training_run other_held), two_courses held_row other_held)
unfolding claim_next_training_run get_training_run map_training_run guard ◌>>=◌ ◌>>◌
    is_valid_course_id strip optional_string find update select first stamp is_claimable
    assert_valid_course_ids next_claimable
second_of_two = refl

claim_exclusive_example : ¬ (
    (map_training_run other_held).course_id ≡ (map_training_run held_row).course_id
    × (map_training_run other_held).run_id ≡ (map_training_run held_row).run_id)
claim_exclusive_example =
    claim_exclusive before (two_courses queued_row other_row) (two_courses held_row other_row)
      (two_courses held_row other_held) "worker-a" "worker-b" 900 900 2000 3000 none none any_row
      any_row (map_training_run held_row) (map_training_run other_held) two_courses-IsSound
      first_of_two second_of_two (omega arith)

before-IsOrder : IsOrder before
before-IsOrder = record { irreflexive = λ a. refl; transitive = λ a b c h k. cc }

claim_takes_earliest_example :
    ((map_training_run held_row).enqueued_at < other_row.enqueued_at)
    ⊎ (((map_training_run held_row).enqueued_at ≡ other_row.enqueued_at)
        × (before other_row.run_id (map_training_run held_row).run_id ≡ false))
unfolding is_claimable
claim_takes_earliest_example =
    claim_takes_earliest before (two_courses queued_row other_row) (two_courses held_row other_row)
      "worker-a" 900 2000 none any_row (map_training_run held_row) other_row before-IsOrder
      two_courses-IsSound first_of_two (inr (inl refl)) refl refl

-- An admin clears the lease of the first course's run, which has a job; the second course's run is
-- what the next claim takes.
abbrev pub busy : Database
busy = two_courses submitted_row other_row

abbrev pub cleared : List Operation
cleared = patched course "run-1" lease_cleared 2500 ∷ []

abbrev pub cleared_row : TrainingRun
cleared_row = record submitted_row { updated_at = 2500 }

after_submission :
    claim_next_training_run before
      (perform_all before digit busy cleared)
      "worker-b"
      900
      3000
      none
      any_row
    ≡ ok (some (map_training_run other_held), two_courses cleared_row other_held)
unfolding perform_all perform update_course_training_run update_training_run patch_fields find_run
    write_run require claim_next_training_run get_training_run map_training_run guard ◌>>=◌ ◌>>◌
    is_valid_course_id strip optional_string find update select first stamp is_claimable
    assert_valid_course_ids next_claimable
after_submission = refl

busy-IsSound : IsSound busy.runs
unfolding insert
busy-IsSound =
    insert-IsSound (submitted_row ∷ []) other_row refl refl (one_row-IsSound submitted_row)

orderly_patch : patches_keep_order before digit busy cleared ≡ true
unfolding patches_keep_order is_orderly keeps_end find
orderly_patch = refl

submitted_once_example : ¬ (
    ((map_training_run other_held).course_id ≡ course)
    × ((map_training_run other_held).run_id ≡ "run-1"))
unfolding find
submitted_once_example =
    submitted_once before digit busy (two_courses cleared_row other_held) cleared course "run-1"
      "worker-b" 900 3000 none any_row (map_training_run other_held) busy-IsSound orderly_patch
      (submitted_row, refl, refl) after_submission

retry_block_exact_example :
    (training_run_retry_block (map_training_run held_row) 2000 none ≡ none)
    ↔ IsStale (map_training_run held_row) 2000 none
retry_block_exact_example = retry_block_exact (map_training_run held_row) 2000 none

abbrev pub lease : Claim
lease = record { owner = "worker-a"; claimed_at = 2000; expires_at = 900002000 }

lease_agreed_example :
    (is_claimable 5000 none held_row ≡ true)
    ↔ (training_run_retry_block (map_training_run held_row) 5000 none ≡ none)
unfolding map_training_run optional_string strip held_row
lease_agreed_example = lease_agreed held_row 5000 none lease refl refl refl
