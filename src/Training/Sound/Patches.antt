-- ===== src/Training/Sound/Patches.antt =====
-- Which patches of an admin keep the order of the run queue.
use css360_syllabus_bot.Prelude.{
  ℕ, ◌≡◌, refl, arith, Bool, true, false, ◌&&◌, String, none, some, List,
}
use css360_syllabus_bot.Table.{find}
use css360_syllabus_bot.Training.Run.{RunState, TrainingRun}
use css360_syllabus_bot.Training.Database.{Database}
use css360_syllabus_bot.Training.Runs.{has_key}
use css360_syllabus_bot.Training.Patch.{or_old}
use css360_syllabus_bot.Training.AdminPatch.{
  TrainingRunUpdateRequest, patch_fields, update_course_training_run,
}
use css360_syllabus_bot.Training.Ensures.{Ensures, returned, Ensures-bind, Ensures-require}
use css360_syllabus_bot.Training.Sound.{
  keeps_job, ◌⟶◌, stays, succeeds, is_patched, Moves, Allowed, update_training_run-Moves,
}

-- An end stands: a failed run may be recorded as succeeded, and none that ended goes on.
unfoldable pub keeps_end : RunState → RunState → Bool
keeps_end RunState.succeeded RunState.succeeded = true
keeps_end RunState.succeeded _ = false
keeps_end RunState.failed RunState.succeeded = true
keeps_end RunState.failed RunState.failed = true
keeps_end RunState.failed _ = false
keeps_end _ _ = true

-- The request does not set the job to null, and moves no run that has ended to another state, other
-- than from failed to succeeded.
unfoldable pub is_orderly : Database → String → String → TrainingRunUpdateRequest → Bool
unfolding keeps_end
is_orderly db course_id run_id request =
    keeps_job request.job_id && elim (find (has_key course_id run_id) db.runs) [
      | none ↦ true
      | some row ↦ keeps_end row.state (or_old request.state row.state)
    ]

keeps_end-⟶ : (old new : RunState) → keeps_end old new ≡ true → old ⟶ new
unfolding keeps_end
keeps_end-⟶ RunState.queued new h = is_patched refl
keeps_end-⟶ RunState.claimed new h = is_patched refl
keeps_end-⟶ RunState.submitted new h = is_patched refl
keeps_end-⟶ RunState.training new h = is_patched refl
keeps_end-⟶ (RunState.unrecognised text) new h = is_patched refl
keeps_end-⟶ RunState.succeeded RunState.succeeded h = stays
keeps_end-⟶ RunState.failed RunState.succeeded h = succeeds
keeps_end-⟶ RunState.failed RunState.failed h = stays
keeps_end-⟶ RunState.succeeded RunState.queued h = cc
keeps_end-⟶ RunState.succeeded RunState.claimed h = cc
keeps_end-⟶ RunState.succeeded RunState.submitted h = cc
keeps_end-⟶ RunState.succeeded RunState.training h = cc
keeps_end-⟶ RunState.succeeded RunState.failed h = cc
keeps_end-⟶ RunState.succeeded (RunState.unrecognised text) h = cc
keeps_end-⟶ RunState.failed RunState.queued h = cc
keeps_end-⟶ RunState.failed RunState.claimed h = cc
keeps_end-⟶ RunState.failed RunState.submitted h = cc
keeps_end-⟶ RunState.failed RunState.training h = cc
keeps_end-⟶ RunState.failed (RunState.unrecognised text) h = cc

orderly-Allowed :
    (db : Database) (course_id run_id : String) (request : TrainingRunUpdateRequest)
    (row : TrainingRun)
    → is_orderly db course_id run_id request ≡ true
    → find (has_key course_id run_id) db.runs ≡ some row
    → Allowed (patch_fields request) row
unfolding is_orderly patch_fields
orderly-Allowed db course_id run_id request row orderly found =
    keeps_end-⟶ row.state (or_old request.state row.state) (ground (arith, orderly, found))

orderly_job :
    (db : Database) (course_id run_id : String) (request : TrainingRunUpdateRequest)
    → is_orderly db course_id run_id request ≡ true
    → keeps_job (patch_fields request).job_id ≡ true
unfolding is_orderly patch_fields
orderly_job db course_id run_id request orderly = ground (arith, orderly)

pub update_course_training_run-Moves :
    {start : List TrainingRun} (db : Database) (course_id run_id : String)
    (request : TrainingRunUpdateRequest) (now : ℕ)
    → Moves start db.runs
    → is_orderly db course_id run_id request ≡ true
    → Ensures
        (λ r. Moves start r.1.runs)
        (update_course_training_run db course_id run_id request now)
unfolding update_course_training_run
update_course_training_run-Moves db course_id run_id request now s orderly =
    Ensures-bind _ _
      (update_training_run-Moves db course_id run_id (patch_fields request) now s
        (orderly_job db course_id run_id request orderly)
        (λ row found. orderly-Allowed db course_id run_id request row orderly found))
      (λ written s'. Ensures-require _ _ _ λ updated _. returned s')
