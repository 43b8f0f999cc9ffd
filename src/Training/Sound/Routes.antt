-- ===== src/Training/Sound/Routes.antt =====
-- Every report of a worker keeps the invariant of the run queue.
use css360_syllabus_bot.Prelude.{
  refl, List, ◌≢◌, arith, strip, ℕ, ◌≡◌, false, String, Option, some, arith, string_eq,
}
use css360_syllabus_bot.Table.{find}
use css360_syllabus_bot.Training.Run.{
  RunState, is_terminal, TrainingRun, RunRecord, map_training_run,
}
use css360_syllabus_bot.Training.Error.{ok, guard, require, ◌>>=◌, ◌>>◌}
use css360_syllabus_bot.Training.Database.{Database}
use css360_syllabus_bot.Training.Runs.{has_key, find_run, get_training_run}
use css360_syllabus_bot.Training.Patch.{
  release_patch, release_training_run, fail_patch, fail_training_run, submitted_patch,
  mark_training_run_submitted,
}
use css360_syllabus_bot.Training.Worker.{
  require_run, refuse_terminal, release_run, record_submission, record_submission_failure,
  record_refusal, record_training_failure,
}
use css360_syllabus_bot.Training.Requests.{RequestPatch, update_model_request_for_run}
use css360_syllabus_bot.Training.Sound.Requests.{SameQueue, update_for_run-SameQueue}
use css360_syllabus_bot.Training.Ensures.{
  Ensures, Ensures-mono, returned, Ensures-guard, Ensures-bind, Ensures-bind_eq, Ensures-step,
}
use css360_syllabus_bot.Training.Sound.{
  requeues, is_submitted, fails, Moves, update_training_run-Moves,
}

-- A run that a route has found and that is not finished.
pub open_run :
    (db : Database) (course_id run_id : String) (run : RunRecord) (row : TrainingRun)
    → require_run db course_id run_id ≡ ok run
    → refuse_terminal run ≡ ok tt
    → find (has_key course_id run_id) db.runs ≡ some row
    → is_terminal row.state ≡ false
unfolding require_run refuse_terminal get_training_run find_run map_training_run require guard ◌>>=◌
    ◌>>◌
open_run db course_id run_id run row got unfinished found = ground arith

pub release_run-Moves :
    {start : List TrainingRun} (db : Database) (course_id run_id : String) (error : Option String)
    (now : ℕ)
    → Moves start db.runs
    → Ensures (λ r. Moves start r.1.runs) (release_run db course_id run_id error now)
unfolding release_run release_training_run
release_run-Moves db course_id run_id error now s = Ensures-guard _ _ _ λ valid.
    Ensures-bind_eq _ _ λ run got. Ensures-step _ _ λ unfinished.
      update_training_run-Moves db course_id run_id (release_patch error now) now s refl
        (λ row found. requeues (open_run db course_id run_id run row got unfinished found))

pub SameQueue-Moves :
    {start : List TrainingRun} {db db' : Database}
    → SameQueue db db'
    → Moves start db.runs
    → Moves start db'.runs
SameQueue-Moves q s = rw q.runs s

-- The request's patch after a sound write of the run.
pub patch_request-Moves :
    {start : List TrainingRun} (db : Database) (course_id run_id : String) (patch : RequestPatch)
    (now : ℕ)
    → Moves start db.runs
    → Ensures
        (λ r. Moves start r.1.runs)
        (update_model_request_for_run db course_id run_id patch now)
patch_request-Moves db course_id run_id patch now s =
    Ensures-mono (λ r q. SameQueue-Moves q s)
      (update_for_run-SameQueue db course_id run_id patch now)

pub record_submission-Moves :
    {start : List TrainingRun} (db : Database) (course_id run_id job_id : String)
    (train validation now : ℕ)
    → Moves start db.runs
    → Ensures
        (λ r. Moves start r.1.runs)
        (record_submission db course_id run_id job_id train validation now)
unfolding record_submission mark_training_run_submitted
record_submission-Moves db course_id run_id job_id train validation now s =
    Ensures-guard _ _ _ λ valid. Ensures-bind_eq _ _ λ run got. Ensures-step _ _ λ current.
      Ensures-step _ _ λ unfinished.
        Ensures-bind _ _
          (Ensures-guard _ _ _ λ named.
            update_training_run-Moves db course_id run_id
              (submitted_patch (strip job_id) train validation now) now s refl
              (λ row found.
                is_submitted (open_run db course_id run_id run row got unfinished found)))
          (λ marked s'.
            Ensures-bind _ _ (patch_request-Moves marked.1 course_id run_id _ now s')
              (λ patched s''. returned s''))

pub record_submission_failure-Moves :
    {start : List TrainingRun} (db : Database) (course_id run_id error : String) (now : ℕ)
    → Moves start db.runs
    → Ensures (λ r. Moves start r.1.runs) (record_submission_failure db course_id run_id error now)
unfolding record_submission_failure release_training_run
record_submission_failure-Moves db course_id run_id error now s = Ensures-guard _ _ _ λ valid.
    Ensures-bind_eq _ _ λ run got. Ensures-step _ _ λ current. Ensures-step _ _ λ unfinished.
      Ensures-bind _ _
        (update_training_run-Moves db course_id run_id (release_patch (some error) now) now s refl
          (λ row found. requeues (open_run db course_id run_id run row got unfinished found)))
        (λ released s'.
          Ensures-bind _ _ (patch_request-Moves released.1 course_id run_id _ now s')
            (λ patched s''. returned s''))

not_succeeded : (s : RunState) → is_terminal s ≡ false → s ≢ RunState.succeeded
not_succeeded s h e = ground arith

-- A run that has not succeeded may be failed.
pub fail_training_run-Moves :
    {start : List TrainingRun} (db : Database) (course_id run_id error : String) (now : ℕ)
    → Moves start db.runs
    → ((row : TrainingRun)
        → find (has_key course_id run_id) db.runs ≡ some row
        → row.state ≢ RunState.succeeded)
    → Ensures (λ r. Moves start r.1.runs) (fail_training_run db course_id run_id error now)
unfolding fail_training_run
fail_training_run-Moves db course_id run_id error now s live =
    update_training_run-Moves db course_id run_id (fail_patch error now) now s refl
      (λ row found. fails (live row found))

pub record_refusal-Moves :
    {start : List TrainingRun} (db : Database) (course_id run_id error : String) (now : ℕ)
    → Moves start db.runs
    → Ensures (λ r. Moves start r.1.runs) (record_refusal db course_id run_id error now)
unfolding record_refusal
record_refusal-Moves db course_id run_id error now s = Ensures-guard _ _ _ λ valid.
    Ensures-bind_eq _ _ λ run got. Ensures-step _ _ λ current. Ensures-step _ _ λ unfinished.
      Ensures-step _ _ λ jobless.
        Ensures-bind _ _
          (fail_training_run-Moves db course_id run_id error now s (λ row found.
            not_succeeded row.state (open_run db course_id run_id run row got unfinished found)))
          (λ failed s'.
            Ensures-bind _ _ (patch_request-Moves failed.1 course_id run_id _ now s')
              (λ patched s''. returned s''))

pub record_training_failure-Moves :
    {start : List TrainingRun} (db : Database) (course_id run_id error : String) (now : ℕ)
    → Moves start db.runs
    → Ensures (λ r. Moves start r.1.runs) (record_training_failure db course_id run_id error now)
unfolding record_training_failure
record_training_failure-Moves db course_id run_id error now s = Ensures-guard _ _ _ λ valid.
    Ensures-bind_eq _ _ λ run got. Ensures-step _ _ λ current. Ensures-step _ _ λ unfinished.
      Ensures-bind _ _
        (fail_training_run-Moves db course_id run_id error now s (λ row found.
          not_succeeded row.state (open_run db course_id run_id run row got unfinished found)))
        (λ failed s'.
          Ensures-bind _ _ (patch_request-Moves failed.1 course_id run_id _ now s')
            (λ patched s''. returned s''))
