-- ===== src/Training/Sound/History.antt =====
-- Every history of the queue: the operations of workers and admins, in any order.
use css360_syllabus_bot.Prelude.{
  ℕ, ◌≤◌, ◌≡◌, ◌≢◌, arith, Bool, true, ◌&&◌, String, Option, some, List, [], ◌∷◌, string_eq,
}
use css360_syllabus_bot.Table.{find, count}
use css360_syllabus_bot.Training.Run.{
  RunState, TrainingRun, RunRecord, superseded_error, map_training_run,
}
use css360_syllabus_bot.Training.RetryBlock.{training_run_retry_block, block_in}
use css360_syllabus_bot.Training.Error.{
  RetryBlock, Result, ok, err, guard, retry_blocked, ◌>>=◌, ◌>>◌, require,
}
use css360_syllabus_bot.Training.Database.{Database}
use css360_syllabus_bot.Training.Runs.{has_key, is_outstanding, find_run, get_training_run}
use css360_syllabus_bot.Training.Patch.{supersede_training_run}
use css360_syllabus_bot.Training.Requests.{create_model_request}
use css360_syllabus_bot.Training.Retry.{
  Described, pinned_to, refuse, enqueue_replacement, retry_training_run,
}
use css360_syllabus_bot.Training.Sound.Patches.{update_course_training_run-Moves}
use css360_syllabus_bot.Training.Ensures.{
  Ensures, Ensures-mono, Ensures-ok, returned, Ensures-guard, Ensures-bind, Ensures-bind_eq,
  Ensures-require, Ensures-step,
}
use css360_syllabus_bot.Training.Sound.{IsSound, Moves, still}
use css360_syllabus_bot.Training.Sound.Invariant.{Moves-IsSound, HasSucceeded, Moves-HasSucceeded}
use css360_syllabus_bot.Training.Sound.Operations.{
  Operation, open_request, enqueue, retry, claim, release, submitted, submission_failed, refused,
  failed, completed, registered, patched, committed, keeps_order, perform, perform_all,
  patches_keep_order,
}
use css360_syllabus_bot.Training.Sound.Requests.{update_model_request-SameQueue}
use css360_syllabus_bot.Training.Sound.Routes.{
  SameQueue-Moves, release_run-Moves, record_submission-Moves, record_submission_failure-Moves,
  record_refusal-Moves, record_training_failure-Moves, fail_training_run-Moves,
}
use css360_syllabus_bot.Training.Sound.Completion.{record_completion-Moves, register_version-Moves}
use css360_syllabus_bot.Training.Sound.Queue.{enqueue-Moves, claim-Moves}

-- A succeeded run is not retried.
retried-live :
    (db : Database) (course_id run_id : String) (found : Option RunRecord) (previous : RunRecord)
    (now : ℕ) (sha : Option String) (row : TrainingRun)
    → get_training_run db course_id run_id ≡ ok found
    → found ≡ some previous
    → refuse {A = RetryBlock}
        (λ block. err (retry_blocked block))
        (training_run_retry_block previous now sha)
      ≡ ok tt
    → find (has_key course_id run_id) db.runs ≡ some row
    → row.state ≢ RunState.succeeded
unfolding refuse training_run_retry_block block_in get_training_run find_run map_training_run
    require ◌>>=◌ ◌>>◌ guard
retried-live db course_id run_id found previous now sha row got same allowed there done =
    ground arith

retry-Moves :
    {start : List TrainingRun} (db : Database) (course_id : String) (described : Option Described)
    (new_id : String) (now queued_at : ℕ)
    → Moves start db.runs
    → Ensures
        (λ r. Moves start r.1.runs)
        (retry_training_run db course_id described new_id now queued_at)
unfolding retry_training_run supersede_training_run enqueue_replacement
retry-Moves db course_id described new_id now queued_at s = Ensures-guard _ _ _ λ _.
    Ensures-bind_eq _ _ λ locked _. Ensures-require _ _ _ λ request _.
      Ensures-require _ _ _ λ run_id _. Ensures-bind_eq _ _ λ found got.
        Ensures-require _ _ _ λ previous same. Ensures-step _ _ λ allowed. Ensures-guard _ _ _ λ _.
          Ensures-bind _ _
            (fail_training_run-Moves db course_id run_id superseded_error now s (λ row there.
              retried-live db course_id run_id found previous now (pinned_to described) row got same
                allowed there))
            (λ retired s'.
              Ensures-bind _ _ (enqueue-Moves retired.1 course_id new_id _ _ _ _ _ _ queued_at s')
                (λ created s''.
                  Ensures-bind _ _
                    (Ensures-mono (λ r q. SameQueue-Moves q s'')
                      (update_model_request-SameQueue created.1 course_id _ now))
                    (λ updated s'''. returned s''')))

create_request-Moves :
    {start : List TrainingRun} (db : Database) (course_id : String) (approved now : ℕ)
    → Moves start db.runs
    → Ensures (λ r. Moves start r.1.runs) (create_model_request db course_id approved now)
unfolding create_model_request
create_request-Moves db course_id approved now s = Ensures-guard _ _ _ λ _.
    Ensures-guard _ _ _ λ _. Ensures-guard _ _ _ λ _. Ensures-require _ _ _ λ created _. returned s

committed-Moves :
    {A : Type 0} {start : List TrainingRun} (db : Database) (m : Result (A × Database))
    → Moves start db.runs
    → Ensures (λ r. Moves start r.1.runs) m
    → Moves start (committed db m).runs
committed-Moves db (ok r) s e = Ensures-ok e
committed-Moves db (err x) s e = s

pub both : {a b : Bool} → (a && b) ≡ true → (a ≡ true) × (b ≡ true)
both h = (ground arith, ground arith)

module _ (text_before : String → String → Bool) (digit_value : ℕ → Option ℕ) where
  pub perform-Moves :
      (db : Database) (o : Operation)
      → IsSound db.runs
      → keeps_order db o ≡ true
      → Moves db.runs (perform text_before digit_value db o).runs
  unfolding perform
  perform-Moves db (open_request c approved now) u k =
      committed-Moves db _ still (create_request-Moves db c approved now still)
  perform-Moves db (enqueue c r mode ref approved train validation sha now) u k =
      committed-Moves db _ still
        (enqueue-Moves db c r mode ref approved train validation sha now still)
  perform-Moves db (retry c described new_id now queued_at) u k =
      committed-Moves db _ still (retry-Moves db c described new_id now queued_at still)
  perform-Moves db (claim owner lease now ids locked) u k =
      committed-Moves db _ still (claim-Moves text_before db owner lease now ids locked u still)
  perform-Moves db (release c r error now) u k =
      committed-Moves db _ still (release_run-Moves db c r error now still)
  perform-Moves db (submitted c r job train validation now) u k =
      committed-Moves db _ still (record_submission-Moves db c r job train validation now still)
  perform-Moves db (submission_failed c r error now) u k =
      committed-Moves db _ still (record_submission_failure-Moves db c r error now still)
  perform-Moves db (refused c r error now) u k =
      committed-Moves db _ still (record_refusal-Moves db c r error now still)
  perform-Moves db (failed c r error now) u k =
      committed-Moves db _ still (record_training_failure-Moves db c r error now still)
  perform-Moves db (completed c r request now) u k =
      committed-Moves db _ still (record_completion-Moves digit_value db c r request now still)
  perform-Moves db (registered c new now) u k =
      committed-Moves db _ still (register_version-Moves digit_value db c new now still)
  perform-Moves db (patched c r request now) u k =
      committed-Moves db _ still (update_course_training_run-Moves db c r request now still k)

  pub perform_all-IsSound :
      (db : Database) (history : List Operation)
      → IsSound db.runs
      → patches_keep_order text_before digit_value db history ≡ true
      → IsSound (perform_all text_before digit_value db history).runs
  unfolding perform_all patches_keep_order
  perform_all-IsSound db [] u k = u
  perform_all-IsSound db (o ∷ rest) u k =
      perform_all-IsSound (perform text_before digit_value db o) rest
        (Moves-IsSound (perform-Moves db o u (both k).0) u) (both k).1

  -- From a queue with unique keys and at most one outstanding run in each course: after every history
  -- of the operations listed by `Operation`, in any order and with any outcome, in which no admin's
  -- patch sets a run's job to null or moves a run that has ended to another state, other than from
  -- failed to succeeded, no course has two outstanding runs.
  pub at_most_one_outstanding :
      (db : Database) (history : List Operation) (course_id : String)
      → IsSound db.runs
      → patches_keep_order text_before digit_value db history ≡ true
      → count (is_outstanding course_id) (perform_all text_before digit_value db history).runs ≤ 1
  at_most_one_outstanding db history course_id u k =
      (perform_all-IsSound db history u k).one_outstanding course_id

  -- From such a queue, a run that has succeeded is still in the table and still succeeded after every
  -- history of the operations listed by `Operation` in which no admin's patch sets a run's job to null
  -- or moves a run that has ended to another state, other than from failed to succeeded: no retry,
  -- late report or lapsed lease undoes it.
  pub succeeded_final :
      (db : Database) (history : List Operation) (course_id run_id : String)
      → IsSound db.runs
      → patches_keep_order text_before digit_value db history ≡ true
      → HasSucceeded course_id run_id db.runs
      → HasSucceeded course_id run_id (perform_all text_before digit_value db history).runs
  unfolding perform_all patches_keep_order
  succeeded_final db [] course_id run_id u k h = h
  succeeded_final db (o ∷ rest) course_id run_id u k h =
      let m = perform-Moves db o u (both k).0 in
      succeeded_final (perform text_before digit_value db o) rest course_id run_id
        (Moves-IsSound m u) (both k).1 (Moves-HasSucceeded course_id run_id m h)
