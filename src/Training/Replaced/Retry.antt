-- ===== src/Training/Replaced/Retry.antt =====
-- backend/app/training_retry.py: the effect of a retry, and the reports that come too late for it.
use css360_syllabus_bot.Prelude.{ℕ, ◌≡◌, refl, String, Option, some, string_eq}
use css360_syllabus_bot.Table.Laws.{find-insert_old}
use css360_syllabus_bot.Training.Run.{superseded_error, RunRecord}
use css360_syllabus_bot.Training.Error.{ok}
use css360_syllabus_bot.Training.Database.{ModelRequest, Database}
use css360_syllabus_bot.Training.Runs.{has_key}
use css360_syllabus_bot.Training.Patch.{fail_patch, fail_training_run, supersede_training_run}
use css360_syllabus_bot.Training.Requests.{apply_request_patch, find_request, lock_model_request}
use css360_syllabus_bot.Training.Retry.{
  Described, enqueue_replacement, retry_request_patch, Retried, retry_training_run,
}
use css360_syllabus_bot.Training.Ensures.{
  Ensures, Ensures-eq, returned, Ensures-guard, Ensures-bind, Ensures-bind_eq, Ensures-require,
  Ensures-step,
}
use css360_syllabus_bot.Training.Replaced.{
  Wrote, update-Wrote, found_run, Queued, enqueue-Queued, Handed, update-Handed, IsReplaced,
}
use css360_syllabus_bot.Training.Replaced.Rows.{
  retired_row, queued_row, request_row, handed_row, is_new, unused_before, locked_request,
}

module _ (db d1 d2 done : Database) (course_id old new_id : String) (now : ℕ)
    (created : RunRecord) where
  replaced :
      (request : ModelRequest)
      → find_request db course_id ≡ some request
      → request.current_run_id ≡ some old
      → Wrote db course_id old (fail_patch superseded_error now) now d1
      → Queued d1 course_id new_id (created, d2)
      → Handed d2 course_id (retry_request_patch created.run_id now) now done
      → IsReplaced db course_id new_id now done
  unfolding retry_request_patch fail_patch
  replaced request owned current w q h =
      let there =
        retired_row db d1 course_id old (fail_patch superseded_error now) now w.row w.found
          w.written in
      let (row, asked) = request_row db course_id request owned in
      let (c, r, s, j, o, e) = q.fresh in
      record {
        old = old;
        request = request;
        owned = owned;
        current = current;
        retired = w.row;
        was_there = w.found;
        still_there =
            rw (h.same_runs, q.written)
              (find-insert_old (has_key course_id old) q.row d1.runs _ there);
        unused =
            unused_before course_id new_id old (fail_patch superseded_error now) now db.runs
              (rw (← w.written) q.unused);
        different = is_new course_id old new_id d1.runs _ there q.unused;
        queued = q.row;
        is_queued =
            rw (h.same_runs, q.written) (queued_row course_id new_id d1.runs q.row c r q.unused);
        is_fresh = (s, j, o, e);
        handed = apply_request_patch (retry_request_patch created.run_id now) now row;
        is_handed =
            handed_row d2 done course_id (retry_request_patch created.run_id now) now row
              (rw (q.same_requests, w.same_requests) asked) h.written;
        points = (rw q.named refl, refl, refl);
      }

retry-IsReplaced :
    (db : Database) (course_id : String) (described : Option Described) (new_id : String)
    (now queued_at : ℕ)
    → Ensures
        (λ r. IsReplaced db course_id new_id now r.1)
        (retry_training_run db course_id described new_id now queued_at)
unfolding retry_training_run supersede_training_run fail_training_run enqueue_replacement
    lock_model_request retry_request_patch
retry-IsReplaced db course_id described new_id now queued_at = Ensures-guard _ _ _ λ _.
    Ensures-bind_eq _ _ λ locked read. Ensures-require _ _ _ λ request owned.
      Ensures-require _ _ _ λ old current. Ensures-bind_eq _ _ λ found got.
        Ensures-require _ _ _ λ previous same. Ensures-step _ _ λ allowed. Ensures-guard _ _ _ λ _.
          let (row, there) = found_run db course_id old found previous got same in
          Ensures-bind _ _
            (update-Wrote db course_id old (fail_patch superseded_error now) now row refl there)
            (λ retired w.
              Ensures-bind _ _ (enqueue-Queued retired.1 course_id new_id _ _ _ _ _ _ queued_at)
                (λ created q.
                  let ask = locked_request db course_id locked request read owned in
                  let (asked, stands) = request_row db course_id request ask in
                  Ensures-bind _ _
                    (update-Handed created.1 course_id (retry_request_patch created.0.run_id now)
                      now asked refl (rw (q.same_requests, w.same_requests) stands))
                    (λ updated h. returned (
                      replaced db retired.1 created.1 updated.1 course_id old new_id now created.0
                        request ask current w q h))))

-- A retry that is let through retires the course's current run as failed, without its lease, and keeps
-- the rest of its row, its job and its counts among it; it queues a run under an id that no run of the
-- course had, without job, lease or error; and it hands the course's request to that run.
pub retry_replaces :
    (db done : Database) (course_id : String) (described : Option Described) (new_id : String)
    (now queued_at : ℕ) (retried : Retried)
    → retry_training_run db course_id described new_id now queued_at ≡ ok (retried, done)
    → IsReplaced db course_id new_id now done
retry_replaces db done course_id described new_id now queued_at retried h =
    Ensures-eq (retry-IsReplaced db course_id described new_id now queued_at) h
