-- ===== src/Training/Claims.antt =====
-- backend/app/db_training_runs.py: what a worker may take, and the taking of it.
use css360_syllabus_bot.Prelude.{
  ℕ, ◌+◌, Bool, true, false, not, ◌&&◌, ◌||◌, String, Option, none, some, List, any, contains, ltb,
  leb, ◌==◌, nat_eq, string_eq, strip,
}
use css360_syllabus_bot.Table.{select, update, first}
use css360_syllabus_bot.CourseId.{is_valid_course_id}
use css360_syllabus_bot.Training.Run.{RunState, seconds, TrainingRun, RunRecord}
use css360_syllabus_bot.Training.Error.{
  Result, ok, guard, ◌>>=◌, ◌>>◌, invalid_course_id, empty_owner, bad_lease,
}
use css360_syllabus_bot.Training.Database.{Database}
use css360_syllabus_bot.Training.Runs.{has_key, get_training_run}
use css360_syllabus_bot.Training.Patch.{is_given}

-- CLAIMABLE_PREDICATE
unfoldable pub is_expired : Option ℕ → ℕ → Bool
is_expired none now = true
is_expired (some expires_at) now = leb expires_at now

unfoldable pub is_open : RunState → Option ℕ → ℕ → Bool
unfolding is_expired
is_open RunState.queued expires_at now = true
is_open RunState.claimed expires_at now = is_expired expires_at now
is_open _ expires_at now = false

abbrev pub is_wanted : Option (List String) → String → Bool
is_wanted none course_id = true
is_wanted (some course_ids) course_id = contains course_ids course_id

unfoldable pub is_claimable : ℕ → Option (List String) → TrainingRun → Bool
unfolding is_open
is_claimable now course_ids row =
    not (is_given row.job_id)
    && is_open row.state row.claim_expires_at now
    && is_wanted course_ids row.course_id

unfoldable pub assert_valid_course_ids : Option (List String) → Result (Unit {0})
assert_valid_course_ids none = ok tt
assert_valid_course_ids (some course_ids) =
    guard (not (any (λ course_id. not (is_valid_course_id course_id)) course_ids)) invalid_course_id

-- What a claim stamps on the row that it takes.
unfoldable pub stamp : String → ℕ → ℕ → TrainingRun → TrainingRun
stamp owner lease_seconds now row = record row {
  state = RunState.claimed;
  attempt = row.attempt + 1;
  updated_at = now;
  claim_owner = some owner;
  claim_claimed_at = some now;
  claim_expires_at = some (now + seconds lease_seconds);
}

-- `text_before` is the database's collation order on texts.
module _ (text_before : String → String → Bool) where
  -- ORDER BY enqueued_at ASC, run_id ASC
  unfoldable pub queued_before : TrainingRun → TrainingRun → Bool
  queued_before a b =
      ltb a.enqueued_at b.enqueued_at
      || (a.enqueued_at == b.enqueued_at && text_before a.run_id b.run_id)

  -- The SELECT ... FOR UPDATE SKIP LOCKED LIMIT 1; `locked` holds of the rows that transactions
  -- in flight have locked.
  unfoldable pub next_claimable :
      Database → ℕ → Option (List String) → (TrainingRun → Bool) → Option TrainingRun
  unfolding queued_before
  next_claimable db now course_ids locked =
      first queued_before
        (select (λ row. is_claimable now course_ids row && not (locked row)) db.runs)

  unfoldable pub claim_next_training_run :
      Database
      → (owner : String) (lease_seconds now : ℕ) (course_ids : Option (List String))
      → (locked : TrainingRun → Bool) → Result (Option RunRecord × Database)
  unfolding stamp
  claim_next_training_run db owner lease_seconds now course_ids locked = do
    let cleaned = strip owner
    guard (not (cleaned == "")) empty_owner
    guard (not (lease_seconds == 0)) bad_lease
    assert_valid_course_ids course_ids
    elim (next_claimable db now course_ids locked) [
      | none ↦ ok (none, db)
      | some row ↦
          let db' = record db {
            runs =
                update (has_key row.course_id row.run_id) (stamp cleaned lease_seconds now) db.runs;
          } in
          get_training_run db' row.course_id row.run_id >>= λ run. ok (run, db')
    ]
