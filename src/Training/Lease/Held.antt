-- ===== src/Training/Lease/Held.antt =====
-- What a claim leaves in the table: the lease on one row, and every other row as it was.
use css360_syllabus_bot.Prelude.{
  ℕ, ◌+◌, ◌*◌, ◌≤◌, ◌≡◌, ◌∙◌, refl, Bool, true, false, String, Option, none, some, List, ◌⊎◌, inl,
  inr, arith, strip, if◌then◌else◌, string_eq, eq_iff, Option-cases, Bool-cases,
}
use css360_syllabus_bot.Table.{find, update}
use css360_syllabus_bot.Table.Laws.{find-update, find_passes}
use css360_syllabus_bot.Training.Run.{RunState, TrainingRun, RunRecord, map_training_run}
use css360_syllabus_bot.Training.Error.{ok}
use css360_syllabus_bot.Training.Database.{Database}
use css360_syllabus_bot.Training.Runs.{has_key}
use css360_syllabus_bot.Training.Patch.{is_given}
use css360_syllabus_bot.Training.Claims.{
  is_expired, is_open, is_claimable, stamp, claim_next_training_run,
}
use css360_syllabus_bot.Training.Lease.{taking_row}
use css360_syllabus_bot.Training.Sound.{IsSound}

-- No lease, or one that ended.
abbrev pub IsLapsed : Option ℕ → ℕ → Type 0
IsLapsed none now = Unit {0}
IsLapsed (some expires_at) now = expires_at ≤ now

-- Queued, or claimed under a lease that ended, and without a job.
abbrev pub IsFree : TrainingRun → ℕ → Type 0
IsFree row now =
    (row.job_id ≡ none)
    × ((row.state ≡ RunState.queued)
        ⊎ ((row.state ≡ RunState.claimed) × IsLapsed row.claim_expires_at now))

-- The row that a claim took, as it was and as it is now.
pub record IsHeld (db done : Database) (owner : String) (lease_seconds now : ℕ)
    (locked : TrainingRun → Bool) (run : RunRecord) : Type 0 where
  pub row : TrainingRun
  pub found : find (has_key row.course_id row.run_id) db.runs ≡ some row
  pub free : IsFree row now
  pub unlocked : locked row ≡ false
  pub rows :
      (course_id run_id : String)
      → find (has_key course_id run_id) done.runs ≡ (
          if has_key course_id run_id row
          then some (record row {
            state = RunState.claimed;
            attempt = row.attempt + 1;
            updated_at = now;
            claim_owner = some (strip owner);
            claim_claimed_at = some now;
            claim_expires_at = some (now + lease_seconds * 1000000);
          })
          else find (has_key course_id run_id) db.runs)
  pub reported :
      (run.course_id ≡ row.course_id)
      × (run.run_id ≡ row.run_id)
      × (run.state ≡ RunState.claimed)
      × (run.attempt ≡ row.attempt + 1)
      × (run.dataset_ref ≡ row.dataset_ref)

no_job : (job_id : Option String) → is_given job_id ≡ false → job_id ≡ none
no_job none h = refl
no_job (some job_id) h = cc

queued_or_over :
    (state : RunState) (expires_at : Option ℕ) (now : ℕ)
    → is_open state expires_at now ≡ true
    → (state ≡ RunState.queued) ⊎ ((state ≡ RunState.claimed) × IsLapsed expires_at now)
unfolding is_open is_expired
queued_or_over RunState.queued expires_at now h = inl refl
queued_or_over RunState.claimed none now h = inr (refl, tt)
queued_or_over RunState.claimed (some expires_at) now h = inr (refl, ground arith)
queued_or_over RunState.submitted expires_at now h = cc
queued_or_over RunState.training expires_at now h = cc
queued_or_over RunState.succeeded expires_at now h = cc
queued_or_over RunState.failed expires_at now h = cc
queued_or_over (RunState.unrecognised text) expires_at now h = cc

claimable-IsFree :
    (now : ℕ) (course_ids : Option (List String)) (row : TrainingRun)
    → is_claimable now course_ids row ≡ true
    → IsFree row now
unfolding is_claimable
claimable-IsFree now course_ids row h = (
  no_job row.job_id (ground arith),
  queued_or_over row.state row.claim_expires_at now (ground arith),
)

other_kept :
    (course_id run_id : String) (row : TrainingRun) (change : TrainingRun → TrainingRun)
    (rows : List TrainingRun)
    → ((x : TrainingRun) → has_key course_id run_id (change x) ≡ has_key course_id run_id x)
    → has_key course_id run_id row ≡ false
    → find (has_key course_id run_id) (update (has_key row.course_id row.run_id) change rows)
      ≡ find (has_key course_id run_id) rows
other_kept course_id run_id row change rows same other =
    find-update (has_key course_id run_id) (has_key row.course_id row.run_id) change rows same
    ∙ elim (Option-cases (find (has_key course_id run_id) rows)) [
      | inl missing ↦ rw missing refl
      | inr (x, there) ↦
          let own = find_passes (has_key course_id run_id) rows x there in
          let apart : has_key row.course_id row.run_id x ≡ false = ground (
            arith,
            own,
            other,
            eq_iff x.course_id course_id,
            eq_iff x.run_id run_id,
            eq_iff x.course_id row.course_id,
            eq_iff x.run_id row.run_id,
            eq_iff row.course_id course_id,
            eq_iff row.run_id run_id,
          ) in
          rw (there, apart) refl
    ]

own_written :
    (owner : String) (lease_seconds now : ℕ) (row : TrainingRun) (rows : List TrainingRun)
    → find (has_key row.course_id row.run_id) rows ≡ some row
    → find
        (has_key row.course_id row.run_id)
        (update (has_key row.course_id row.run_id) (stamp owner lease_seconds now) rows)
      ≡ some (stamp owner lease_seconds now row)
unfolding stamp
own_written owner lease_seconds now row rows there = ground (
  arith,
  there,
  find_passes (has_key row.course_id row.run_id) rows row there,
  find-update (has_key row.course_id row.run_id) (has_key row.course_id row.run_id)
      (stamp owner lease_seconds now) rows (λ x. refl),
)

written_rows :
    (owner : String) (lease_seconds now : ℕ) (c r : String) (row : TrainingRun)
    (rows : List TrainingRun)
    → find (has_key row.course_id row.run_id) rows ≡ some row
    → find
        (has_key c r)
        (update (has_key row.course_id row.run_id) (stamp owner lease_seconds now) rows)
      ≡ (if has_key c r row
          then some (stamp owner lease_seconds now row)
          else find (has_key c r) rows)
unfolding stamp
written_rows owner lease_seconds now c r row rows there = elim (Bool-cases (has_key c r row)) [
  | inl own ↦
      let e : row.course_id ≡ c = (eq_iff row.course_id c).0 (ground (arith, own)) in
      let f : row.run_id ≡ r = (eq_iff row.run_id r).0 (ground (arith, own)) in
      rw own (rw (← e, ← f) (own_written owner lease_seconds now row rows there))
  | inr other ↦ rw other (other_kept c r row (stamp owner lease_seconds now) rows (λ x. refl) other)
]

module _ (text_before : String → String → Bool) where
  -- In a sound queue, a claim that returns a run found it without a job, queued or under a lease that
  -- had ended, and not locked. Its row now holds the lease: claimed, one attempt more, held by the
  -- owner without blanks from now for `lease_seconds`, and nothing else of it changed. Every other row
  -- is as it was, and the run that is returned is that one, claimed, with its attempt and dataset.
  pub claim_takes :
      (db done : Database) (owner : String) (lease_seconds now : ℕ)
      (course_ids : Option (List String)) (locked : TrainingRun → Bool) (run : RunRecord)
      → IsSound db.runs
      → claim_next_training_run text_before db owner lease_seconds now course_ids locked
        ≡ ok (some run, done)
      → IsHeld db done owner lease_seconds now locked run
  unfolding stamp map_training_run
  claim_takes db done owner lease_seconds now course_ids locked run s h =
      let t = taking_row text_before db done owner lease_seconds now course_ids locked run s h in
      record {
        row = t.row;
        found = t.found;
        free = claimable-IsFree now course_ids t.row t.claimable;
        unlocked = t.unlocked;
        rows = λ c r.
            rw t.written (written_rows (strip owner) lease_seconds now c r t.row db.runs t.found);
        reported = rw t.read (refl, refl, refl, refl, refl);
      }
