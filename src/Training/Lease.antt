-- ===== src/Training/Lease.antt =====
-- The lease of a claim: what is taken, and that nobody else takes it while the lease runs.
pub mod Order
pub mod Held
use mathlib.Core.Option
use css360_syllabus_bot.Prelude.{
  ℕ, ◌+◌, ◌<◌, ◌≡◌, refl, ap, Bool, true, false, String, Option, none, some, List, strip, arith,
  ◌==◌, string_eq, eq_iff, Option-cases, inl, inr,
}
use css360_syllabus_bot.Table.{find, update}
use css360_syllabus_bot.Table.Laws.{find-update}
use css360_syllabus_bot.Training.Run.{RunState, seconds, TrainingRun, RunRecord, map_training_run}
use css360_syllabus_bot.Training.Error.{Result, ok, err, guard, require, ◌>>=◌, ◌>>◌}
use css360_syllabus_bot.Training.Database.{Database}
use css360_syllabus_bot.Training.Runs.{has_key, find_run, get_training_run}
use css360_syllabus_bot.Training.Claims.{
  is_open, is_expired, is_claimable, stamp, next_claimable, claim_next_training_run,
}
use css360_syllabus_bot.Training.Ensures.{
  Ensures, Ensures-eq, returned, raised, Ensures-guard, Ensures-bind_eq, Ensures-step,
}
use css360_syllabus_bot.Training.Sound.{IsSound, still}
use css360_syllabus_bot.Training.Sound.Invariant.{Moves-IsSound}
use css360_syllabus_bot.Training.Sound.Queue.{next_claimable_found, claim-Moves}

-- What a claim that returns `run` found and wrote.
pub record Took (text_before : String → String → Bool) (db done : Database) (owner : String)
    (lease_seconds now : ℕ) (course_ids : Option (List String)) (locked : TrainingRun → Bool)
    (run : RunRecord) : Type 0 where
  pub row : TrainingRun
  pub chosen : next_claimable text_before db now course_ids locked ≡ some row
  pub found : find (has_key row.course_id row.run_id) db.runs ≡ some row
  pub claimable : is_claimable now course_ids row ≡ true
  pub unlocked : locked row ≡ false
  pub written :
      done.runs
      ≡ update (has_key row.course_id row.run_id) (stamp (strip owner) lease_seconds now) db.runs
  pub read : run ≡ map_training_run (stamp (strip owner) lease_seconds now row)

stamped :
    (db done : Database) (owner : String) (lease_seconds now : ℕ) (row : TrainingRun)
    (found : Option RunRecord) (run : RunRecord)
    → find (has_key row.course_id row.run_id) db.runs ≡ some row
    → done.runs ≡ update (has_key row.course_id row.run_id) (stamp owner lease_seconds now) db.runs
    → get_training_run done row.course_id row.run_id ≡ ok found
    → found ≡ some run
    → run ≡ map_training_run (stamp owner lease_seconds now row)
unfolding get_training_run find_run guard ◌>>◌ stamp
stamped db done owner lease_seconds now row found run there written got e = ground (
  arith,
  written,
  got,
  e,
  there,
  eq_iff row.course_id row.course_id,
  eq_iff row.run_id row.run_id,
  find-update (has_key row.course_id row.run_id) (has_key row.course_id row.run_id)
      (stamp owner lease_seconds now) db.runs (λ x. refl),
)

-- The row under the key that was claimed is the stamped one.
same_row :
    (db held : Database) (owner : String) (lease_seconds now : ℕ) (row other : TrainingRun)
    → find (has_key row.course_id row.run_id) db.runs ≡ some row
    → held.runs ≡ update (has_key row.course_id row.run_id) (stamp owner lease_seconds now) db.runs
    → find (has_key other.course_id other.run_id) held.runs ≡ some other
    → other.course_id ≡ row.course_id
    → other.run_id ≡ row.run_id
    → other ≡ stamp owner lease_seconds now row
unfolding stamp
same_row db held owner lease_seconds now row other there written found c r = ground (
  arith,
  there,
  written,
  found,
  c,
  r,
  eq_iff row.course_id row.course_id,
  eq_iff row.run_id row.run_id,
  find-update (has_key row.course_id row.run_id) (has_key row.course_id row.run_id)
      (stamp owner lease_seconds now) db.runs (λ x. refl),
)

pub key_of :
    (owner : String) (lease_seconds now : ℕ) (row : TrainingRun) (run : RunRecord)
    → run ≡ map_training_run (stamp owner lease_seconds now row)
    → (run.course_id ≡ row.course_id) × (run.run_id ≡ row.run_id)
unfolding stamp map_training_run
key_of owner lease_seconds now row run h = (ap (λ r. r.course_id) h, ap (λ r. r.run_id) h)

-- A row is not claimable before its lease ends.
leased :
    (now lease_seconds later : ℕ) (owner : String) (ids : Option (List String)) (row : TrainingRun)
    → is_claimable later ids (stamp owner lease_seconds now row) ≡ true
    → ¬ (later < now + seconds lease_seconds)
unfolding stamp is_claimable
leased now lease_seconds later owner ids row h early = ground arith

module _ (text_before : String → String → Bool) where
  claim-Took :
      (db : Database) (owner : String) (lease_seconds now : ℕ) (course_ids : Option (List String))
      (locked : TrainingRun → Bool)
      → IsSound db.runs
      → Ensures
          (λ r.
            (run : RunRecord)
            → r.0 ≡ some run
            → Took text_before db r.1 owner lease_seconds now course_ids locked run)
          (claim_next_training_run text_before db owner lease_seconds now course_ids locked)
  unfolding claim_next_training_run
  claim-Took db owner lease_seconds now course_ids locked s = Ensures-guard _ _ _ λ _.
      Ensures-guard _ _ _ λ _. Ensures-step _ _ λ _.
        elim (Option-cases (next_claimable text_before db now course_ids locked)) [
          | inl nothing ↦ rw nothing (returned (λ run h. cc))
          | inr (row, chosen) ↦
              let (found, claimable, unlocked) =
                next_claimable_found text_before db now course_ids locked row s chosen in
              rw chosen (
                Ensures-bind_eq _ _ λ run got. returned (λ taken h. record {
                  row = row;
                  chosen = chosen;
                  found = found;
                  claimable = claimable;
                  unlocked = unlocked;
                  written = refl;
                  read =
                      stamped db _ (strip owner) lease_seconds now row run taken found refl got h;
                }))
        ]

  pub taking_row :
      (db done : Database) (owner : String) (lease_seconds now : ℕ)
      (course_ids : Option (List String)) (locked : TrainingRun → Bool) (run : RunRecord)
      → IsSound db.runs
      → claim_next_training_run text_before db owner lease_seconds now course_ids locked
        ≡ ok (some run, done)
      → Took text_before db done owner lease_seconds now course_ids locked run
  taking_row db done owner lease_seconds now course_ids locked run s h =
      Ensures-eq (claim-Took db owner lease_seconds now course_ids locked s) h run refl

  -- In a sound queue, the run that a claim at `now` took for `lease_seconds` is not what any claim of any worker takes
  -- next while the lease runs.
  pub claim_exclusive :
      (db held done : Database) (owner other_owner : String)
      (lease_seconds other_lease now later : ℕ) (course_ids other_ids : Option (List String))
      (locked other_locked : TrainingRun → Bool) (run other : RunRecord)
      → IsSound db.runs
      → claim_next_training_run text_before db owner lease_seconds now course_ids locked
        ≡ ok (some run, held)
      → claim_next_training_run text_before held other_owner other_lease later other_ids
          other_locked
        ≡ ok (some other, done)
      → later < now + seconds lease_seconds
      → ¬ ((other.course_id ≡ run.course_id) × (other.run_id ≡ run.run_id))
  claim_exclusive db held done owner other_owner lease_seconds other_lease now later course_ids
        other_ids locked other_locked run other s first second early (same_course, same_run) =
      let u =
        Moves-IsSound
          (Ensures-eq (claim-Moves text_before db owner lease_seconds now course_ids locked s still)
            first)
          s in
      let a = taking_row db held owner lease_seconds now course_ids locked run s first in
      let b =
        taking_row held done other_owner other_lease later other_ids other_locked other u second in
      let mine = key_of (strip owner) lease_seconds now a.row run a.read in
      let theirs = key_of (strip other_owner) other_lease later b.row other b.read in
      leased now lease_seconds later (strip owner) other_ids a.row
        (rw
          (← (
            same_row db held (strip owner) lease_seconds now a.row b.row a.found a.written b.found
              (cc (mine.0, theirs.0, same_course)) (cc (mine.1, theirs.1, same_run))))
          b.claimable)
        early
