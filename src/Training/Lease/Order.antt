-- ===== src/Training/Lease/Order.antt =====
-- A claim takes the run that has waited longest.
use css360_syllabus_bot.Prelude.{
  ℕ, ◌<◌, ◌≡◌, ◌⊎◌, inl, inr, Bool, true, false, not, ◌&&◌, ◌||◌, ap, strip, String, Option, some,
  List, ltb, arith, ◌==◌, nat_eq,
}
use css360_syllabus_bot.Table.{select}
use css360_syllabus_bot.Table.Members.{Elem}
use css360_syllabus_bot.Table.First.{IsOrder, select-Elem, first-least}
use css360_syllabus_bot.Training.Run.{TrainingRun, RunRecord, map_training_run}
use css360_syllabus_bot.Training.Error.{ok}
use css360_syllabus_bot.Training.Database.{Database}
use css360_syllabus_bot.Training.Claims.{
  is_claimable, stamp, queued_before, next_claimable, claim_next_training_run,
}
use css360_syllabus_bot.Training.Sound.{IsSound}
use css360_syllabus_bot.Training.Lease.{taking_row}

not_before :
    (a b : ℕ) (t : Bool) → (ltb a b || (a == b && t)) ≡ false → (b < a) ⊎ ((b ≡ a) × (t ≡ false))
not_before a b t h = elim (compare a b) [
  | inl less ↦ absurd (ground arith)
  | inr (inl same) ↦ ground arith
  | inr (inr more) ↦ inl more
]
  where
    compare : (a b : ℕ) → (a < b) ⊎ ((b ≡ a) ⊎ (b < a))
    compare a b = omega arith

module _ (text_before : String → String → Bool) where
  queued_before-IsOrder : IsOrder text_before → IsOrder (queued_before text_before)
  unfolding queued_before
  queued_before-IsOrder o = record {
    irreflexive = λ a. ground (arith, o.irreflexive a.run_id);
    transitive = λ a b c h k. ground (arith, o.transitive a.run_id b.run_id c.run_id);
  }

  chosen-least :
      (db : Database) (now : ℕ) (course_ids : Option (List String)) (locked : TrainingRun → Bool)
      (best row : TrainingRun)
      → IsOrder text_before
      → next_claimable text_before db now course_ids locked ≡ some best
      → Elem row db.runs
      → is_claimable now course_ids row ≡ true
      → locked row ≡ false
      → queued_before text_before row best ≡ false
  unfolding next_claimable
  chosen-least db now course_ids locked best row o h m free unlocked =
      let test = λ (x : TrainingRun). is_claimable now course_ids x && not (locked x) in
      first-least (queued_before text_before) (select test db.runs) row best
        (queued_before-IsOrder o) h
        (select-Elem test db.runs row m (ground (arith, free, unlocked)))

  earlier :
      (row best : TrainingRun) (run : RunRecord) (owner : String) (lease_seconds now : ℕ)
      → queued_before text_before row best ≡ false
      → run ≡ map_training_run (stamp owner lease_seconds now best)
      → (run.enqueued_at < row.enqueued_at)
        ⊎ ((run.enqueued_at ≡ row.enqueued_at) × (text_before row.run_id run.run_id ≡ false))
  unfolding queued_before map_training_run stamp
  earlier row best run owner lease_seconds now h e =
      rw (ap (λ r. r.enqueued_at) e, ap (λ r. r.run_id) e)
        (not_before row.enqueued_at best.enqueued_at (text_before row.run_id best.run_id) h)

  -- In a sound queue, where the order on run ids is strict, the run that a claim takes was queued before every other run
  -- that it could have taken, or at the same moment with an id that is not after.
  pub claim_takes_earliest :
      (db done : Database) (owner : String) (lease_seconds now : ℕ)
      (course_ids : Option (List String)) (locked : TrainingRun → Bool) (run : RunRecord)
      (row : TrainingRun)
      → IsOrder text_before
      → IsSound db.runs
      → claim_next_training_run text_before db owner lease_seconds now course_ids locked
        ≡ ok (some run, done)
      → Elem row db.runs
      → is_claimable now course_ids row ≡ true
      → locked row ≡ false
      → (run.enqueued_at < row.enqueued_at)
        ⊎ ((run.enqueued_at ≡ row.enqueued_at) × (text_before row.run_id run.run_id ≡ false))
  claim_takes_earliest db done owner lease_seconds now course_ids locked run row o s h m free
        unlocked =
      let t = taking_row text_before db done owner lease_seconds now course_ids locked run s h in
      earlier row t.row run (strip owner) lease_seconds now
        (chosen-least db now course_ids locked t.row row o t.chosen m free unlocked) t.read
