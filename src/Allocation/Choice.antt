-- ===== src/Allocation/Choice.antt =====
-- backend/app/seed_allocation.py: one pass chooses the best item, gives it a slot, and goes on.
use css360_syllabus_bot.Prelude.{
  ℕ, zero, suc, ◌+◌, Bool, true, false, ◌&&◌, ◌||◌, String, Option, none, some, List, [], ◌∷◌, map,
  leb, ltb, ◌==◌, string_eq, if◌then◌else◌, FloatOps,
}
use css360_syllabus_bot.Allocation.{
  text_before, Fact, kind_of, scope_of, series_key_of, primary_source_chunk, Caps,
  compute_allocation_caps, suggest_question_styles,
}
use css360_syllabus_bot.Allocation.Desired.{
  Reason, breadth_first_slot, depth_additional_slot, course_wide_reservation_priority,
  additional_slot_justified_by_complexity_or_scenarios,
}
use css360_syllabus_bot.Allocation.Passes.{
  bump, bump_if, add_reason, change_at, Candidate, candidate_of, ranked, Allocation,
  is_course_wide_first, effective_score,
}

module _ (F : FloatOps) where
  -- The best item so far, with its place among the candidates and its score.
  pub record Best : Type 0 where
    pub place : ℕ
    pub score : F.Float
    pub item : Candidate F

  abbrev pub is_better : F.Float → Candidate F → Option Best → Bool
  is_better score item none = true
  is_better score item (some best) =
      F.below best.score score
      || (F.same score best.score
          && (F.below best.item.ranking_score item.ranking_score
              || (F.same item.ranking_score best.item.ranking_score
                  && text_before item.fact_id best.item.fact_id)))

  abbrev pub best_of : ℕ → Option F.Float × Candidate F → Option Best → Option Best
  best_of place (none, item) best = best
  best_of place (some score, item) best =
      if is_better score item best
      then some record { place = place; score = score; item = item }
      else best

  unfoldable pub choose_from : ℕ → List (Option F.Float × Candidate F) → Option Best → Option Best
  choose_from place [] best = best
  choose_from place (scored ∷ rest) best = choose_from (suc place) rest (best_of place scored best)

  -- What every item scores now; an item that is blocked remembers why.
  unfoldable pub scores : Caps F → Allocation F → Bool → List (Option F.Float × Candidate F)
  unfolding effective_score
  scores caps a first_slot_only = map (effective_score F caps a first_slot_only) a.candidates

  unfoldable pub choose : Caps F → Allocation F → Bool → Option Best
  unfolding choose_from scores
  choose caps a first_slot_only = choose_from 0 (scores caps a first_slot_only) none

  -- The allocation after the items were looked at.
  abbrev pub looked_at : Caps F → Allocation F → Bool → Allocation F
  looked_at caps a first_slot_only = record a {
    candidates = map (λ scored. scored.1) (scores caps a first_slot_only);
  }

  abbrev pub with_slot : Reason → Candidate F → Candidate F
  with_slot reason item =
      let reasons = add_reason reason item.alloc_reasons in
      record item {
        slot_count = item.slot_count + 1;
        alloc_reasons =
            if leb 2 (item.slot_count + 1)
            then add_reason additional_slot_justified_by_complexity_or_scenarios reasons
            else reasons;
      }

  unfoldable pub commit_slot : ℕ → Candidate F → Reason → Allocation F → Allocation F
  unfolding change_at add_reason
  commit_slot place item reason a = record {
    candidates = change_at place (with_slot reason) a.candidates;
    scope_counts = bump (scope_of F item.fact) a.scope_counts;
    kind_counts = bump (kind_of F item.fact) a.kind_counts;
    series_counts = bump_if (series_key_of F item.fact) a.series_counts;
    chunk_counts = bump_if (primary_source_chunk F item.fact) a.chunk_counts;
    allocated_total = a.allocated_total + 1;
    course_wide_allocated =
        if scope_of F item.fact == "course_wide"
        then a.course_wide_allocated + 1
        else a.course_wide_allocated;
  }

  abbrev pub reason_for : Caps F → Allocation F → Reason → Candidate F → Reason
  reason_for caps a pass_reason item =
      if is_course_wide_first F caps a item then course_wide_reservation_priority else pass_reason

  -- The end of one turn of the loop: the slot is given, or the pass ends.
  abbrev pub given :
      Caps F → Reason → Allocation F → (Allocation F → Allocation F) → Option Best → Allocation F
  given caps pass_reason a again none = a
  given caps pass_reason a again (some best) =
      again (commit_slot best.place best.item (reason_for caps a pass_reason best.item) a)

  -- Every turn but the last gives a slot, so at most `target` turns and one more are made.
  unfoldable pub fill_pass : ℕ → ℕ → Caps F → Bool → Reason → Allocation F → Allocation F
  unfolding commit_slot choose scores
  fill_pass zero target caps first_slot_only pass_reason a = a
  fill_pass (suc fuel) target caps first_slot_only pass_reason a =
      if ltb a.allocated_total target
      then given caps pass_reason (looked_at caps a first_slot_only)
          (fill_pass fuel target caps first_slot_only pass_reason) (choose caps a first_slot_only)
      else a

  abbrev pub no_slots : List (Fact F) → Allocation F
  no_slots facts = record {
    candidates = ranked F (map (candidate_of F) facts);
    scope_counts = λ key. 0;
    kind_counts = λ key. 0;
    series_counts = λ key. 0;
    chunk_counts = λ key. 0;
    allocated_total = 0;
    course_wide_allocated = 0;
  }

  -- Breadth first, one slot each; then more slots for those that have one.
  unfoldable pub allocate_slots : List (Fact F) → ℕ → Allocation F
  unfolding fill_pass compute_allocation_caps
  allocate_slots facts target =
      let caps = compute_allocation_caps F target in
      fill_pass (suc target) target caps false depth_additional_slot
        (fill_pass (suc target) target caps true breadth_first_slot (no_slots facts))

  -- The styles that an item's entry of the result names.
  unfoldable pub allocated_styles : Candidate F → List String
  unfolding suggest_question_styles
  allocated_styles item =
      elim (suggest_question_styles item.fact.kind item.fact.complexity item.slot_count false) [
        | [] ↦ item.suggested_styles
        | ◌∷◌ style styles ↦ style ∷ styles
      ]
