-- ===== src/Allocation/Within.antt =====
-- The whole allocation stays within its bounds.
use css360_syllabus_bot.Prelude.{
  ℕ, zero, suc, Option, ◌+◌, ◌≤◌, ◌≡◌, ◌∙◌, refl, Bool, true, false, String, none, some, List, [],
  ◌∷◌, map, ltb, FloatOps, inl, inr, Bool-cases, Option-cases, arith, All,
}
use css360_syllabus_bot.Allocation.{Fact, Caps, compute_allocation_caps, primary_source_chunk}
use css360_syllabus_bot.Allocation.Desired.{
  Reason, desired_at_most, breadth_first_slot, depth_additional_slot,
}
use css360_syllabus_bot.Allocation.Passes.{
  Counter, bump_if, Candidate, candidate_of, ranked, insert_ranked, ranks_before, Allocation,
  effective_score,
}
use css360_syllabus_bot.Allocation.Choice.{
  Best, scores, choose, looked_at, commit_slot, reason_for, fill_pass, no_slots, allocate_slots,
}
use css360_syllabus_bot.Allocation.Chunks.{chunk-looked, chunk_given, fresh_chunk}
use css360_syllabus_bot.Allocation.Bounds.{
  chunk_slots, total_slots, IsModest, IsWithin, chosen-Sits, looked, total-looked, All-looked,
  total_given, All-given, chunk_free, bumped_within,
}

bumped_alike :
    (key : Option String) (a b : Counter) (chunk : String)
    → ((c : String) → a c ≡ b c)
    → bump_if key a chunk ≡ bump_if key b chunk
bumped_alike none a b chunk same = same chunk
bumped_alike (some key) a b chunk same = rw (same chunk) refl

module _ (F : FloatOps) (caps : Caps F) where
  looked_at-IsWithin :
      (target : ℕ) (a : Allocation F) (first : Bool)
      → IsWithin F caps target a
      → IsWithin F caps target (looked_at F caps a first)
  unfolding scores looked
  looked_at-IsWithin target a first w = record {
    total = total-looked F caps a first a.candidates ∙ w.total;
    reached = w.reached;
    modest = All-looked F caps a first a.candidates w.modest;
    counted = λ chunk. chunk-looked F caps a first a.candidates chunk ∙ w.counted chunk;
    chunks = w.chunks;
  }

  committed-IsWithin :
      (target : ℕ) (a : Allocation F) (first : Bool) (reason : Reason) (best : Best F)
      → IsWithin F caps target a
      → ltb a.allocated_total target ≡ true
      → choose F caps a first ≡ some best
      → IsWithin F caps target
          (commit_slot F best.place best.item reason (looked_at F caps a first))
  unfolding commit_slot choose scores looked
  committed-IsWithin target a first reason best w below chosen =
      elim (chosen-Sits F caps (effective_score F caps a first) zero a.candidates none best
        chosen) [
          | inl before ↦ absurd (cc)
          | inr (n, p, sits) ↦
              let here : best.place ≡ n = p ∙ (omega arith) in
              record {
                total =
                    rw (here, total_given F caps a first reason best n a.candidates sits, w.total)
                      (omega arith);
                reached = ground (arith, w.reached);
                modest =
                    rw here (All-given F caps a first reason best n a.candidates sits w.modest);
                counted = λ chunk. rw here (
                    chunk_given F caps a first reason best n a.candidates chunk sits
                    ∙ bumped_alike (primary_source_chunk F best.item.fact) _ _ chunk w.counted);
                chunks = λ chunk.
                    bumped_within F caps a.chunk_counts (primary_source_chunk F best.item.fact)
                      chunk w.chunks (chunk_free F caps a first best n a.candidates sits);
              }
        ]

  pub fill_pass-IsWithin :
      (fuel target : ℕ) (first : Bool) (reason : Reason) (a : Allocation F)
      → IsWithin F caps target a
      → IsWithin F caps target (fill_pass F fuel target caps first reason a)
  unfolding fill_pass
  fill_pass-IsWithin zero target first reason a w = w
  fill_pass-IsWithin (suc fuel) target first reason a w =
      elim (Bool-cases (ltb a.allocated_total target)) [
        | inl below ↦ elim (Option-cases (choose F caps a first)) [
          | inl nobody ↦ rw (below, nobody) (looked_at-IsWithin target a first w)
          | inr (best, chosen) ↦
              rw (below, chosen)
                (fill_pass-IsWithin fuel target first reason _ (
                  committed-IsWithin target a first
                    (reason_for F caps (looked_at F caps a first) reason best.item) best w below
                    chosen))
        ]
        | inr full ↦ rw full w
      ]

module _ (F : FloatOps) where
  ranked_total :
      (c : Candidate F) (items : List (Candidate F))
      → total_slots F (insert_ranked F c items) ≡ c.slot_count + total_slots F items
  unfolding insert_ranked total_slots
  ranked_total c [] = refl
  ranked_total c (x ∷ items) = elim (Bool-cases (ranks_before F x c)) [
    | inl h ↦ rw (h, ranked_total c items) (omega arith)
    | inr h ↦ rw h refl
  ]

  ranked_All :
      (c : Candidate F) (items : List (Candidate F))
      → IsModest F c
      → All (IsModest F) items
      → All (IsModest F) (insert_ranked F c items)
  unfolding insert_ranked
  ranked_All c [] m all = (m, tt)
  ranked_All c (x ∷ items) m (n, all) = elim (Bool-cases (ranks_before F x c)) [
    | inl h ↦ rw h (n, ranked_All c items m all)
    | inr h ↦ rw h (m, (n, all))
  ]

  fresh_total : (facts : List (Fact F)) → total_slots F (ranked F (map (candidate_of F) facts)) ≡ 0
  unfolding ranked total_slots
  fresh_total [] = refl
  fresh_total (fact ∷ facts) =
      rw
        (
          ranked_total (candidate_of F fact) (ranked F (map (candidate_of F) facts)),
          fresh_total facts,
        )
        (omega arith)

  fresh_All : (facts : List (Fact F)) → All (IsModest F) (ranked F (map (candidate_of F) facts))
  unfolding ranked
  fresh_All [] = tt
  fresh_All (fact ∷ facts) =
      ranked_All (candidate_of F fact) (ranked F (map (candidate_of F) facts))
        (omega arith, desired_at_most F fact) (fresh_All facts)

  no_slots-IsWithin :
      (caps : Caps F) (target : ℕ) (facts : List (Fact F))
      → IsWithin F caps target (no_slots F facts)
  no_slots-IsWithin caps target facts = record {
    total = fresh_total facts;
    reached = omega arith;
    modest = fresh_All facts;
    counted = fresh_chunk F facts;
    chunks = λ chunk. omega arith;
  }

  pub allocate_slots-IsWithin :
      (facts : List (Fact F)) (target : ℕ)
      → IsWithin F (compute_allocation_caps F target) target (allocate_slots F facts target)
  unfolding allocate_slots
  allocate_slots-IsWithin facts target =
      let caps = compute_allocation_caps F target in
      fill_pass-IsWithin F caps (suc target) target false depth_additional_slot _ (
        fill_pass-IsWithin F caps (suc target) target true breadth_first_slot (no_slots F facts)
          (no_slots-IsWithin caps target facts))

  -- Whatever the facts, their scores and the target: the slots that are handed out add up to the total
  -- that is reported, which is at most the target; no fact gets more slots than it wants, nor more
  -- than three; and the slots of the facts with the same primary source chunk add up to no more than
  -- the cap of a chunk.
  pub slots_bounded :
      (facts : List (Fact F)) (target : ℕ)
      → let a = allocate_slots F facts target in
        let caps = compute_allocation_caps F target in
        (total_slots F a.candidates ≡ a.allocated_total)
        × (a.allocated_total ≤ target)
        × All (IsModest F) a.candidates
        × ((chunk : String) → chunk_slots F a.candidates chunk ≤ caps.per_source_chunk)
  slots_bounded facts target =
      let w = allocate_slots-IsWithin facts target in
      (w.total, w.reached, w.modest, λ chunk. rw (w.counted chunk) (w.chunks chunk))
