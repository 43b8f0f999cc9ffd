-- ===== src/Allocation/Chunks.antt =====
-- The slots of each source chunk, and the counter that the passes keep of them.
use css360_syllabus_bot.Prelude.{
  ℕ, ◌+◌, ◌≡◌, refl, Bool, String, Option, none, some, List, [], ◌∷◌, ltb, not, map, ◌==◌,
  string_eq, if◌then◌else◌, FloatOps, Bool-cases, inl, inr, arith,
}
use css360_syllabus_bot.Allocation.{Fact, Caps, primary_source_chunk}
use css360_syllabus_bot.Allocation.Desired.{Reason}
use css360_syllabus_bot.Allocation.Passes.{
  Counter, bump_if, CapReason, change_at, Candidate, candidate_of, ranked, insert_ranked,
  ranks_before, Allocation, cap_blockers, is_wanting, scored_by, effective_score,
}
use css360_syllabus_bot.Allocation.Choice.{Best, with_slot}
use css360_syllabus_bot.Allocation.Bounds.{
  is_of_chunk, chunk_slots, Sits, here, there, effective_wanting, looked_same, looked,
}

module _ (F : FloatOps) where
  bumped_here :
      (key : Option String) (slots : ℕ) (rest : Counter) (chunk : String)
      → (if is_of_chunk F key chunk then slots + 1 + rest chunk else rest chunk)
        ≡ bump_if key (λ c. if is_of_chunk F key c then slots + rest c else rest c) chunk
  bumped_here none slots rest chunk = refl
  bumped_here (some key) slots rest chunk = elim (Bool-cases (chunk == key)) [
    | inl same ↦ rw same (omega arith)
    | inr other ↦ rw other refl
  ]

  bumped_there :
      (key mine : Option String) (slots : ℕ) (rest : Counter) (chunk : String)
      → (if is_of_chunk F mine chunk
          then slots + bump_if key rest chunk
          else bump_if key rest chunk)
        ≡ bump_if key (λ c. if is_of_chunk F mine c then slots + rest c else rest c) chunk
  bumped_there none mine slots rest chunk = refl
  bumped_there (some key) mine slots rest chunk = elim (Bool-cases (chunk == key)) [
    | inl same ↦ elim (Bool-cases (is_of_chunk F mine chunk)) [
      | inl own ↦ rw (same, own) (omega arith)
      | inr foreign ↦ rw (same, foreign) refl
    ]
    | inr other ↦ rw other refl
  ]

module _ (F : FloatOps) (caps : Caps F) where
  scored_fact :
      (a : Allocation F) (x : Candidate F) (blockers : List CapReason)
      → (scored_by F caps a x blockers).1.fact ≡ x.fact
  scored_fact a x [] = refl
  scored_fact a x (blocker ∷ blockers) = refl

  looked_fact :
      (a : Allocation F) (first : Bool) (x : Candidate F)
      → (effective_score F caps a first x).1.fact ≡ x.fact
  unfolding effective_score
  looked_fact a first x = elim (Bool-cases (is_wanting F first x)) [
    | inl wanting ↦
        rw wanting (scored_fact a x (cap_blockers F caps a x.fact (ltb 0 x.slot_count) (not first)))
    | inr idle ↦ rw idle refl
  ]

  -- Looking at the items moves no slot.
  pub chunk-looked :
      (a : Allocation F) (first : Bool) (items : List (Candidate F)) (chunk : String)
      → chunk_slots F (looked F caps a first items) chunk ≡ chunk_slots F items chunk
  unfolding chunk_slots looked
  chunk-looked a first [] chunk = refl
  chunk-looked a first (x ∷ items) chunk =
      rw (looked_fact a first x, (looked_same F caps a first x).0, chunk-looked a first items chunk)
        refl

  -- The slot that is given is one more of the chunk that the counter counts it for.
  pub chunk_given :
      (a : Allocation F) (first : Bool) (reason : Reason) (best : Best F) (n : ℕ)
      (items : List (Candidate F)) (chunk : String)
      → Sits F caps (effective_score F caps a first) best n items
      → chunk_slots F (change_at n (with_slot F reason) (looked F caps a first items)) chunk
        ≡ bump_if (primary_source_chunk F best.item.fact) (chunk_slots F items) chunk
  unfolding chunk_slots looked change_at
  chunk_given a first reason best _ _ chunk (here x items e) =
      let (same, wanting, free) = effective_wanting F caps a first x best.score best.item e in
      rw
        (
          looked_fact a first x,
          (looked_same F caps a first x).0,
          chunk-looked a first items chunk,
          same,
        )
        (bumped_here F (primary_source_chunk F x.fact) x.slot_count (chunk_slots F items) chunk)
  chunk_given a first reason best _ _ chunk (there x items n sits) =
      rw
        (
          looked_fact a first x,
          (looked_same F caps a first x).0,
          chunk_given a first reason best n items chunk sits,
        )
        (bumped_there F (primary_source_chunk F best.item.fact) (primary_source_chunk F x.fact)
          x.slot_count (chunk_slots F items) chunk)

module _ (F : FloatOps) where
  ranked_chunk :
      (c : Candidate F) (items : List (Candidate F)) (chunk : String)
      → c.slot_count ≡ 0
      → chunk_slots F (insert_ranked F c items) chunk ≡ chunk_slots F items chunk
  unfolding insert_ranked chunk_slots
  ranked_chunk c [] chunk none_yet = ground arith
  ranked_chunk c (x ∷ items) chunk none_yet = elim (Bool-cases (ranks_before F x c)) [
    | inl h ↦ rw (h, ranked_chunk c items chunk none_yet) refl
    | inr h ↦ rw h (ground arith)
  ]

  pub fresh_chunk :
      (facts : List (Fact F)) (chunk : String)
      → chunk_slots F (ranked F (map (candidate_of F) facts)) chunk ≡ 0
  unfolding ranked chunk_slots
  fresh_chunk [] chunk = refl
  fresh_chunk (fact ∷ facts) chunk =
      rw (ranked_chunk (candidate_of F fact) (ranked F (map (candidate_of F) facts)) chunk refl)
        (fresh_chunk facts chunk)
