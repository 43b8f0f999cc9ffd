-- ===== src/Allocation/Finish.antt =====
-- A pass ends: it has the fuel for every slot, and it stops only where no slot is left to give.
use css360_syllabus_bot.Prelude.{
  ℕ, zero, suc, ◌+◌, ◌≤◌, ◌<◌, ◌≡◌, ◌⊎◌, ◌∙◌, refl, sym, Bool, true, false, not, Option, none, some,
  List, [], ◌∷◌, map, ltb, FloatOps, inl, inr, Bool-cases, Option-cases, arith, All,
}
use css360_syllabus_bot.Allocation.{Caps}
use css360_syllabus_bot.Allocation.Desired.{Reason}
use css360_syllabus_bot.Allocation.Passes.{
  Candidate, CapReason, Allocation, effective_score, scored_by, cap_blockers, is_wanting,
}
use css360_syllabus_bot.Allocation.Choice.{
  Best, best_of, is_better, choose_from, scores, choose, looked_at, commit_slot, reason_for,
  fill_pass,
}

module _ (F : FloatOps) (caps : Caps F) where
  -- The pass gives the item no slot.
  abbrev pub IsPassedOver : Allocation F → Bool → Candidate F → Type 0
  IsPassedOver a first item = (effective_score F caps a first item).0 ≡ none

  some_chosen :
      (place : ℕ) (scored : List (Option F.Float × Candidate F)) (best : Best F)
      → (found : Best F) × (choose_from F place scored (some best) ≡ some found)
  unfolding choose_from
  some_chosen place [] best = (best, refl)
  some_chosen place ((none, item) ∷ scored) best = some_chosen (suc place) scored best
  some_chosen place ((some score, item) ∷ scored) best =
      elim (Bool-cases (is_better F score item (some best))) [
        | inl better ↦
            rw better (
              some_chosen (suc place) scored (record { place = place; score = score; item = item }))
        | inr worse ↦ rw worse (some_chosen (suc place) scored best)
      ]

  first_idle :
      (place : ℕ) (scored : Option F.Float × Candidate F)
      (rest : List (Option F.Float × Candidate F))
      → choose_from F (suc place) rest (best_of F place scored none) ≡ none
      → (scored.0 ≡ none) × (choose_from F (suc place) rest none ≡ none)
  first_idle place (none, item) rest h = (refl, h)
  first_idle place (some score, item) rest h =
      let (found, e) =
        some_chosen (suc place) rest (record { place = place; score = score; item = item }) in
      absurd (let both : ◌≡◌ {A = Option (Best F)} (some found) none = sym e ∙ h in cc)

  none_chosen :
      (score : Candidate F → Option F.Float × Candidate F) (place : ℕ) (items : List (Candidate F))
      → choose_from F place (map score items) none ≡ none
      → All (λ item. (score item).0 ≡ none) items
  unfolding choose_from
  none_chosen score place [] h = tt
  none_chosen score place (x ∷ items) h =
      let (idle, rest) = first_idle place (score x) (map score items) h in
      (idle, none_chosen score (suc place) items rest)

  wanting_same :
      (first : Bool) (x : Candidate F) (reasons : List CapReason)
      → is_wanting F first (record x { cap_reasons = reasons }) ≡ is_wanting F first x
  unfolding is_wanting
  wanting_same first x reasons = refl

  blockers_same :
      (a : Allocation F) (first : Bool) (x : Candidate F) (more enforce : Bool)
      → cap_blockers F caps (looked_at F caps a first) x.fact more enforce
        ≡ cap_blockers F caps a x.fact more enforce
  unfolding cap_blockers
  blockers_same a first x more enforce = refl

  blocked_again :
      (a : Allocation F) (first : Bool) (x : Candidate F) (blockers : List CapReason)
      → is_wanting F first x ≡ true
      → cap_blockers F caps a x.fact (ltb 0 x.slot_count) (not first) ≡ blockers
      → (scored_by F caps a x blockers).0 ≡ none
      → IsPassedOver (looked_at F caps a first) first (scored_by F caps a x blockers).1
  unfolding effective_score
  blocked_again a first x [] wanting e h = absurd (cc)
  blocked_again a first x (blocker ∷ blockers) wanting e h =
      rw
        (
          wanting_same first x (blocker ∷ blockers),
          wanting,
          blockers_same a first x (ltb 0 x.slot_count) (not first),
          e,
        )
        refl

  -- What an item remembers of caps does not change its score.
  looked_again :
      (a : Allocation F) (first : Bool) (x : Candidate F)
      → IsPassedOver a first x
      → IsPassedOver (looked_at F caps a first) first (effective_score F caps a first x).1
  unfolding effective_score
  looked_again a first x h = elim (Bool-cases (is_wanting F first x)) [
    | inl wanting ↦
        let blockers = cap_blockers F caps a x.fact (ltb 0 x.slot_count) (not first) in
        let free : (scored_by F caps a x blockers).0 ≡ none = (rw wanting at h) in
        rw wanting (blocked_again a first x blockers wanting refl free)
    | inr idle ↦ rw (idle, idle) refl
  ]

  All-again :
      (a : Allocation F) (first : Bool) (items : List (Candidate F))
      → All (IsPassedOver a first) items
      → All
          (IsPassedOver (looked_at F caps a first) first)
          (map (λ scored. scored.1) (map (effective_score F caps a first) items))
  All-again a first [] h = tt
  All-again a first (x ∷ items) (h, rest) = (looked_again a first x h, All-again a first items rest)

  passed_over :
      (a : Allocation F) (first : Bool)
      → choose F caps a first ≡ none
      → All (IsPassedOver (looked_at F caps a first) first) (looked_at F caps a first).candidates
  unfolding choose scores
  passed_over a first nobody =
      All-again a first a.candidates
        (none_chosen (effective_score F caps a first) zero a.candidates nobody)

  committed_more :
      (target fuel : ℕ) (a : Allocation F) (first : Bool) (reason : Reason) (best : Best F)
      → target < a.allocated_total + suc fuel
      → target
        < (commit_slot F best.place best.item reason (looked_at F caps a first)).allocated_total
          + fuel
  unfolding commit_slot
  committed_more target fuel a first reason best h = omega arith

  ends-IsPassedOver :
      (fuel target : ℕ) (first : Bool) (reason : Reason) (a : Allocation F)
      → target < a.allocated_total + fuel
      → let b = fill_pass F fuel target caps first reason a in
        ltb b.allocated_total target ≡ true → All (IsPassedOver b first) b.candidates
  unfolding fill_pass
  ends-IsPassedOver zero target first reason a enough = λ below. absurd (ground arith)
  ends-IsPassedOver (suc fuel) target first reason a enough =
      elim (Bool-cases (ltb a.allocated_total target)) [
        | inl open_slot ↦ elim (Option-cases (choose F caps a first)) [
          | inl nobody ↦ rw (open_slot, nobody) (λ below. passed_over a first nobody)
          | inr (best, chosen) ↦
              rw (open_slot, chosen)
                (ends-IsPassedOver fuel target first reason _ (
                  committed_more target fuel a first
                    (reason_for F caps (looked_at F caps a first) reason best.item) best enough))
        ]
        | inr full ↦ rw full (λ below. absurd (ground arith))
      ]

  full_stays :
      (fuel target : ℕ) (first : Bool) (reason : Reason) (a : Allocation F)
      → ltb a.allocated_total target ≡ false
      → fill_pass F fuel target caps first reason a ≡ a
  unfolding fill_pass
  full_stays zero target first reason a full = refl
  full_stays (suc fuel) target first reason a full = rw full refl

  enough_alike :
      (fuel other target : ℕ) (first : Bool) (reason : Reason) (a : Allocation F)
      → target < a.allocated_total + fuel
      → target < a.allocated_total + other
      → fill_pass F other target caps first reason a ≡ fill_pass F fuel target caps first reason a
  unfolding fill_pass
  enough_alike zero other target first reason a enough too =
      full_stays other target first reason a (ground arith)
  enough_alike (suc fuel) zero target first reason a enough too =
      sym (full_stays (suc fuel) target first reason a (ground arith))
  enough_alike (suc fuel) (suc other) target first reason a enough too =
      elim (Bool-cases (ltb a.allocated_total target)) [
        | inl open_slot ↦ elim (Option-cases (choose F caps a first)) [
          | inl nobody ↦ rw (open_slot, nobody) refl
          | inr (best, chosen) ↦
              let chosen_reason = reason_for F caps (looked_at F caps a first) reason best.item in
              rw (open_slot, chosen)
                (enough_alike fuel other target first reason _
                  (committed_more target fuel a first chosen_reason best enough)
                  (committed_more target other a first chosen_reason best too))
        ]
        | inr full ↦ rw full refl
      ]

  total_at_most :
      (fuel target : ℕ) (first : Bool) (reason : Reason) (a : Allocation F)
      → a.allocated_total ≤ target
      → (fill_pass F fuel target caps first reason a).allocated_total ≤ target
  unfolding fill_pass commit_slot
  total_at_most zero target first reason a few = few
  total_at_most (suc fuel) target first reason a few =
      elim (Bool-cases (ltb a.allocated_total target)) [
        | inl open_slot ↦ elim (Option-cases (choose F caps a first)) [
          | inl nobody ↦ rw (open_slot, nobody) few
          | inr (best, chosen) ↦
              rw (open_slot, chosen) (total_at_most fuel target first reason _ (ground arith))
        ]
        | inr full ↦ rw full few
      ]

  -- From an allocation of no more slots than the target, whatever the caps: a pass with as much fuel as the target and one more
  -- comes to its end, so more fuel changes nothing. It ends where the slots are the target, or where no
  -- fact that the pass looks at wants a slot that the caps leave it.
  pub pass_ends :
      (target more : ℕ) (first : Bool) (reason : Reason) (a : Allocation F)
      → a.allocated_total ≤ target
      → let b = fill_pass F (suc target) target caps first reason a in
        (fill_pass F (suc target + more) target caps first reason a ≡ b)
        × ((b.allocated_total ≡ target) ⊎ All (IsPassedOver b first) b.candidates)
  pass_ends target more first reason a few =
      let b = fill_pass F (suc target) target caps first reason a in
      (
        enough_alike (suc target) (suc target + more) target first reason a (omega arith)
            (omega arith),
        elim (Bool-cases (ltb b.allocated_total target)) [
          | inl below ↦
              inr (ends-IsPassedOver (suc target) target first reason a (omega arith) below)
          | inr full ↦ inl (ground (arith, total_at_most (suc target) target first reason a few))
        ],
      )
