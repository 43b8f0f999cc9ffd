-- ===== src/Allocation/Passes.antt =====
-- backend/app/seed_allocation.py: the two passes that hand out slots to the facts.
use css360_syllabus_bot.Prelude.{
  ℕ, zero, suc, Bool, true, false, not, ◌&&◌, ◌||◌, String, Option, none, some, List, [], ◌∷◌, ◌++◌,
  leb, ltb, ◌==◌, string_eq, if◌then◌else◌, FloatOps,
}
use css360_syllabus_bot.Allocation.{
  max_slots_per_fact, min_of, text_before, Fact, kind_of, scope_of, series_key_of,
  primary_source_chunk, Caps,
}
use css360_syllabus_bot.Allocation.Desired.{
  Reason, breadth_first_slot, depth_additional_slot, course_wide_reservation_priority,
  additional_slot_justified_by_complexity_or_scenarios, compute_desired_slots,
}

-- The caps that block a slot, with what they count.
pub data CapReason : Type 0 where
  source_chunk_cap scope_cap kind_cap series_cap : String → CapReason

-- A `Counter`: how often a key was counted.
abbrev pub Counter : Type 0
Counter = String → ℕ

abbrev pub bump : String → Counter → Counter
bump key counts other = if other == key then suc (counts other) else counts other

-- No key, nothing to count.
abbrev pub bump_if : Option String → Counter → Counter
bump_if none counts = counts
bump_if (some key) counts = bump key counts

-- if reason not in reasons: append
abbrev pub is_reason : Reason → Reason → Bool
is_reason breadth_first_slot breadth_first_slot = true
is_reason depth_additional_slot depth_additional_slot = true
is_reason course_wide_reservation_priority course_wide_reservation_priority = true
is_reason additional_slot_justified_by_complexity_or_scenarios
      additional_slot_justified_by_complexity_or_scenarios =
    true
is_reason _ _ = false

unfoldable pub add_reason : Reason → List Reason → List Reason
add_reason reason [] = reason ∷ []
add_reason reason (first ∷ reasons) =
    let rest = add_reason reason reasons in
    if is_reason reason first then first ∷ reasons else first ∷ rest

-- items[n] changed
unfoldable pub change_at {ℓ} : {A : Type ℓ} → ℕ → (A → A) → List A → List A
change_at n change [] = []
change_at zero change (x ∷ xs) = change x ∷ xs
change_at (suc n) change (x ∷ xs) = x ∷ change_at n change xs

module _ (F : FloatOps) where
  pub record Candidate : Type 0 where
    pub fact : Fact F
    pub fact_id : String
    pub desired_slots : ℕ
    pub ranking_score : F.Float
    pub suggested_styles : List String
    pub slot_count : ℕ
    pub alloc_reasons : List Reason
    pub cap_reasons : List CapReason

  abbrev pub candidate_of : Fact F → Candidate
  candidate_of fact =
      let desired = compute_desired_slots F fact in
      record {
        fact = fact;
        fact_id = elim fact.fact_id [ none ↦ "" | some id ↦ id ];
        desired_slots = desired.desired_slots;
        ranking_score = desired.ranking_score;
        suggested_styles = desired.suggested_styles;
        slot_count = 0;
        alloc_reasons = desired.reasons;
        cap_reasons = [];
      }

  -- Higher ranking first, then the id.
  abbrev pub ranks_before : Candidate → Candidate → Bool
  ranks_before a b =
      F.below b.ranking_score a.ranking_score
      || (F.same a.ranking_score b.ranking_score && text_before a.fact_id b.fact_id)

  -- The place behind those that do not rank after it: the sort is stable.
  unfoldable pub insert_ranked : Candidate → List Candidate → List Candidate
  insert_ranked c [] = c ∷ []
  insert_ranked c (x ∷ candidates) =
      let rest = insert_ranked c candidates in
      if ranks_before x c then x ∷ rest else c ∷ x ∷ candidates

  unfoldable pub ranked : List Candidate → List Candidate
  unfolding insert_ranked
  ranked [] = []
  ranked (c ∷ candidates) = insert_ranked c (ranked candidates)

  pub record Allocation : Type 0 where
    pub candidates : List Candidate
    pub scope_counts : Counter
    pub kind_counts : Counter
    pub series_counts : Counter
    pub chunk_counts : Counter
    pub allocated_total : ℕ
    pub course_wide_allocated : ℕ

  abbrev pub chunk_blockers : Caps F → Counter → Option String → List CapReason
  chunk_blockers caps counts none = []
  chunk_blockers caps counts (some chunk) =
      if leb caps.per_source_chunk (counts chunk) then source_chunk_cap chunk ∷ [] else []

  abbrev pub scope_blockers : Caps F → Counter → String → List CapReason
  scope_blockers caps counts scope =
      if leb (caps.per_scope scope) (counts scope) then scope_cap scope ∷ [] else []

  abbrev pub kind_blockers : Caps F → Counter → String → List CapReason
  kind_blockers caps counts kind =
      let cap =
        if kind == "deadline" then min_of caps.per_kind caps.deadline_kind else caps.per_kind in
      if leb cap (counts kind) then kind_cap kind ∷ [] else []

  abbrev pub series_blockers : Caps F → Counter → Option String → List CapReason
  series_blockers caps counts none = []
  series_blockers caps counts (some series) =
      if leb caps.per_series (counts series) then series_cap series ∷ [] else []

  unfoldable pub cap_blockers : Caps F → Allocation → Fact F → Bool → Bool → List CapReason
  cap_blockers caps a fact is_additional_slot enforce_scope_caps =
      chunk_blockers caps a.chunk_counts (primary_source_chunk F fact)
      ++ (if is_additional_slot
          then []
          else (if enforce_scope_caps
              then scope_blockers caps a.scope_counts (scope_of F fact)
              else [])
            ++ kind_blockers caps a.kind_counts (kind_of F fact)
            ++ series_blockers caps a.series_counts (series_key_of F fact))

  -- MULTI_SLOT_SCORE_FACTORS
  abbrev pub slot_factor : ℕ → F.Float
  slot_factor zero = F.decimal 10 1
  slot_factor (suc zero) = F.decimal 85 2
  slot_factor (suc (suc n)) = F.decimal 70 2

  abbrev pub is_course_wide_first : Caps F → Allocation → Candidate → Bool
  is_course_wide_first caps a item =
      ltb a.course_wide_allocated caps.course_wide_reserve
      && scope_of F item.fact == "course_wide"
      && leb item.slot_count 0

  abbrev pub score_of : Caps F → Allocation → Candidate → F.Float
  score_of caps a item =
      let score = F.times item.ranking_score (slot_factor item.slot_count) in
      if is_course_wide_first caps a item then F.plus score (F.decimal 10 1) else score

  -- Whether the pass looks at the item at all.
  unfoldable pub is_wanting : Bool → Candidate → Bool
  is_wanting first_slot_only item =
      ltb item.slot_count item.desired_slots
      && ltb item.slot_count max_slots_per_fact
      && ltb 0 item.desired_slots
      && (if first_slot_only then leb item.slot_count 0 else ltb 0 item.slot_count)

  -- What is left of a score where caps block the item, which remembers them.
  abbrev pub scored_by :
      Caps F → Allocation → Candidate → List CapReason → Option F.Float × Candidate
  scored_by caps a item [] = (some (score_of caps a item), item)
  scored_by caps a item (blocker ∷ blockers) =
      (none, record item { cap_reasons = blocker ∷ blockers })

  unfoldable pub effective_score :
      Caps F → Allocation → Bool → Candidate → Option F.Float × Candidate
  unfolding is_wanting cap_blockers
  effective_score caps a first_slot_only item =
      if is_wanting first_slot_only item
      then scored_by caps a item
          (cap_blockers caps a item.fact (ltb 0 item.slot_count) (not first_slot_only))
      else (none, item)
