-- ===== src/Allocation/Desired.antt =====
-- backend/app/seed_allocation.py: the ranking of a fact and the slots that it wants before caps.
use css360_syllabus_bot.Prelude.{
  ℕ, ◌+◌, ◌-◌, ◌/◌, ◌≤◌, arith, Bool, false, not, ◌&&◌, ◌||◌, String, Option, none, some, List, [],
  ◌∷◌, ◌++◌, contains, leb, ltb, ◌==◌, string_eq, if◌then◌else◌, FloatOps, Bool-cases, inl, inr,
}
use css360_syllabus_bot.Allocation.{
  max_slots_per_fact, max_of, min_of, text_or, suggest_question_styles, Fact, kind_of, scope_of,
  complexity_of,
}

-- Why a fact wants its slots.
pub data Reason : Type 0 where
  minor_resource_deprioritized below_minimum_ranking_score eligible_base_slot : Reason
  simple_contact_or_lookup_stays_at_one simple_deadline_single_slot
        high_complexity_multiple_conditions :
      Reason
  moderate_complexity_with_high_ask policy_with_conditions_or_exceptions resource_capped_at_one :
      Reason
  breadth_first_slot depth_additional_slot course_wide_reservation_priority : Reason
  additional_slot_justified_by_complexity_or_scenarios : Reason

module _ (F : FloatOps) where
  abbrev pub score_or : Option F.Float → F.Float → F.Float
  score_or none default = default
  score_or (some score) default = score

  -- a >= b
  abbrev pub at_least : F.Float → F.Float → Bool
  at_least a b = not (F.below a b)

  abbrev pub minus_of : F.Float → F.Float
  minus_of a = F.minus (F.decimal 0 0) a

  -- max(0.0, min(1.0, value))
  abbrev pub clamp01 : F.Float → F.Float
  clamp01 value =
      let least = if F.below value (F.decimal 1 0) then value else F.decimal 1 0 in
      if F.below (F.decimal 0 0) least then least else F.decimal 0 0

  unfoldable pub scope_prior : String → F.Float
  scope_prior scope =
      if scope == "course_wide"
      then F.decimal 12 2
      else if scope == "assignment_specific"
      then F.decimal 0 0
      else if scope == "schedule"
      then minus_of (F.decimal 5 2)
      else if scope == "resource"
      then minus_of (F.decimal 10 2)
      else minus_of (F.decimal 2 2)

  unfoldable pub kind_prior : String → F.Float
  kind_prior kind =
      if kind == "late_work"
      then F.decimal 10 2
      else if contains ("attendance" ∷ "grading" ∷ "accommodation" ∷ []) kind
      then F.decimal 8 2
      else if contains ("contact" ∷ "communication" ∷ []) kind
      then F.decimal 6 2
      else if contains ("requirement" ∷ "policy" ∷ "submission" ∷ []) kind
      then F.decimal 5 2
      else if contains ("office_hours" ∷ "exam" ∷ []) kind
      then F.decimal 4 2
      else if kind == "team_project"
      then F.decimal 2 2
      else if kind == "deadline"
      then minus_of (F.decimal 2 2)
      else if kind == "resource"
      then minus_of (F.decimal 8 2)
      else F.decimal 0 0

  -- min(1.0, (complexity - 1) / 4.0), complexity at least 1
  abbrev pub complexity_norm : ℕ → F.Float
  complexity_norm complexity =
      let norm = F.over (F.decimal (complexity - 1) 0) (F.decimal 4 0) in
      if F.below norm (F.decimal 1 0) then norm else F.decimal 1 0

  unfoldable pub compute_ranking_score : Fact F → F.Float
  unfolding scope_prior kind_prior
  compute_ranking_score fact =
      let usefulness = score_or fact.usefulness_score (F.decimal 0 0) in
      let importance = score_or fact.importance_score (F.decimal 5 1) in
      let ask = score_or fact.student_ask_likelihood (F.decimal 5 1) in
      F.round
        (clamp01 (
          F.plus
            (F.plus
              (F.plus
                (F.plus
                  (F.plus (F.times (F.decimal 35 2) usefulness)
                    (F.times (F.decimal 25 2) importance))
                  (F.times (F.decimal 20 2) ask))
                (F.times (F.decimal 10 2) (complexity_norm (complexity_of F fact))))
              (scope_prior (scope_of F fact)))
            (kind_prior (kind_of F fact))))
        4

  pub record Desired : Type 0 where
    pub desired_slots : ℕ
    pub ranking_score : F.Float
    pub reasons : List Reason
    pub suggested_styles : List String

  abbrev pub is_resource : Fact F → Bool
  is_resource fact = scope_of F fact == "resource" || kind_of F fact == "resource"

  abbrev pub is_minor : Fact F → Bool
  is_minor fact =
      F.below (score_or fact.usefulness_score (F.decimal 0 0)) (F.decimal 50 2)
      || text_or fact.importance "medium" == "low"
      || F.below (score_or fact.student_ask_likelihood (F.decimal 5 1)) (F.decimal 40 2)

  -- The slots and the reasons so far.
  abbrev pub complex_slots : Fact F → ℕ × List Reason
  complex_slots fact =
      let complexity = complexity_of F fact in
      let usefulness = score_or fact.usefulness_score (F.decimal 0 0) in
      let ask = score_or fact.student_ask_likelihood (F.decimal 5 1) in
      if leb 3 complexity && at_least usefulness (F.decimal 55 2)
      then (
        min_of max_slots_per_fact (1 + complexity / 2),
        eligible_base_slot ∷ high_complexity_multiple_conditions ∷ [],
      )
      else if leb 2 complexity
          && (at_least ask (F.decimal 65 2) || at_least usefulness (F.decimal 65 2))
      then (2, eligible_base_slot ∷ moderate_complexity_with_high_ask ∷ [])
      else (1, eligible_base_slot ∷ [])

  abbrev pub is_multi_policy : String → Bool
  is_multi_policy kind =
      contains
        ("late_work" ∷ "attendance" ∷ "policy" ∷ "accommodation" ∷ "grading" ∷ "requirement" ∷ [])
        kind

  abbrev pub policy_slots : Fact F → ℕ × List Reason → ℕ × List Reason
  policy_slots fact (desired, reasons) =
      let complexity = complexity_of F fact in
      let multi = min_of max_slots_per_fact (max_of 2 complexity) in
      if is_multi_policy (kind_of F fact) && leb 2 complexity && ltb desired multi
      then (multi, reasons ++ policy_with_conditions_or_exceptions ∷ [])
      else (desired, reasons)

  abbrev pub resource_slots : Fact F → ℕ × List Reason → ℕ × List Reason
  resource_slots fact (desired, reasons) =
      if is_resource fact && ltb 1 desired
      then (1, reasons ++ resource_capped_at_one ∷ [])
      else (desired, reasons)

  abbrev pub wanted : Fact F → List Reason → ℕ → Desired
  wanted fact reasons desired = record {
    desired_slots = desired;
    ranking_score = compute_ranking_score fact;
    reasons = reasons;
    suggested_styles = suggest_question_styles fact.kind fact.complexity desired false;
  }

  unfoldable pub compute_desired_slots : Fact F → Desired
  unfolding compute_ranking_score suggest_question_styles
  compute_desired_slots fact =
      let kind = kind_of F fact in
      let (desired, reasons) = resource_slots fact (policy_slots fact (complex_slots fact)) in
      if is_resource fact && is_minor fact
      then wanted fact (minor_resource_deprioritized ∷ []) 0
      else if F.below (compute_ranking_score fact) (F.decimal 38 2)
      then wanted fact (below_minimum_ranking_score ∷ []) 0
      else if contains ("contact" ∷ "office_hours" ∷ []) kind && leb (complexity_of F fact) 1
      then wanted fact (eligible_base_slot ∷ simple_contact_or_lookup_stays_at_one ∷ []) 1
      else if kind == "deadline" && leb (complexity_of F fact) 1
      then wanted fact (eligible_base_slot ∷ simple_deadline_single_slot ∷ []) 1
      else wanted fact reasons desired

  complex_at_most : (fact : Fact F) → (complex_slots fact).0 ≤ max_slots_per_fact
  complex_at_most fact =
      let usefulness = score_or fact.usefulness_score (F.decimal 0 0) in
      let ask = score_or fact.student_ask_likelihood (F.decimal 5 1) in
      elim (Bool-cases (leb 3 (complexity_of F fact) && at_least usefulness (F.decimal 55 2))) [
        | inl complex ↦ rw complex (ground arith)
        | inr plain ↦
            elim (Bool-cases (
              leb 2 (complexity_of F fact)
              && (at_least ask (F.decimal 65 2) || at_least usefulness (F.decimal 65 2)))) [
                | inl asked ↦ rw (plain, asked) (omega arith)
                | inr simple ↦ rw (plain, simple) (omega arith)
              ]
      ]

  policy_at_most :
      (fact : Fact F) (so_far : ℕ × List Reason)
      → so_far.0 ≤ max_slots_per_fact
      → (policy_slots fact so_far).0 ≤ max_slots_per_fact
  policy_at_most fact so_far h =
      let multi = min_of max_slots_per_fact (max_of 2 (complexity_of F fact)) in
      elim (Bool-cases
        (is_multi_policy (kind_of F fact) && leb 2 (complexity_of F fact) && ltb so_far.0 multi)) [
          | inl several ↦ rw several (ground arith)
          | inr kept ↦ rw kept h
        ]

  resource_at_most :
      (fact : Fact F) (so_far : ℕ × List Reason)
      → so_far.0 ≤ max_slots_per_fact
      → (resource_slots fact so_far).0 ≤ max_slots_per_fact
  resource_at_most fact so_far h = elim (Bool-cases (is_resource fact && ltb 1 so_far.0)) [
    | inl capped ↦ rw capped (omega arith)
    | inr kept ↦ rw kept h
  ]

  -- No fact wants more than three slots.
  pub desired_at_most :
      (fact : Fact F) → (compute_desired_slots fact).desired_slots ≤ max_slots_per_fact
  unfolding compute_desired_slots
  desired_at_most fact =
      let so_far = resource_slots fact (policy_slots fact (complex_slots fact)) in
      let h : so_far.0 ≤ max_slots_per_fact =
        resource_at_most fact (policy_slots fact (complex_slots fact))
          (policy_at_most fact (complex_slots fact) (complex_at_most fact)) in
      let kind = kind_of F fact in
      elim (Bool-cases (is_resource fact && is_minor fact)) [
        | inl minor ↦ rw minor (omega arith)
        | inr major ↦ elim (Bool-cases (F.below (compute_ranking_score fact) (F.decimal 38 2))) [
          | inl low ↦ rw (major, low) (omega arith)
          | inr fine ↦
              elim (Bool-cases
                (contains ("contact" ∷ "office_hours" ∷ []) kind && leb (complexity_of F fact) 1)) [
                  | inl lookup ↦ rw (major, fine, lookup) (omega arith)
                  | inr other ↦
                      elim (Bool-cases (kind == "deadline" && leb (complexity_of F fact) 1)) [
                        | inl deadline ↦ rw (major, fine, other, deadline) (omega arith)
                        | inr rest ↦ rw (major, fine, other, rest) h
                      ]
                ]
        ]
      ]
