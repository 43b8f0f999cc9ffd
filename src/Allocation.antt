-- ===== src/Allocation.antt =====
-- backend/app/seed_allocation.py: facts of a syllabus, the caps, and the styles of questions.
pub mod Desired
pub mod Passes
pub mod Styles
pub mod Choice
pub mod Bounds
pub mod Chunks
pub mod Within
pub mod Finish
pub mod Examples
use Prim.Native.String.{compare}
use Prim.Native.Nat.{Ordering}
use css360_syllabus_bot.Prelude.{
  ℕ, zero, suc, ◌+◌, Bool, true, false, not, ◌&&◌, ◌||◌, String, Option, none, some, List, [], ◌∷◌,
  ◌++◌, any, contains, leb, ltb, ◌==◌, string_eq, if◌then◌else◌, FloatOps,
}
use css360_syllabus_bot.Table.{select, find}
use css360_syllabus_bot.Training.Run.{optional_string}

abbrev pub max_slots_per_fact : ℕ
max_slots_per_fact = 3

abbrev pub max_of : ℕ → ℕ → ℕ
max_of a b = if ltb a b then b else a

abbrev pub min_of : ℕ → ℕ → ℕ
min_of a b = if ltb b a then b else a

-- text or default
abbrev pub text_or : Option String → String → String
text_or none default = default
text_or (some text) default = if text == "" then default else text

-- a < b on texts
abbrev pub text_before : String → String → Bool
text_before a b = elim (compare a b) [ Ordering.lt ↦ true | _ ↦ false ]

-- Styles that become a scenario question downstream.
abbrev pub is_scenario_like : String → Bool
is_scenario_like style = contains ("scenario" ∷ "exception" ∷ "clarification" ∷ []) style

-- The styles that a kind of fact earns at so many slots.
unfoldable pub styles_of : String → ℕ → ℕ → List String
styles_of kind complexity slot_count =
    if contains ("contact" ∷ "office_hours" ∷ []) kind
    then "factual" ∷ []
    else if kind == "deadline"
    then "factual" ∷ []
    else if contains ("late_work" ∷ "attendance" ∷ "policy" ∷ "accommodation" ∷ []) kind
    then "policy" ∷ (if leb 2 complexity || leb 2 slot_count then "scenario" ∷ [] else [])
      ++ (if leb 3 complexity || leb 3 slot_count then "exception" ∷ [] else [])
    else if contains ("grading" ∷ "requirement" ∷ "submission" ∷ []) kind
    then "factual" ∷ (if leb 2 slot_count then "clarification" ∷ [] else [])
    else if kind == "communication"
    then "procedural" ∷ []
    else "factual" ∷ (if leb 2 slot_count then "clarification" ∷ [] else [])

-- Each style once, in the order of its first place.
unfoldable pub ordered_from : List String → List String → List String
ordered_from seen [] = []
ordered_from seen (style ∷ styles) =
    let later = ordered_from (style ∷ seen) styles in
    let again = ordered_from seen styles in if contains seen style then again else style ∷ later

abbrev pub in_front : Option String → List String → List String
in_front none styles = styles
in_front (some style) styles = style ∷ select (λ other. not (other == style)) styles

-- The first scenario-like style goes to the front.
unfoldable pub promoted : List String → List String
promoted styles = in_front (find is_scenario_like styles) styles

-- styles[:n]
unfoldable pub take {ℓ} : {A : Type ℓ} → ℕ → List A → List A
take zero xs = []
take (suc n) [] = []
take (suc n) (x ∷ xs) = x ∷ take n xs

unfoldable pub suggest_question_styles : Option String → Option ℕ → ℕ → Bool → List String
unfolding styles_of ordered_from promoted take
suggest_question_styles kind complexity zero prefer_scenario_like = []
suggest_question_styles kind complexity (suc n) prefer_scenario_like =
    let slot_count = suc n in
    let ordered = ordered_from [] (
      styles_of (text_or kind "other") (max_of 1 (elim complexity [ none ↦ 1 | some c ↦ c ]))
        slot_count) in
    take slot_count (if prefer_scenario_like then promoted ordered else ordered)

unfoldable pub fact_supports_scenario_like_style : Option String → Option ℕ → ℕ → Bool
unfolding suggest_question_styles
fact_supports_scenario_like_style kind complexity slot_count =
    any is_scenario_like (suggest_question_styles kind complexity slot_count true)

module _ (F : FloatOps) where
  -- An absent key is none.
  pub record Fact : Type 0 where
    pub fact_id : Option String
    pub kind : Option String
    pub scope : Option String
    pub importance : Option String
    pub usefulness_score : Option F.Float
    pub importance_score : Option F.Float
    pub student_ask_likelihood : Option F.Float
    pub complexity : Option ℕ
    pub series_key : Option String
    pub assignment_group : Option String
    pub source_chunk_ids : List String

  abbrev pub kind_of : Fact → String
  kind_of fact = text_or fact.kind "other"

  abbrev pub scope_of : Fact → String
  scope_of fact = text_or fact.scope "other"

  -- max(1, int(fact.get("complexity", 1)))
  abbrev pub complexity_of : Fact → ℕ
  complexity_of fact = max_of 1 (elim fact.complexity [ none ↦ 1 | some c ↦ c ])

  abbrev pub series_key_of : Fact → Option String
  series_key_of fact = elim fact.series_key [
    | none ↦ optional_string fact.assignment_group
    | some key ↦
        if key == "" then optional_string fact.assignment_group else optional_string (some key)
  ]

  abbrev pub primary_source_chunk : Fact → Option String
  primary_source_chunk fact = elim fact.source_chunk_ids [ [] ↦ none | ◌∷◌ chunk rest ↦ some chunk ]

  unfoldable pub ratio_cap : ℕ → F.Float → ℕ
  ratio_cap target ratio =
      if leb target 0 then 0 else max_of 1 (F.floor (F.times (F.decimal target 0) ratio))

  pub record Caps : Type 0 where
    pub per_source_chunk : ℕ
    pub per_series : ℕ
    pub per_kind : ℕ
    pub deadline_kind : ℕ
    pub per_scope : String → ℕ
    pub course_wide_reserve : ℕ

  -- SCOPE_CAP_RATIOS, a scope that is not listed counted as "other"
  unfoldable pub scope_ratio : String → F.Float
  scope_ratio scope =
      if scope == "course_wide"
      then F.decimal 70 2
      else if scope == "assignment_specific"
      then F.decimal 40 2
      else if scope == "schedule"
      then F.decimal 20 2
      else if scope == "resource"
      then F.decimal 12 2
      else F.decimal 18 2

  unfoldable pub compute_allocation_caps : ℕ → Caps
  unfolding ratio_cap scope_ratio
  compute_allocation_caps target = record {
    per_source_chunk = max_of max_slots_per_fact (ratio_cap target (F.decimal 12 2));
    per_series = ratio_cap target (F.decimal 18 2);
    per_kind = ratio_cap target (F.decimal 22 2);
    deadline_kind = ratio_cap target (F.decimal 25 2);
    per_scope = λ scope. ratio_cap target (scope_ratio scope);
    course_wide_reserve = ratio_cap target (F.decimal 30 2);
  }
