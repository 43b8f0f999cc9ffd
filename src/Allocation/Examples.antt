-- ===== src/Allocation/Examples.antt =====
-- The allocation of a small target over two facts.
use css360_syllabus_bot.Prelude.{
  ℕ, zero, suc, ◌+◌, ◌-◌, ◌*◌, ◌/◌, ◌≤◌, ◌≡◌, ◌⊎◌, true, String, none, some, List, [], ◌∷◌, any,
  All, ltb, nat_eq, arith, FloatOps,
}
use css360_syllabus_bot.Allocation.{
  Fact, compute_allocation_caps, is_scenario_like, fact_supports_scenario_like_style,
}
use css360_syllabus_bot.Allocation.Desired.{breadth_first_slot}
use css360_syllabus_bot.Allocation.Choice.{no_slots, fill_pass, allocate_slots}
use css360_syllabus_bot.Allocation.Bounds.{total_slots, chunk_slots, IsModest}
use css360_syllabus_bot.Allocation.Within.{slots_bounded}
use css360_syllabus_bot.Allocation.Finish.{IsPassedOver, pass_ends}
use css360_syllabus_bot.Allocation.Styles.{earned_styles, scenario_kept}

-- Ten to the power of 4 - k.
abbrev scale : ℕ → ℕ
scale zero = 10000
scale (suc zero) = 1000
scale (suc (suc zero)) = 100
scale (suc (suc (suc zero))) = 10
scale (suc (suc (suc (suc k)))) = 1

-- Decimals of four places in place of floats.
abbrev pub fixed : FloatOps
fixed = record {
  Float = ℕ;
  decimal = λ n k. n * scale k;
  plus = λ a b. a + b;
  minus = λ a b. a - b;
  times = λ a b. a * b / 10000;
  over = λ a b. a * 10000 / b;
  below = ltb;
  same = nat_eq.is_same;
  floor = λ a. a / 10000;
  ceil = λ a. (a + 9999) / 10000;
  round = λ a k. a;
}

abbrev late_work : Fact fixed
late_work = record {
  fact_id = some "f1";
  kind = some "late_work";
  scope = some "course_wide";
  importance = some "high";
  usefulness_score = some 8000;
  importance_score = some 8000;
  student_ask_likelihood = some 7000;
  complexity = some 3;
  series_key = none;
  assignment_group = none;
  source_chunk_ids = "c1" ∷ [];
}

abbrev office : Fact fixed
office = record late_work {
  fact_id = some "f2";
  kind = some "office_hours";
  complexity = none;
  source_chunk_ids = "c2" ∷ [];
}

abbrev facts : List (Fact fixed)
facts = late_work ∷ office ∷ []

slots_bounded_example :
    let a = allocate_slots fixed facts 3 in
    let caps = compute_allocation_caps fixed 3 in
    (total_slots fixed a.candidates ≡ a.allocated_total)
    × (a.allocated_total ≤ 3)
    × All (IsModest fixed) a.candidates
    × ((chunk : String) → chunk_slots fixed a.candidates chunk ≤ caps.per_source_chunk)
slots_bounded_example = slots_bounded fixed facts 3

pass_ends_example :
    let caps = compute_allocation_caps fixed 3 in
    let b = fill_pass fixed 4 3 caps true breadth_first_slot (no_slots fixed facts) in
    (fill_pass fixed 6 3 caps true breadth_first_slot (no_slots fixed facts) ≡ b)
    × ((b.allocated_total ≡ 3) ⊎ All (IsPassedOver fixed caps b true) b.candidates)
pass_ends_example =
    pass_ends fixed (compute_allocation_caps fixed 3) 3 2 true breadth_first_slot
      (no_slots fixed facts) (omega arith)

scenario_kept_example :
    fact_supports_scenario_like_style (some "policy") (some 2) 1
    ≡ any is_scenario_like (earned_styles (some "policy") (some 2) 1)
scenario_kept_example = scenario_kept (some "policy") (some 2) 0
