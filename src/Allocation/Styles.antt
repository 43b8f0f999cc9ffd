-- ===== src/Allocation/Styles.antt =====
-- The preference for scenario-like styles: it adds none, and it loses none that was earned.
use css360_syllabus_bot.Prelude.{
  ℕ, zero, suc, ◌≡◌, ◌∙◌, refl, sym, ap, true, false, not, String, Option, none, some, List, [],
  ◌∷◌, any, arith, inl, inr, Option-cases, ◌==◌, string_eq,
}
use css360_syllabus_bot.Table.{select, find}
use css360_syllabus_bot.Table.Laws.{find_passes}
use css360_syllabus_bot.Table.Members.{any_of_find}
use css360_syllabus_bot.Allocation.{
  max_of, text_or, is_scenario_like, styles_of, ordered_from, in_front, promoted, take,
  suggest_question_styles, fact_supports_scenario_like_style,
}

-- The styles that a fact has earned at so many slots, each once.
abbrev pub earned_styles : Option String → Option ℕ → ℕ → List String
earned_styles kind complexity slot_count = ordered_from [] (
    styles_of (text_or kind "other") (max_of 1 (elim complexity [ none ↦ 1 | some c ↦ c ]))
      slot_count)

any-take_nil :
    (n : ℕ) (styles : List String)
    → any is_scenario_like styles ≡ false
    → any is_scenario_like (take n styles) ≡ false
unfolding take
any-take_nil zero styles h = refl
any-take_nil (suc n) [] h = refl
any-take_nil (suc n) (style ∷ styles) h = ground (arith, any-take_nil n styles)

find-none-any :
    (styles : List String)
    → find is_scenario_like styles ≡ none
    → any is_scenario_like styles ≡ false
unfolding find
find-none-any [] h = refl
find-none-any (style ∷ styles) h = ground (arith, find-none-any styles)

promoted-none :
    (styles : List String) → find is_scenario_like styles ≡ none → promoted styles ≡ styles
unfolding promoted
promoted-none styles absent = ap (λ found. in_front found styles) absent

first-promoted :
    (styles : List String) (style : String)
    → find is_scenario_like styles ≡ some style
    → promoted styles ≡ style ∷ select (λ other. not (other == style)) styles
unfolding promoted
first-promoted styles style e = ap (λ found. in_front found styles) e

taken_first :
    (n : ℕ) (style : String) (rest : List String)
    → is_scenario_like style ≡ true
    → any is_scenario_like (take (suc n) (style ∷ rest)) ≡ true
unfolding take
taken_first n style rest h = ground arith

any-promoted :
    (n : ℕ) (styles : List String)
    → any is_scenario_like (take (suc n) (promoted styles)) ≡ any is_scenario_like styles
unfolding promoted take
any-promoted n styles = elim (Option-cases (find is_scenario_like styles)) [
  | inl absent ↦ rw (promoted-none styles absent) (
      any-take_nil (suc n) styles (find-none-any styles absent) ∙ sym (find-none-any styles absent))
  | inr (style, e) ↦
      rw (first-promoted styles style e, any_of_find is_scenario_like styles style e)
        (taken_first n style _ (find_passes is_scenario_like styles style e))
]

-- For one slot or more: with the preference for scenario-like styles, such a style is suggested for a
-- fact exactly if the fact has earned one, however few slots cut the list off.
pub scenario_kept :
    (kind : Option String) (complexity : Option ℕ) (n : ℕ)
    → fact_supports_scenario_like_style kind complexity (suc n)
      ≡ any is_scenario_like (earned_styles kind complexity (suc n))
unfolding fact_supports_scenario_like_style suggest_question_styles
scenario_kept kind complexity n = any-promoted n (earned_styles kind complexity (suc n))
