-- ===== src/Split/Examples.antt =====
-- The split of three records, two of them of one kind.
use css360_syllabus_bot.Prelude.{
  ◌+◌, ◌≤◌, ◌≡◌, refl, Bool, String, some, List, [], ◌∷◌, ◌++◌, arith, inr,
}
use css360_syllabus_bot.Table.{count}
use css360_syllabus_bot.Allocation.Examples.{fixed}
use css360_syllabus_bot.Split.{MixedRecord, split_mixed_records}
use css360_syllabus_bot.Split.Groups.{count-append, has_group_key}
use css360_syllabus_bot.Split.Kept.{split_keeps, split_stratified}

-- A shuffle: the first record goes to the end.
abbrev turned : List MixedRecord → List MixedRecord
turned [] = []
turned (r ∷ records) = records ++ r ∷ []

count-turned :
    (test : MixedRecord → Bool) (records : List MixedRecord)
    → count test (turned records) ≡ count test records
unfolding count
count-turned test [] = refl
count-turned test (r ∷ records) = ground (arith, count-append test records (r ∷ []))

abbrev bare_record : String → MixedRecord
bare_record question = record {
  format = some "bare";
  kind = some "answerable";
  instruction = question;
  response = "Friday";
}

abbrev records : List MixedRecord
records =
    bare_record "When is it due?"
    ∷ record (bare_record "Is it graded?") { kind = some "abstain" }
    ∷ bare_record "Is there an exam?"
    ∷ []

split_keeps_example :
    (parts : List MixedRecord × List MixedRecord) × (split_mixed_records fixed turned 1000 records
      ≡ inr parts)
    × ((test : MixedRecord → Bool) → count test parts.0 + count test parts.1 ≡ count test records)
split_keeps_example = split_keeps fixed turned count-turned 1000 records

two_bare : 2 ≤ count (has_group_key "bare/answerable") records
unfolding count
two_bare = omega arith

split_stratified_example :
    (parts : List MixedRecord × List MixedRecord) × (split_mixed_records fixed turned 1000 records
      ≡ inr parts)
    × (1 ≤ count (has_group_key "bare/answerable") parts.0)
    × (1 ≤ count (has_group_key "bare/answerable") parts.1)
split_stratified_example =
    split_stratified fixed turned count-turned 1000 records "bare/answerable" two_bare
