-- ===== src/Split/Parts.antt =====
-- The parts that one group of records splits into.
use css360_syllabus_bot.Prelude.{
  ℕ, zero, suc, ◌+◌, ◌-◌, ◌≤◌, ◌≡◌, ◌∙◌, refl, sym, Bool, true, false, String, List, [], ◌∷◌, ◌++◌,
  length, arith, ltb, string_eq, nat_eq, Bool-cases, ◌⊎◌, inl, inr, FloatOps,
}
use css360_syllabus_bot.Table.{count}
use css360_syllabus_bot.Allocation.{take}
use css360_syllabus_bot.Split.{
  MixedRecord, Group, drop, validation_size, compute_validation_size, checked, split_records,
  split_group,
}
use css360_syllabus_bot.Split.Groups.{count-append, count_all, count_at_most, has_group_key}

count-take-drop :
    (test : MixedRecord → Bool) (n : ℕ) (xs : List MixedRecord)
    → count test (drop n xs) + count test (take n xs) ≡ count test xs
unfolding count take drop
count-take-drop test zero xs = omega arith
count-take-drop test (suc n) [] = refl
count-take-drop test (suc n) (x ∷ xs) = ground (arith, count-take-drop test n xs)

length-take : (n : ℕ) (xs : List MixedRecord) → n ≤ length xs → length (take n xs) ≡ n
unfolding take
length-take zero xs h = refl
length-take (suc n) [] h = absurd (ground arith)
length-take (suc n) (x ∷ xs) h = ground (arith, length-take n xs)

-- Two parts hold together what the whole holds.
abbrev pub Together : (MixedRecord → Bool) → ℕ → List MixedRecord × List MixedRecord → Type 0
Together test total (train, validation) = count test train + count test validation ≡ total

-- Of many records of one kind, some are in either part.
abbrev pub IsShared : (MixedRecord → Bool) → List MixedRecord × List MixedRecord → Type 0
IsShared test (train, validation) = (1 ≤ count test train) × (1 ≤ count test validation)

pub whole_train :
    (test : MixedRecord → Bool) (xs : List MixedRecord)
    → count test xs + count test [] ≡ count test xs
unfolding count
whole_train test xs = omega arith

add_up : (n : ℕ) (xs : List MixedRecord) → length (drop n xs) + length (take n xs) ≡ length xs
add_up n xs =
    let h = count-take-drop (λ r. true) n xs in
    ground (arith, h, count_all (drop n xs), count_all (take n xs), count_all xs)

pub empty : (test : MixedRecord → Bool) → count test [] ≡ 0
unfolding count
empty test = refl

pub nothing : (test : MixedRecord → Bool) → count test [] + count test [] ≡ 0
nothing test = whole_train test [] ∙ empty test

-- A part of records of one kind: all of the kind, in either part.
pub pure-IsShared :
    (key : String) (members : List MixedRecord) (parts : List MixedRecord × List MixedRecord)
    → count (has_group_key key) members ≡ length members
    → ((test : MixedRecord → Bool) → Together test (count test members) parts)
    → (1 ≤ length parts.0) × (1 ≤ length parts.1)
    → IsShared (has_group_key key) parts
pure-IsShared key members (train, validation) pure together (some_train, some_validation) =
    let all = together (λ r. true) in
    let kind = together (has_group_key key) in
    (
      ground (
        arith,
        all,
        kind,
        count_all train,
        count_all validation,
        count_all members,
        count_at_most (has_group_key key) train,
        count_at_most (has_group_key key) validation,
      ),
      ground (
        arith,
        all,
        kind,
        count_all train,
        count_all validation,
        count_all members,
        count_at_most (has_group_key key) train,
        count_at_most (has_group_key key) validation,
      ),
    )

pub appended-IsShared :
    (test : MixedRecord → Bool) (p q : List MixedRecord × List MixedRecord)
    → IsShared test p ⊎ IsShared test q
    → IsShared test (p.0 ++ q.0, p.1 ++ q.1)
appended-IsShared test p q (inl (t, v)) =
    (ground (arith, count-append test p.0 q.0), ground (arith, count-append test p.1 q.1))
appended-IsShared test p q (inr (t, v)) =
    (ground (arith, count-append test p.0 q.0), ground (arith, count-append test p.1 q.1))

module _ (F : FloatOps) (shuffle : List MixedRecord → List MixedRecord)
    (permutes : (test : MixedRecord → Bool) (xs : List MixedRecord)
      → count test (shuffle xs) ≡ count test xs) where
  length-shuffle : (xs : List MixedRecord) → length (shuffle xs) ≡ length xs
  length-shuffle xs = sym (count_all (shuffle xs)) ∙ permutes (λ r. true) xs ∙ count_all xs

  size_between :
      (fraction : F.Float) (total : ℕ)
      → ltb total 2 ≡ false
      → let n = validation_size F shuffle fraction total in (1 ≤ n) × (n ≤ total - 1)
  size_between fraction total several = (ground arith, ground arith)

  pub checked_fits :
      (total : ℕ) (train validation : List MixedRecord)
      → length train + length validation ≡ total
      → checked F shuffle total (train, validation) ≡ inr (train, validation)
  checked_fits total train validation e =
      rw ((nat_eq.is_same_iff (length train + length validation) total).1 e) refl

  -- The split of one group returns its two parts.
  pub group_split :
      (fraction : F.Float) (group : Group)
      → (parts : List MixedRecord × List MixedRecord) × (split_group F shuffle fraction group
          ≡ inr parts)
        × ((test : MixedRecord → Bool) → Together test (count test group.members) parts)
        × (2 ≤ length group.members → (1 ≤ length parts.0) × (1 ≤ length parts.1))
  unfolding split_records compute_validation_size
  group_split fraction group = elim (Bool-cases (ltb (length group.members) 2)) [
    | inl lone ↦ (
      (group.members, []),
      rw lone refl,
      (λ test. whole_train test group.members),
      λ several. absurd (ground arith),
    )
    | inr several ↦
        let n = validation_size F shuffle fraction (length group.members) in
        let mixed = shuffle group.members in
        let (least, most) = size_between fraction (length group.members) several in
        let all : length (drop n mixed) + length (take n mixed) ≡ length group.members =
          add_up n mixed ∙ length-shuffle group.members in
        let taken : length (take n mixed) ≡ n =
          length-take n mixed (rw (length-shuffle group.members) (ground (arith, most))) in
        (
          (drop n mixed, take n mixed),
          rw several (checked_fits (length group.members) (drop n mixed) (take n mixed) all),
          (λ test. count-take-drop test n mixed ∙ permutes test group.members),
          λ h. (ground (arith, taken, all, most), rw taken least),
        )
  ]
