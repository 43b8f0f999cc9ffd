-- ===== src/Split/Groups.antt =====
-- Grouping loses no record, and a group holds the records of its key.
use css360_syllabus_bot.Prelude.{
  ℕ, suc, ◌+◌, ◌≤◌, ◌≡◌, ◌∙◌, refl, sym, Bool, true, false, String, Option, none, some, List, [],
  ◌∷◌, ◌++◌, length, All, arith, ◌==◌, string_eq, eq_iff, if◌then◌else◌, Bool-cases, inl, inr,
}
use css360_syllabus_bot.Table.{find, count}
use css360_syllabus_bot.Split.{MixedRecord, group_key, Group, put_in_group, grouped_from}

module _ {Row : Type 0} where
  pub count-append :
      (test : Row → Bool) (xs ys : List Row) → count test (xs ++ ys) ≡ count test xs + count test ys
  unfolding count
  count-append test [] ys = omega arith
  count-append test (x ∷ xs) ys = ground (arith, count-append test xs ys)

  pub count_all : (xs : List Row) → count (λ row. true) xs ≡ length xs
  unfolding count
  count_all [] = refl
  count_all (x ∷ xs) = ground (arith, count_all xs)

  pub count_at_most : (test : Row → Bool) (xs : List Row) → count test xs ≤ length xs
  unfolding count
  count_at_most test [] = omega arith
  count_at_most test (x ∷ xs) = ground (arith, count_at_most test xs)

abbrev pub has_group_key : String → MixedRecord → Bool
has_group_key key r = group_key r == key

abbrev pub is_group : String → Group → Bool
is_group key group = group.key == key

unfoldable pub count_in : (MixedRecord → Bool) → List Group → ℕ
count_in test [] = 0
count_in test (group ∷ groups) = count test group.members + count_in test groups

-- The group holds records of its key only.
abbrev pub IsPure : Group → Type 0
IsPure group = count (has_group_key group.key) group.members ≡ length group.members

abbrev pub members_of : Option Group → List MixedRecord
members_of none = []
members_of (some group) = group.members

count_in-put_in_group :
    (test : MixedRecord → Bool) (r : MixedRecord) (groups : List Group)
    → count_in test (put_in_group r groups) ≡ count_in test groups + (if test r then 1 else 0)
unfolding count_in put_in_group count
count_in-put_in_group test r [] = ground arith
count_in-put_in_group test r (group ∷ groups) =
    ground (arith, count-append test group.members (r ∷ []), count_in-put_in_group test r groups)

pub count_in-grouped_from :
    (test : MixedRecord → Bool) (records : List MixedRecord) (groups : List Group)
    → count_in test (grouped_from records groups) ≡ count_in test groups + count test records
unfolding grouped_from count
count_in-grouped_from test [] groups = omega arith
count_in-grouped_from test (r ∷ records) groups = ground (
  arith,
  count_in-grouped_from test records (put_in_group r groups),
  count_in-put_in_group test r groups,
)

length-snoc : (xs : List MixedRecord) (x : MixedRecord) → length (xs ++ x ∷ []) ≡ suc (length xs)
length-snoc [] x = refl
length-snoc (y ∷ xs) x = ground (arith, length-snoc xs x)

put_in_group-IsPure :
    (r : MixedRecord) (groups : List Group) → All IsPure groups → All IsPure (put_in_group r groups)
unfolding put_in_group count
put_in_group-IsPure r [] all = (rw ((eq_iff (group_key r) (group_key r)).1 refl) refl, tt)
put_in_group-IsPure r (group ∷ groups) (here, rest) = elim (Bool-cases (group.key == group_key r)) [
  | inl own ↦
      let e : group.key ≡ group_key r = (eq_iff group.key (group_key r)).0 own in
      let mine : has_group_key group.key r ≡ true = (eq_iff (group_key r) group.key).1 (sym e) in
      rw own (
        rw
            (
              count-append (has_group_key group.key) group.members (r ∷ []),
              mine,
              length-snoc group.members r,
              here,
            )
            (omega arith),
        rest,
      )
  | inr other ↦ rw other (here, put_in_group-IsPure r groups rest)
]

pub grouped_from-IsPure :
    (records : List MixedRecord) (groups : List Group)
    → All IsPure groups
    → All IsPure (grouped_from records groups)
unfolding grouped_from
grouped_from-IsPure [] groups all = all
grouped_from-IsPure (r ∷ records) groups all =
    grouped_from-IsPure records (put_in_group r groups) (put_in_group-IsPure r groups all)

other_key :
    (r : MixedRecord) (group : Group) (key : String)
    → (group.key == group_key r) ≡ false
    → (group.key == key) ≡ true
    → has_group_key key r ≡ false
other_key r group key other own = elim (Bool-cases (has_group_key key r)) [
  | inr apart ↦ apart
  | inl same ↦
      let e : group.key ≡ group_key r =
        (eq_iff group.key key).0 own ∙ sym ((eq_iff (group_key r) key).0 same) in
      let hit : (group.key == group_key r) ≡ true = (eq_iff group.key (group_key r)).1 e in
      absurd (cc)
]

-- The members under a key, after one more record.
members_put :
    (key : String) (r : MixedRecord) (groups : List Group)
    → length (members_of (find (is_group key) (put_in_group r groups)))
      ≡ length (members_of (find (is_group key) groups)) + (if has_group_key key r then 1 else 0)
unfolding put_in_group find
members_put key r [] = ground arith
members_put key r (group ∷ groups) = elim (Bool-cases (group.key == group_key r)) [
  | inl own ↦
      let e : group.key ≡ group_key r = (eq_iff group.key (group_key r)).0 own in
      elim (Bool-cases (group_key r == key)) [
        | inl k ↦
            let gk : (group.key == key) ≡ true = rw e k in
            rw (own, gk, k) (length-snoc group.members r ∙ omega arith)
        | inr k ↦ let gk : (group.key == key) ≡ false = rw e k in rw (own, gk, k) (omega arith)
      ]
  | inr other ↦ elim (Bool-cases (group.key == key)) [
    | inl k ↦
        let apart : has_group_key key r ≡ false = other_key r group key other k in
        rw (other, k, apart) (omega arith)
    | inr k ↦ rw (other, k) (members_put key r groups)
  ]
]

pub members_grouped :
    (key : String) (records : List MixedRecord) (groups : List Group)
    → length (members_of (find (is_group key) (grouped_from records groups)))
      ≡ length (members_of (find (is_group key) groups)) + count (has_group_key key) records
unfolding grouped_from count
members_grouped key [] groups = omega arith
members_grouped key (r ∷ records) groups =
    ground (arith, members_grouped key records (put_in_group r groups), members_put key r groups)
