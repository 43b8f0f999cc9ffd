-- ===== src/Split/Kept.antt =====
-- The split keeps every record in one part or the other, and each part has every kind it can have.
use css360_syllabus_bot.Prelude.{
  ◌+◌, ◌≤◌, ◌≡◌, ◌∙◌, refl, Bool, true, String, Option, none, some, List, [], ◌∷◌, ◌++◌, length,
  All, arith, string_eq, eq_iff, nat_eq, Bool-cases, Option-cases, inl, inr, FloatOps,
}
use css360_syllabus_bot.Table.{find, count}
use css360_syllabus_bot.Split.{MixedRecord, Group, grouped_from, split_groups, split_mixed_records}
use css360_syllabus_bot.Split.Groups.{
  count-append, count_all, has_group_key, is_group, count_in, IsPure, members_of,
  count_in-grouped_from, grouped_from-IsPure, members_grouped,
}
use css360_syllabus_bot.Split.Parts.{
  Together, IsShared, nothing, pure-IsShared, appended-IsShared, checked_fits, group_split,
}

module _ (F : FloatOps) (shuffle : List MixedRecord → List MixedRecord)
    (permutes : (test : MixedRecord → Bool) (xs : List MixedRecord)
      → count test (shuffle xs) ≡ count test xs) where
  groups_split :
      (fraction : F.Float) (groups : List Group)
      → (parts : List MixedRecord × List MixedRecord) × (split_groups F shuffle fraction groups
          ≡ inr parts)
        × ((test : MixedRecord → Bool) → Together test (count_in test groups) parts)
        × ((key : String) (group : Group)
            → All IsPure groups
            → find (is_group key) groups ≡ some group
            → 2 ≤ length group.members
            → IsShared (has_group_key key) parts)
  unfolding split_groups count_in find
  groups_split fraction [] =
      (([], []), refl, (λ test. nothing test), λ key group pure found. absurd (cc))
  groups_split fraction (first ∷ groups) =
      let (p, e, together, shared) = group_split F shuffle permutes fraction first in
      let (q, d, rest_together, rest_shared) = groups_split fraction groups in
      (
        (p.0 ++ q.0, p.1 ++ q.1),
        rw (e, d) refl,
        (λ test. ground (
          arith,
          together test,
          rest_together test,
          count-append test p.0 q.0,
          count-append test p.1 q.1,
        )),
        λ key group pure found several. elim (Bool-cases (is_group key first)) [
          | inl own ↦
              let whole : ◌≡◌ {A = Option Group} (some first) (some group) = (rw own at found) in
              let same : first ≡ group = cc in
              let (here, others) = pure in
              let k : first.key ≡ key = (eq_iff first.key key).0 own in
              let of_key : count (has_group_key key) first.members ≡ length first.members =
                (rw k at here) in
              appended-IsShared (has_group_key key) p q
                (inl (pure-IsShared key first.members p of_key together (shared (rw same several))))
          | inr other ↦
              let (here, others) = pure in
              appended-IsShared (has_group_key key) p q
                (inr (rest_shared key group others (rw other at found) several))
        ],
      )

  count_grouped :
      (test : MixedRecord → Bool) (records : List MixedRecord)
      → count_in test (grouped_from records []) ≡ count test records
  unfolding count_in
  count_grouped test records = count_in-grouped_from test records [] ∙ omega arith

  several_grouped :
      (key : String) (records : List MixedRecord)
      → 2 ≤ count (has_group_key key) records
      → (group : Group) × (find (is_group key) (grouped_from records []) ≡ some group)
        × (2 ≤ length group.members)
  unfolding find
  several_grouped key records several =
      let sized = members_grouped key records [] in
      elim (Option-cases (find (is_group key) (grouped_from records []))) [
        | inl absent ↦
            let none_there : length (members_of none)
                ≡ length (members_of none) + count (has_group_key key) records =
              (rw absent at sized) in
            absurd (ground (arith, several))
        | inr (group, e) ↦
            let there : length group.members
                ≡ length (members_of none) + count (has_group_key key) records =
              (rw e at sized) in
            (group, e, ground (arith, several, there))
      ]

  mixed_split :
      (fraction : F.Float) (records : List MixedRecord)
      → (parts : List MixedRecord × List MixedRecord) × (split_mixed_records F shuffle fraction
            records
          ≡ inr parts)
        × ((test : MixedRecord → Bool) → Together test (count test records) parts)
        × ((key : String)
            → 2 ≤ count (has_group_key key) records
            → IsShared (has_group_key key) parts)
  unfolding split_mixed_records
  mixed_split fraction records =
      let ((train, validation), e, together, shared) =
        groups_split fraction (grouped_from records []) in
      let kept : (test : MixedRecord → Bool)
          → count test (shuffle train) + count test (shuffle validation) ≡ count test records =
        λ test. ground (
          arith,
          permutes test train,
          permutes test validation,
          together test,
          count_grouped test records,
        ) in
      let all : length (shuffle train) + length (shuffle validation) ≡ length records = ground (
        arith,
        kept (λ r. true),
        count_all (shuffle train),
        count_all (shuffle validation),
        count_all records,
      ) in
      (
        (shuffle train, shuffle validation),
        rw e (
            checked_fits F shuffle permutes (length records) (shuffle train) (shuffle validation)
              all),
        kept,
        λ key several.
            let (group, found, many) = several_grouped key records several in
            let (t, v) = shared key group (grouped_from-IsPure records [] tt) found many in
            (
              rw (permutes (has_group_key key) train) t,
              rw (permutes (has_group_key key) validation) v,
            ),
      )

  -- Where the shuffle permutes: the split of any records returns a training and a validation part, and
  -- of every sort of record the two parts hold together exactly as many as there were.
  pub split_keeps :
      (fraction : F.Float) (records : List MixedRecord)
      → (parts : List MixedRecord × List MixedRecord) × (split_mixed_records F shuffle fraction
            records
          ≡ inr parts)
        × ((test : MixedRecord → Bool)
            → count test parts.0 + count test parts.1 ≡ count test records)
  split_keeps fraction records =
      let (parts, e, together, shared) = mixed_split fraction records in (parts, e, together)

  -- Where the shuffle permutes: of a format and kind with two records or more, the two parts that the
  -- split returns hold at least one each.
  pub split_stratified :
      (fraction : F.Float) (records : List MixedRecord) (key : String)
      → 2 ≤ count (has_group_key key) records
      → (parts : List MixedRecord × List MixedRecord) × (split_mixed_records F shuffle fraction
            records
          ≡ inr parts)
        × (1 ≤ count (has_group_key key) parts.0)
        × (1 ≤ count (has_group_key key) parts.1)
  split_stratified fraction records key several =
      let (parts, e, together, shared) = mixed_split fraction records in
      let (t, v) = shared key several in (parts, e, t, v)
