-- ===== src/Generation/System/Lists.antt =====
-- The list of waiters as a sorted list, and the numbers that were granted.
use css360_syllabus_bot.Prelude.{
  ℕ, ◌+◌, ◌≤◌, ◌≡◌, refl, Bool, true, false, not, List, [], ◌∷◌, length, All, arith, Bool-cases,
  ◌==◌, nat_eq, inl, inr, if◌then◌else◌,
}
use css360_syllabus_bot.Table.{select, count}
use css360_syllabus_bot.Generation.{Waiter, key_before, insert_waiter, remove_waiter}

-- No waiter of the list has a larger key than one that stands after it.
abbrev pub IsSorted : List Waiter → Type 0
IsSorted [] = Unit
IsSorted (w ∷ waiters) = All (λ x. key_before x w ≡ false) waiters × IsSorted waiters

abbrev pub occurrences : ℕ → List ℕ → ℕ
occurrences n numbers = count (λ m. m == n) numbers

pub key_before-asym : (a b : Waiter) → key_before a b ≡ true → key_before b a ≡ false
unfolding key_before
key_before-asym a b h = ground arith

-- What is not before b, where b is not before c, is not before c.
pub key_before_trans :
    (a b c : Waiter) → key_before a b ≡ false → key_before b c ≡ false → key_before a c ≡ false
unfolding key_before
key_before_trans a b c h k = ground arith

pub count-insert_waiter :
    (test : Waiter → Bool) (w : Waiter) (waiters : List Waiter)
    → count test (insert_waiter w waiters) ≡ count test waiters + (if test w then 1 else 0)
unfolding count insert_waiter
count-insert_waiter test w [] = ground arith
count-insert_waiter test w (x ∷ waiters) = ground (arith, count-insert_waiter test w waiters)

pub count-remove_waiter :
    (test : Waiter → Bool) (n : ℕ) (waiters : List Waiter)
    → count test (remove_waiter n waiters) ≤ count test waiters
unfolding count remove_waiter
count-remove_waiter test n [] = omega arith
count-remove_waiter test n (x ∷ waiters) = ground (arith, count-remove_waiter test n waiters)

All-insert_waiter :
    (test : Waiter → Bool) (w : Waiter) (waiters : List Waiter)
    → test w ≡ false
    → All (λ x. test x ≡ false) waiters
    → All (λ x. test x ≡ false) (insert_waiter w waiters)
unfolding insert_waiter
All-insert_waiter test w [] h a = (h, tt)
All-insert_waiter test w (x ∷ waiters) h (here, rest) = elim (Bool-cases (key_before w x)) [
  | inl before ↦ rw before (h, (here, rest))
  | inr after ↦ rw after (here, All-insert_waiter test w waiters h rest)
]

All-behind :
    (w x : Waiter) (waiters : List Waiter)
    → key_before x w ≡ false
    → All (λ y. key_before y x ≡ false) waiters
    → All (λ y. key_before y w ≡ false) waiters
All-behind w x [] h a = tt
All-behind w x (y ∷ waiters) h (here, rest) =
    (key_before_trans y x w here h, All-behind w x waiters h rest)

pub insert_waiter-IsSorted :
    (w : Waiter) (waiters : List Waiter) → IsSorted waiters → IsSorted (insert_waiter w waiters)
unfolding insert_waiter
insert_waiter-IsSorted w [] s = (tt, tt)
insert_waiter-IsSorted w (x ∷ waiters) (behind, s) = elim (Bool-cases (key_before w x)) [
  | inl before ↦
      let after = key_before-asym w x before in
      rw before ((after, All-behind w x waiters after behind), (behind, s))
  | inr after ↦ rw after (
    All-insert_waiter (λ y. key_before y x) w waiters after behind,
    insert_waiter-IsSorted w waiters s,
  )
]

All-remove_waiter :
    (test : Waiter → Bool) (n : ℕ) (waiters : List Waiter)
    → All (λ x. test x ≡ false) waiters
    → All (λ x. test x ≡ false) (remove_waiter n waiters)
unfolding remove_waiter
All-remove_waiter test n [] a = tt
All-remove_waiter test n (x ∷ waiters) (here, rest) = elim (Bool-cases (x.sequence == n)) [
  | inl found ↦ rw found rest
  | inr other ↦ rw other (here, All-remove_waiter test n waiters rest)
]

pub remove_waiter-IsSorted :
    (n : ℕ) (waiters : List Waiter) → IsSorted waiters → IsSorted (remove_waiter n waiters)
unfolding remove_waiter
remove_waiter-IsSorted n [] s = tt
remove_waiter-IsSorted n (x ∷ waiters) (behind, s) = elim (Bool-cases (x.sequence == n)) [
  | inl found ↦ rw found s
  | inr other ↦
      rw other (
        All-remove_waiter (λ y. key_before y x) n waiters behind,
        remove_waiter-IsSorted n waiters s,
      )
]

module _ {Row : Type 0} where
  pub length-select :
      (test : Row → Bool) (rows : List Row)
      → length (select (λ row. not (test row)) rows) + count test rows ≡ length rows
  unfolding select count
  length-select test [] = refl
  length-select test (x ∷ rows) = ground (arith, length-select test rows)

  pub count-select :
      (test keep : Row → Bool) (rows : List Row) → count test (select keep rows) ≤ count test rows
  unfolding select count
  count-select test keep [] = omega arith
  count-select test keep (x ∷ rows) = ground (arith, count-select test keep rows)
