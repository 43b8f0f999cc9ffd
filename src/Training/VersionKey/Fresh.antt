-- ===== src/Training/VersionKey/Fresh.antt =====
-- The next version key is new, and reads back as its number.
use css360_syllabus_bot.Prelude.{
  ℕ, zero, suc, ◌+◌, ◌/◌, ◌%◌, ◌≤◌, ◌<◌, ◌≡◌, refl, ap, ◌∙◌, Bool, true, false, String, Option,
  some, List, [], ◌∷◌, ltb, codes, contains, ◌==◌, nat_eq, string_eq, eq_iff, arith, Bool-cases,
  inl, inr,
}
use css360_syllabus_bot.Training.VersionKey.{
  digit_char, show_onto, version_key, read_digits, match_version, larger, highest_version,
  next_model_version,
}
use Prim.Native.Char.{code}

code-digit_char : (d : ℕ) → d < 10 → code (digit_char d) ≡ 48 + d
unfolding digit_char
code-digit_char zero h = refl
code-digit_char (suc zero) h = refl
code-digit_char (suc (suc zero)) h = refl
code-digit_char (suc (suc (suc zero))) h = refl
code-digit_char (suc (suc (suc (suc zero)))) h = refl
code-digit_char (suc (suc (suc (suc (suc zero))))) h = refl
code-digit_char (suc (suc (suc (suc (suc (suc zero)))))) h = refl
code-digit_char (suc (suc (suc (suc (suc (suc (suc zero))))))) h = refl
code-digit_char (suc (suc (suc (suc (suc (suc (suc (suc zero)))))))) h = refl
code-digit_char (suc (suc (suc (suc (suc (suc (suc (suc (suc zero))))))))) h = refl
code-digit_char (suc (suc (suc (suc (suc (suc (suc (suc (suc (suc n)))))))))) h =
    absurd (omega arith)

module _ (digit_value : ℕ → Option ℕ)
    (ascii : (d : ℕ) → d < 10 → digit_value (48 + d) ≡ some d) where
  digit_read : (n : ℕ) → digit_value (code (digit_char (n % 10))) ≡ some (n % 10)
  digit_read n = rw (code-digit_char (n % 10) (omega arith)) (ascii (n % 10) (omega arith))

  -- Reading the digits of `n` and then `rest` is reading `rest` from the value `n`.
  read-show :
      (fuel n : ℕ) (seen : Bool) (rest : String)
      → n < fuel
      → read_digits digit_value 0 seen (codes (show_onto fuel n rest))
        ≡ read_digits digit_value n true (codes rest)
  unfolding show_onto read_digits
  read-show zero n seen rest h = absurd (omega arith)
  read-show (suc fuel) n seen rest h = elim (Bool-cases (ltb n 10)) [
    | inl small ↦
        rw (small, digit_read n)
          (ap (λ v. read_digits digit_value v true (codes rest)) (ground arith))
    | inr large ↦ rw large (
        read-show fuel (n / 10) seen (String.◌∷◌ (digit_char (n % 10)) rest) (ground arith)
        ∙ rw (digit_read n) (ap (λ v. read_digits digit_value v true (codes rest)) (omega arith)))
  ]

  match-version_key : (n : ℕ) → match_version digit_value (version_key n) ≡ some n
  unfolding match_version version_key
  match-version_key n = read-show (suc n) n false "" (omega arith)

  larger-le :
      (key : String) (highest n : ℕ)
      → match_version digit_value key ≡ some n
      → n ≤ larger digit_value (match_version digit_value key) highest
  larger-le key highest n m = rw m (ground arith)

  highest-le :
      (highest : ℕ) (keys : List String) → highest ≤ highest_version digit_value highest keys
  unfolding highest_version
  highest-le highest [] = omega arith
  highest-le highest (key ∷ keys) =
      ground (arith, highest-le (larger digit_value (match_version digit_value key) highest) keys)

  highest_bounds :
      (highest : ℕ) (keys : List String) (key : String) (n : ℕ)
      → contains keys key ≡ true
      → match_version digit_value key ≡ some n
      → n ≤ highest_version digit_value highest keys
  unfolding highest_version
  highest_bounds highest [] key n h m = cc
  highest_bounds highest (k ∷ keys) key n h m = elim (Bool-cases (k == key)) [
    | inl here ↦
        let same : k ≡ key = (eq_iff k key).0 here in
        omega (
          arith,
          highest-le (larger digit_value (match_version digit_value k) highest) keys,
          larger-le k highest n (rw same m),
        )
    | inr there ↦
        highest_bounds (larger digit_value (match_version digit_value k) highest) keys key n
          (rw there at h) m
  ]

  -- Where the digits 0 to 9 have their values, the next version key is none of the existing ones, and the pattern reads it back as one more
  -- than the highest number among them.
  pub next_version_fresh :
      (keys : List String)
      → (contains keys (next_model_version digit_value keys) ≡ false)
        × (match_version digit_value (next_model_version digit_value keys)
            ≡ some (highest_version digit_value 0 keys + 1))
  unfolding next_model_version
  next_version_fresh keys = (
    elim (Bool-cases (contains keys (version_key (highest_version digit_value 0 keys + 1)))) [
      | inl taken ↦ absurd (
          omega (
            arith,
            highest_bounds 0 keys (version_key (highest_version digit_value 0 keys + 1))
                (highest_version digit_value 0 keys + 1) taken
                (match-version_key (highest_version digit_value 0 keys + 1)),
          ))
      | inr free ↦ free
    ],
    match-version_key (highest_version digit_value 0 keys + 1),
  )
