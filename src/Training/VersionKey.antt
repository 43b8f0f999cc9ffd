-- ===== src/Training/VersionKey.antt =====
-- backend/app/training_queue_routes.py: the version keys `v1`, `v2`, ...
pub mod Fresh
use Prim.Native.Char.{Char}
use css360_syllabus_bot.Prelude.{
  ℕ, zero, suc, ◌+◌, ◌*◌, ◌/◌, ◌%◌, Bool, true, false, ◌&&◌, String, Option, none, some, List, [],
  ◌∷◌, ltb, codes, ◌==◌, nat_eq, if◌then◌else◌,
}

abbrev is_nil : List ℕ → Bool
is_nil [] = true
is_nil (c ∷ cs) = false

abbrev pub maximum : ℕ → ℕ → ℕ
maximum a b = if ltb a b then b else a

-- f"{n}": the decimal digits, most significant first.
unfoldable pub digit_char : ℕ → Char
digit_char zero = "0"
digit_char (suc zero) = "1"
digit_char (suc (suc zero)) = "2"
digit_char (suc (suc (suc zero))) = "3"
digit_char (suc (suc (suc (suc zero)))) = "4"
digit_char (suc (suc (suc (suc (suc zero))))) = "5"
digit_char (suc (suc (suc (suc (suc (suc zero)))))) = "6"
digit_char (suc (suc (suc (suc (suc (suc (suc zero))))))) = "7"
digit_char (suc (suc (suc (suc (suc (suc (suc (suc zero)))))))) = "8"
digit_char _ = "9"

-- `show_onto fuel n rest` puts the digits of `n` before `rest`; `n + 1` is enough fuel.
unfoldable pub show_onto : ℕ → ℕ → String → String
unfolding digit_char
show_onto zero n rest = rest
show_onto (suc fuel) n rest =
    let shown = String.◌∷◌ (digit_char (n % 10)) rest in
    let more = show_onto fuel (n / 10) shown in if ltb n 10 then shown else more

unfoldable pub version_key : ℕ → String
unfolding show_onto
version_key n = String.◌∷◌ "v" (show_onto (suc n) n "")

-- `digit_value` gives the decimal value of the characters that Python's `\d` matches.
module _ (digit_value : ℕ → Option ℕ) where
  -- (\d+)$ and the number that it spells; `$` stands before a final newline too.
  unfoldable pub read_digits : ℕ → Bool → List ℕ → Option ℕ
  read_digits value seen [] = if seen then some value else none
  read_digits value seen (c ∷ cs) = elim (digit_value c) [
    | some d ↦ read_digits (value * 10 + d) true cs
    | none ↦ if c == 10 && is_nil cs && seen then some value else none
  ]

  unfoldable pub read_version : List ℕ → Option ℕ
  read_version [] = none
  read_version (c ∷ cs) = let value = read_digits 0 false cs in if c == b'v' then value else none

  -- VERSION_PATTERN.match(key), with the number.
  unfoldable pub match_version : String → Option ℕ
  unfolding read_version read_digits
  match_version key = read_version (codes key)

  abbrev pub larger : Option ℕ → ℕ → ℕ
  larger none highest = highest
  larger (some n) highest = maximum highest n

  unfoldable pub highest_version : ℕ → List String → ℕ
  highest_version highest [] = highest
  highest_version highest (key ∷ keys) = highest_version (larger (match_version key) highest) keys

  unfoldable pub next_model_version : List String → String
  unfolding version_key highest_version
  next_model_version existing_versions = version_key (highest_version 0 existing_versions + 1)
