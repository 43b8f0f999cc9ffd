-- ===== src/Prelude/Classes.antt =====
-- Equality tests as an interface, so that `==` serves numbers and texts alike.
use Prim.Native.Nat.{ℕ}
use Prim.Native.String.{String}
use mathlib.Core.Path.{◌≡◌}
use mathlib.Core.Logic.{◌↔◌}
use mathlib.Core.Bool.{Bool, true}
use native.Mathlib.Omega.{arith}
use text.Mathlib.Text.{◌==◌ as text_beq}
use text.Mathlib.TextEquality.{eq_iff}
use css360_syllabus_bot.Prelude.Tests.{nat_beq}

infix 50 ◌==◌
-- A type whose values can be told apart by a test.
pub record HasEquality {κ} (Value : Type κ) : Type κ where
  pub is_same : Value → Value → Bool
  pub is_same_iff : (x y : Value) → (is_same x y ≡ true) ↔ (x ≡ y)

pub nat_beq_iff : (m n : ℕ) → (nat_beq m n ≡ true) ↔ (m ≡ n)
nat_beq_iff m n = ground arith

instance abbrev pub string_eq : HasEquality String
string_eq = record { is_same_iff = eq_iff; is_same = text_beq }

instance abbrev pub nat_eq : HasEquality ℕ
nat_eq = record { is_same_iff = nat_beq_iff; is_same = nat_beq }

abbrev pub ◌==◌ {κ} : {Value : Type κ} ⦃equality : HasEquality Value⦄ → Value → Value → Bool
◌==◌ ⦃equality⦄ = equality.is_same
