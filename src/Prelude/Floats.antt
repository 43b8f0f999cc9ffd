-- ===== src/Prelude/Floats.antt =====
-- Python's floats, as an interface: the operations that the program applies to them.
use Prim.Native.Nat.{ℕ}
use mathlib.Core.Bool.{Bool}

pub record FloatOps : Type 1 where
  pub Float : Type 0
  -- The float of the decimal literal n / 10 ^ k.
  pub decimal : (n k : ℕ) → Float
  pub plus : Float → Float → Float
  pub minus : Float → Float → Float
  pub times : Float → Float → Float
  pub over : Float → Float → Float
  -- x < y
  pub below : Float → Float → Bool
  -- x == y
  pub same : Float → Float → Bool
  -- int(math.floor(x)) of a float that is not negative
  pub floor : Float → ℕ
  -- math.ceil(x) of a float that is not negative
  pub ceil : Float → ℕ
  -- round(x, k)
  pub round : Float → (k : ℕ) → Float
