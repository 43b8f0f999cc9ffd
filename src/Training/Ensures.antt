-- ===== src/Training/Ensures.antt =====
-- What holds of every value that an operation returns, with one rule for each way to chain.
use css360_syllabus_bot.Prelude.{◌≡◌, refl, Bool, true, false, Option, none, some, if◌then◌else◌}
use css360_syllabus_bot.Training.Error.{Error, Result, ok, err, guard, require, ◌>>=◌, ◌>>◌}

-- The operation raises, or returns a value of which `P` holds.
pub data Ensures {A : Type 0} (P : A → Type 0) : Result A → Type 0 where
  returned : {a : A} → P a → Ensures P (ok a)
  raised : {e : Error} → Ensures P (err e)

pub Ensures-ok : {A : Type 0} {P : A → Type 0} {a : A} → Ensures P (ok a) → P a
Ensures-ok (returned p) = p

pub Ensures-eq : {A : Type 0} {P : A → Type 0} {m : Result A} {a : A} → Ensures P m → m ≡ ok a → P a
Ensures-eq {P} {m} {a} e h = let p : Ensures P (ok a) = rw (← h) e in Ensures-ok p

pub Ensures-mono :
    {A : Type 0} {P Q : A → Type 0} {m : Result A}
    → ((a : A) → P a → Q a)
    → Ensures P m
    → Ensures Q m
Ensures-mono f (returned {a} p) = returned (f a p)
Ensures-mono f raised = raised

module _ {A B : Type 0} {P : B → Type 0} where
  -- The rest of the block may use what the first step returned.
  pub Ensures-bind_eq :
      (m : Result A) (k : A → Result B)
      → ((a : A) → m ≡ ok a → Ensures P (k a))
      → Ensures P (m >>= k)
  unfolding ◌>>=◌
  Ensures-bind_eq (ok a) k h = h a refl
  Ensures-bind_eq (err e) k h = raised

  pub Ensures-bind :
      {Q : A → Type 0} (m : Result A) (k : A → Result B)
      → Ensures Q m
      → ((a : A) → Q a → Ensures P (k a))
      → Ensures P (m >>= k)
  unfolding ◌>>=◌
  Ensures-bind (ok a) k q h = h a (Ensures-ok q)
  Ensures-bind (err e) k q h = raised

  pub Ensures-require :
      (o : Option A) (e : Error) (k : A → Result B)
      → ((a : A) → o ≡ some a → Ensures P (k a))
      → Ensures P (require o e >>= k)
  unfolding ◌>>=◌ require
  Ensures-require (some a) e k h = h a refl
  Ensures-require none e k h = raised

module _ {B : Type 0} {P : B → Type 0} where
  pub Ensures-guard :
      (b : Bool) (e : Error) (k : Result B) → (b ≡ true → Ensures P k) → Ensures P (guard b e >> k)
  unfolding ◌>>◌ guard
  Ensures-guard true e k h = h refl
  Ensures-guard false e k h = raised

  pub Ensures-step :
      (m : Result (Unit {0})) (k : Result B) → (m ≡ ok tt → Ensures P k) → Ensures P (m >> k)
  unfolding ◌>>◌
  Ensures-step (ok u) k h = h refl
  Ensures-step (err e) k h = raised

  pub Ensures-if :
      (b : Bool) (m n : Result B)
      → (b ≡ true → Ensures P m)
      → (b ≡ false → Ensures P n)
      → Ensures P (if b then m else n)
  Ensures-if true m n hm hn = hm refl
  Ensures-if false m n hm hn = hn refl
