-- ===== src/Common/Number.antt =====
-- What the source uses of JavaScript's numbers, which are floats: a parameter of the model. A value
-- that is not finite (NaN and the infinities) is told by `is_finite`.
use Prim.Native.Nat.{ℕ}
use Prim.Native.String.{String}
use mathlib.Core.Bool.{Bool}

pub record Number : Type 1 where
  pub Carrier : Type 0
  pub of_ℕ : ℕ → Carrier
  pub neg : Carrier → Carrier
  pub plus : Carrier → Carrier → Carrier
  pub minus : Carrier → Carrier → Carrier
  pub times : Carrier → Carrier → Carrier
  pub over : Carrier → Carrier → Carrier
  -- `===` and `<`, false on NaN
  pub eqn : Carrier → Carrier → Bool
  pub ltn : Carrier → Carrier → Bool
  pub is_finite : Carrier → Bool
  -- `Number(text)` and `String(number)`
  pub parse : String → Carrier
  pub show : Carrier → String
