-- ===== src/Base/Floats.antt =====
-- Go's float64, as an interface: the operations that the code uses. The theorems name the facts
-- about floats that they rest on.
use zipp.Base.Tests.{if◌then◌else◌}
use Prim.Native.Nat.{ℕ}
use mathlib.Core.Bool.{Bool}

pub record Float64 : Type 1 where
  pub F : Type 0
  pub lt : F → F → Bool
  pub le : F → F → Bool
  pub of_int : ℕ → F
  pub div : F → F → F
  pub neg_inf : F
  pub pos_inf : F
  -- int64(math.Ceil(x)) and int64(x), of a number that is not negative
  pub ceil : F → ℕ
  pub trunc : F → ℕ

-- math.Max
unfoldable pub max_float : (fl : Float64) → fl.F → fl.F → fl.F
max_float fl x y = if fl.lt x y then y else x
