-- ===== src/Base/Fractions.antt =====
-- Fractions with two infinities: an instance of Float64 at which the tests run.
use native.Mathlib.Nat.{mul-lt-mul_of_pos_right, lt_of_mul-lt-mul_right}
use Prim.Native.Nat.{ℕ, suc, ◌+◌, ◌-◌, ◌*◌, ◌/◌, ◌<◌}
use mathlib.Core.Path.{◌≡◌, refl}
use mathlib.Core.Bool.{Bool, true, false, ◌||◌}
use native.Mathlib.Omega.{arith}
use zipp.Base.Tests.{ltb, ◌==◌, ltb→lt, lt→ltb}
use zipp.Base.Floats.{Float64}

-- A fraction n / (d + 1), or an infinity.
pub data Num : Type 0 where
  neg pos : Num
  frac : ℕ → ℕ → Num

unfoldable pub lt_num : Num → Num → Bool
lt_num neg neg = false
lt_num neg pos = true
lt_num neg (frac n d) = true
lt_num pos y = false
lt_num (frac n d) neg = false
lt_num (frac n d) pos = true
lt_num (frac n d) (frac m e) = ltb (n * (e + 1)) (m * (d + 1))

unfoldable pub div_num : Num → Num → Num
div_num (frac n d) (frac (suc m) e) = frac (n * (e + 1)) ((d + 1) * (m + 1) - 1)
div_num x y = pos

abbrev pub fractions : Float64
fractions = record {
  F = Num;
  lt = lt_num;
  le = λ x y. lt_num x y || (elim x [
    | frac n d ↦ elim y [ frac m e ↦ (n * (e + 1)) == (m * (d + 1)) | _ ↦ false ]
    | _ ↦ false
  ]);
  of_int = λ n. frac n 0;
  div = div_num;
  neg_inf = neg;
  pos_inf = pos;
  ceil = λ x. elim x [ frac n d ↦ (n + d) / (d + 1) | _ ↦ 0 ];
  trunc = λ x. elim x [ frac n d ↦ n / (d + 1) | _ ↦ 0 ];
}

cross :
    (a b c d e f : ℕ)
    → a * (d + 1) < c * (b + 1)
    → c * (f + 1) < e * (d + 1)
    → a * (f + 1) < e * (b + 1)
cross a b c d e f p q = lt_of_mul-lt-mul_right (d + 1) (
    omega (
      arith,
      mul-lt-mul_of_pos_right {k = f + 1} p (omega arith),
      mul-lt-mul_of_pos_right {k = b + 1} q (omega arith),
    ))

pub lt_num_trans : (x y z : Num) → lt_num x y ≡ true → lt_num y z ≡ true → lt_num x z ≡ true
unfolding lt_num
lt_num_trans neg neg z p q = ground arith
lt_num_trans neg pos z p q = ground arith
lt_num_trans neg (frac c d) neg p q = ground arith
lt_num_trans neg (frac c d) pos p q = ground arith
lt_num_trans neg (frac c d) (frac e f) p q = ground arith
lt_num_trans pos y z p q = ground arith
lt_num_trans (frac a b) neg z p q = ground arith
lt_num_trans (frac a b) pos z p q = ground arith
lt_num_trans (frac a b) (frac c d) neg p q = ground arith
lt_num_trans (frac a b) (frac c d) pos p q = ground arith
lt_num_trans (frac a b) (frac c d) (frac e f) p q =
    lt→ltb _ _ (cross a b c d e f (ltb→lt _ _ p) (ltb→lt _ _ q))

pub lt_num_irrefl : (x : Num) → lt_num x x ≡ false
unfolding lt_num
lt_num_irrefl neg = refl
lt_num_irrefl pos = refl
lt_num_irrefl (frac n d) = ground arith
