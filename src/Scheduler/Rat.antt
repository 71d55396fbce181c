-- ===== src/Scheduler/Rat.antt =====
-- Exact rationals, as the scheduler uses Go's big.Rat: (pos - neg) / (den + 1). Values are compared
-- by cross multiplication, so they need not be in lowest terms.
use zipp.Base.{ℕ, zero, suc, ◌+◌, ◌-◌, ◌*◌, Bool, ltb, if◌then◌else◌, Result, ok, panic}

pub record Rat : Type 0 where
  pub pos : ℕ
  pub neg : ℕ
  pub den : ℕ

-- SetInt64, of a number that is not negative and of its negation.
unfoldable pub of_int : ℕ → Rat
of_int n = record { pos = n; neg = 0; den = 0 }

unfoldable pub neg_int : ℕ → Rat
neg_int n = record { pos = 0; neg = n; den = 0 }

-- The numerators over the common denominator.
abbrev pub upper : Rat → Rat → ℕ
upper x y = x.pos * (y.den + 1) + y.neg * (x.den + 1)

-- x.Cmp(y) < 0
unfoldable pub lt : Rat → Rat → Bool
lt x y = ltb (upper x y) (upper y x)

unfoldable pub add : Rat → Rat → Rat
add x y = record {
  pos = x.pos * (y.den + 1) + y.pos * (x.den + 1);
  neg = x.neg * (y.den + 1) + y.neg * (x.den + 1);
  den = (x.den + 1) * (y.den + 1) - 1;
}

unfoldable pub sub : Rat → Rat → Rat
unfolding add
sub x y = add x (record { pos = y.neg; neg = y.pos; den = y.den })

unfoldable pub mul : Rat → Rat → Rat
mul x y = record {
  pos = x.pos * y.pos + x.neg * y.neg;
  neg = x.pos * y.neg + x.neg * y.pos;
  den = (x.den + 1) * (y.den + 1) - 1;
}

-- Inv, which panics at 0.
unfoldable pub inv : Rat → Result Rat
inv x =
    if ltb x.neg x.pos
    then ok (record { pos = x.den + 1; neg = 0; den = x.pos - x.neg - 1 })
    else if ltb x.pos x.neg
    then ok (record { pos = 0; neg = x.den + 1; den = x.neg - x.pos - 1 })
    else panic

-- NewRat of numbers that are not negative, which panics at a denominator 0.
unfoldable pub new_rat : ℕ → ℕ → Result Rat
new_rat a zero = panic
new_rat a (suc b) = ok (record { pos = a; neg = 0; den = b })

-- Sign() < 0
unfoldable pub is_negative : Rat → Bool
is_negative x = ltb x.pos x.neg
