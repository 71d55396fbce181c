-- ===== src/Devnetvm/Balances/Consumed.antt =====
-- What TransactionBalancesValid gathers from the inputs.
use zipp.Base.{
  u64_mod, ℕ, ◌+◌, ◌-◌, ◌<◌, ◌%◌, ◌≡◌, refl, sym, ap, ◌∙◌, inl, inr, List, [], ◌∷◌, some, Bool,
  true, false, leb, ◌==◌, if◌then◌else◌, arith, Bool-cases, Option-cases, sum_by,
}
use zipp.Base.Assoc.{lookup, insert, lookup-insert, sum_values-insert_new, sum_values-insert_old}
use zipp.Devnetvm.Balances.{Coins, coins_of, consume_balances, consume_inputs, safe_add_uint64}

-- The tokens of a list of balances, in all colors and in one.
abbrev pub total : Coins → ℕ
total = sum_by (λ e. e.1)

abbrev pub in_color : ℕ → ℕ × ℕ → ℕ
in_color c e = if e.0 == c then e.1 else 0

abbrev pub total_in : ℕ → Coins → ℕ
total_in c = sum_by (in_color c)

-- The same over a list of outputs.
abbrev pub grand_total : List Coins → ℕ
grand_total = sum_by total

abbrev pub grand_total_in : ℕ → List Coins → ℕ
grand_total_in c = sum_by (total_in c)

pub total-insert : (m : Coins) (c n : ℕ) → total (insert c n m) + coins_of m c ≡ total m + n
unfolding coins_of
total-insert m c n = elim (Option-cases (lookup c m)) [
  | inl h ↦ rw (h, coins_of) (omega (arith, sum_values-insert_new (λ x. x) c n m h))
  | inr (u, h) ↦ rw (h, coins_of) (sum_values-insert_old (λ x. x) c n u m h)
]

pub coins_of-insert :
    (m : Coins) (c d n : ℕ) → coins_of (insert c n m) d ≡ (if c == d then n else coins_of m d)
unfolding coins_of
coins_of-insert m c d n = ground (arith, lookup-insert c d n m)

abbrev pub IsBounded : Coins → Type 0
IsBounded m = (c : ℕ) → coins_of m c < u64_mod

pub insert-IsBounded : (m : Coins) (c n : ℕ) → IsBounded m → n < u64_mod → IsBounded (insert c n m)
insert-IsBounded m c n b h d = ground (arith, coins_of-insert m c d n, b d)

consume_step :
    (color balance : ℕ) (l m : Coins) (valid : Bool)
    → IsBounded m
    → leb balance (u64_mod - 1 - coins_of m color) ≡ true
    → (consume_balances ((color, balance) ∷ l) m valid
        ≡ consume_balances l (insert color (coins_of m color + balance) m) true)
      × (coins_of m color + balance < u64_mod)
unfolding consume_balances safe_add_uint64
consume_step color balance l m valid b fits =
    let small : coins_of m color + balance < u64_mod = ground (arith, b color) in
    let exact : (coins_of m color + balance) % u64_mod ≡ coins_of m color + balance = omega arith in
    (rw (consume_balances, safe_add_uint64, fits, exact) refl, small)

consume_stop :
    (color balance : ℕ) (l m : Coins) (valid : Bool)
    → leb balance (u64_mod - 1 - coins_of m color) ≡ false
    → (consume_balances ((color, balance) ∷ l) m valid).1 ≡ false
unfolding consume_balances safe_add_uint64
consume_stop color balance l m valid over = ground arith

-- Two maps of coins differ by the balances of a list.
record Gains (m : Coins) (l : Coins) (m' : Coins) : Type 0 where
  sum : total m' ≡ total m + total l
  colors : (c : ℕ) → coins_of m' c ≡ coins_of m c + total_in c l
  bounded : IsBounded m'

-- The balances of an input add up, color by color, if the loop accepts them.
consume_balances_lem :
    (l m : Coins) (valid : Bool)
    → IsBounded m
    → (consume_balances l m valid).1 ≡ true
    → Gains m l (consume_balances l m valid).0
consume_balances_lem [] m valid b h =
    unfold consume_balances in
    (record { sum = omega arith; colors = λ c. omega arith; bounded = b })
consume_balances_lem ((color, balance) ∷ l) m valid b h =
    elim (Bool-cases (leb balance (u64_mod - 1 - coins_of m color))) [
      | inr over ↦ ground (arith, consume_stop color balance l m valid over)
      | inl fits ↦
          let (step, small) = consume_step color balance l m valid b fits in
          let m1 = insert color (coins_of m color + balance) m in
          let ih =
            consume_balances_lem l m1 true
              (insert-IsBounded m color (coins_of m color + balance) b small)
              (ap (λ r. r.1) (sym step) ∙ h) in
          rw step (record {
            sum = omega (arith, ih.sum, total-insert m color (coins_of m color + balance));
            colors = λ c.
                ground (arith, ih.colors c, coins_of-insert m color c (coins_of m color + balance));
            bounded = ih.bounded;
          })
    ]

-- The same over all inputs.
pub record GainsAll (m : Coins) (l : List Coins) (m' : Coins) : Type 0 where
  pub sum : total m' ≡ total m + grand_total l
  pub colors : (c : ℕ) → coins_of m' c ≡ coins_of m c + grand_total_in c l
  pub bounded : IsBounded m'

pub consume_inputs_lem :
    (l : List Coins) (m : Coins) (valid : Bool) (m' : Coins) (v' : Bool)
    → IsBounded m
    → consume_inputs l m valid ≡ some (m', v')
    → GainsAll m l m'
unfolding consume_inputs
consume_inputs_lem [] m valid m' v' b h =
    let e : m ≡ m' = ground arith in
    rw (← e) (record { sum = omega arith; colors = λ c. omega arith; bounded = b })
consume_inputs_lem (input ∷ l) m valid m' v' b h =
    elim (Bool-cases (consume_balances input m valid).1) [
      | inr stop ↦ ground arith
      | inl go ↦
          let g = consume_balances_lem input m valid b go in
          let ih =
            consume_inputs_lem l (consume_balances input m valid).0 true m' v' g.bounded
              (ground arith) in
          record {
            sum = omega (arith, ih.sum, g.sum);
            colors = λ c. omega (arith, ih.colors c, g.colors c);
            bounded = ih.bounded;
          }
    ]
