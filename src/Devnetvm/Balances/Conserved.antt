-- ===== src/Devnetvm/Balances/Conserved.antt =====
-- The tokens of a transaction that TransactionBalancesValid accepts.
use zipp.Base.{
  u64_mod, ℕ, ◌+◌, ◌-◌, ◌≤◌, ◌<◌, ◌%◌, ◌≡◌, refl, sym, ap, ◌∙◌, inl, inr, List, [], ◌∷◌, some, Bool,
  true, false, leb, ◌==◌, arith, Bool-cases, Option-cases,
}
use zipp.Base.Assoc.{lookup, insert}
use zipp.Devnetvm.Balances.{
  Coins, coins_of, consume_inputs, is_recolored, produce_balances, produce_outputs, sum_unspent,
  compare_unspent, transaction_balances_valid, safe_add_uint64, safe_sub_uint64,
}
use zipp.Devnetvm.Balances.Consumed.{
  total, total_in, grand_total, grand_total_in, total-insert, coins_of-insert, IsBounded,
  insert-IsBounded, consume_inputs_lem,
}

-- What the outputs leave: every plain color keeps what is not spent of it, and the recolored coins
-- make up for what is neither left nor plain.
record Spends (m : Coins) (recolored : ℕ) (l : Coins) (m' : Coins) (recolored' : ℕ) : Type 0 where
  sum : total m' + total l + recolored ≡ total m + recolored'
  colors : (c : ℕ) → is_recolored c ≡ false → coins_of m' c + total_in c l ≡ coins_of m c
  bounded : IsBounded m'
  small : recolored' < u64_mod

produce_recolor :
    (color balance : ℕ) (l m : Coins) (r : ℕ) (valid : Bool)
    → is_recolored color ≡ true
    → r < u64_mod
    → (produce_balances ((color, balance) ∷ l) m r valid).2 ≡ true
    → (produce_balances ((color, balance) ∷ l) m r valid ≡ produce_balances l m (r + balance) true)
      × (r + balance < u64_mod)
unfolding produce_balances safe_add_uint64
produce_recolor color balance l m r valid e small h =
    elim (Bool-cases (leb balance (u64_mod - 1 - r))) [
      | inr over ↦ ground arith
      | inl fits ↦
          let low : r + balance < u64_mod = ground arith in
          let exact : (r + balance) % u64_mod ≡ r + balance = omega arith in
          (rw (produce_balances, e, safe_add_uint64, fits, exact) refl, low)
    ]

produce_spend :
    (color balance : ℕ) (l m : Coins) (r : ℕ) (valid : Bool)
    → is_recolored color ≡ false
    → IsBounded m
    → (produce_balances ((color, balance) ∷ l) m r valid).2 ≡ true
    → (produce_balances ((color, balance) ∷ l) m r valid
        ≡ produce_balances l (insert color (coins_of m color - balance) m) r true)
      × (balance ≤ coins_of m color)
unfolding produce_balances safe_sub_uint64
produce_spend color balance l m r valid e b h = elim (Bool-cases (leb balance (coins_of m color))) [
  | inr over ↦ ground arith
  | inl fits ↦
      let low : balance ≤ coins_of m color = ground arith in
      let exact : (coins_of m color + u64_mod - balance) % u64_mod ≡ coins_of m color - balance =
        omega (arith, b color) in
      (rw (produce_balances, e, safe_sub_uint64, fits, exact) refl, low)
]

-- The loop over the balances of an output, if it accepts them.
produce_balances_lem :
    (l m : Coins) (r : ℕ) (valid : Bool)
    → IsBounded m
    → r < u64_mod
    → (produce_balances l m r valid).2 ≡ true
    → let p = produce_balances l m r valid in Spends m r l p.0 p.1
produce_balances_lem [] m r valid b s h =
    unfold produce_balances in
    (record { sum = omega arith; colors = λ c plain. omega arith; bounded = b; small = s })
produce_balances_lem ((color, balance) ∷ l) m r valid b s h =
    elim (Bool-cases (is_recolored color)) [
      | inl e ↦
          let (step, low) = produce_recolor color balance l m r valid e s h in
          let ih =
            produce_balances_lem l m (r + balance) true b low (ap (λ q. q.2) (sym step) ∙ h) in
          rw step (record {
            sum = omega (arith, ih.sum);
            colors = λ c plain. ground (arith, ih.colors c plain, plain-other c color plain e);
            bounded = ih.bounded;
            small = ih.small;
          })
      | inr e ↦
          let (step, low) = produce_spend color balance l m r valid e b h in
          let m1 = insert color (coins_of m color - balance) m in
          let ih =
            produce_balances_lem l m1 r true
              (insert-IsBounded m color (coins_of m color - balance) b (omega (arith, b color))) s
              (ap (λ q. q.2) (sym step) ∙ h) in
          rw step (record {
            sum = omega (arith, ih.sum, low, total-insert m color (coins_of m color - balance));
            colors = λ c plain. ground (
              arith,
              ih.colors c plain,
              low,
              coins_of-insert m color c (coins_of m color - balance),
            );
            bounded = ih.bounded;
            small = ih.small;
          })
    ]
  where
    plain-other : (c d : ℕ) → is_recolored c ≡ false → is_recolored d ≡ true → (d == c) ≡ false
    plain-other c d p q = elim (Bool-cases (d == c)) [
      | inr differs ↦ differs
      | inl same ↦ ground arith
    ]

-- The loop over the outputs, if it accepts them.
record SpendsAll (m : Coins) (recolored : ℕ) (l : List Coins) (m' : Coins) (recolored' : ℕ)
    : Type 0 where
  sum : total m' + grand_total l + recolored ≡ total m + recolored'
  colors : (c : ℕ) → is_recolored c ≡ false → coins_of m' c + grand_total_in c l ≡ coins_of m c

produce_outputs_lem :
    (l : List Coins) (m : Coins) (r : ℕ) (valid : Bool) (m' : Coins) (r' : ℕ)
    → IsBounded m
    → r < u64_mod
    → produce_outputs l m r valid ≡ some (m', r')
    → SpendsAll m r l m' r'
unfolding produce_outputs
produce_outputs_lem [] m r valid m' r' b s h =
    let (e, e') : (m ≡ m') × (r ≡ r') = ground arith in
    rw (← e, ← e') (record { sum = omega arith; colors = λ c plain. omega arith })
produce_outputs_lem (output ∷ l) m r valid m' r' b s h =
    elim (Bool-cases (produce_balances output m r valid).2) [
      | inr stop ↦ ground arith
      | inl go ↦
          let p = produce_balances output m r valid in
          let g = produce_balances_lem output m r valid b s go in
          let ih = produce_outputs_lem l p.0 p.1 true m' r' g.bounded g.small (ground arith) in
          record {
            sum = omega (arith, ih.sum, g.sum);
            colors = λ c plain. omega (arith, ih.colors c plain, g.colors c plain);
          }
    ]

sum_unspent_lem :
    (m : Coins) (acc u : ℕ) → acc < u64_mod → sum_unspent m acc ≡ some u → u ≡ acc + total m
unfolding sum_unspent safe_add_uint64
sum_unspent_lem [] acc u small h = ground arith
sum_unspent_lem ((c, balance) ∷ rest) acc u small h =
    elim (Bool-cases (leb balance (u64_mod - 1 - acc))) [
      | inr over ↦ ground arith
      | inl fits ↦
          let low : acc + balance < u64_mod = ground arith in
          let exact : (acc + balance) % u64_mod ≡ acc + balance = omega arith in
          let more : sum_unspent rest (acc + balance) ≡ some u = ground (arith) in
          omega (arith, sum_unspent_lem rest (acc + balance) u low more)
    ]

-- Both at once.
conserves :
    (inputs outputs : List Coins)
    → transaction_balances_valid inputs outputs ≡ true
    → (grand_total outputs ≡ grand_total inputs)
      × ((c : ℕ) → is_recolored c ≡ false → grand_total_in c outputs ≤ grand_total_in c inputs)
unfolding transaction_balances_valid compare_unspent coins_of lookup
conserves inputs outputs h = elim (Option-cases (consume_inputs inputs [] false)) [
  | inl e ↦ ground arith
  | inr ((m, valid), e) ↦ elim (Option-cases (produce_outputs outputs m 0 valid)) [
    | inl e' ↦ ground arith
    | inr ((m', r), e') ↦ elim (Option-cases (sum_unspent m' 0)) [
      | inl e'' ↦ ground arith
      | inr (u, e'') ↦
          let gains =
            consume_inputs_lem inputs [] false m valid (λ c. unfold coins_of in omega arith) e in
          let spends = produce_outputs_lem outputs m 0 valid m' r gains.bounded (omega arith) e' in
          let same : u ≡ r = ground arith in
          (
            omega (arith, gains.sum, spends.sum, sum_unspent_lem m' 0 u (omega arith) e''),
            λ c plain. omega (arith, gains.colors c, spends.colors c plain),
          )
    ]
  ]
]

-- If TransactionBalancesValid accepts a transaction, then the outputs hold as many tokens in total
-- as the inputs, as numbers without wrap-around.
pub transaction_balances_valid-conserves :
    (inputs outputs : List Coins)
    → transaction_balances_valid inputs outputs ≡ true
    → grand_total outputs ≡ grand_total inputs
transaction_balances_valid-conserves inputs outputs h = (conserves inputs outputs h).0

-- If TransactionBalancesValid accepts a transaction, then of each color other than ZIPP and Mint
-- the outputs hold no more tokens than the inputs.
pub transaction_balances_valid-mints_none :
    (inputs outputs : List Coins) (c : ℕ)
    → transaction_balances_valid inputs outputs ≡ true
    → is_recolored c ≡ false
    → grand_total_in c outputs ≤ grand_total_in c inputs
transaction_balances_valid-mints_none inputs outputs c h plain =
    (conserves inputs outputs h).1 c plain
