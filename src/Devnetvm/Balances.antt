-- ===== src/Devnetvm/Balances.antt =====
-- packages/core/ledger/vm/devnetvm/utils.go: TransactionBalancesValid, over uint64 balances whose
-- wrap-around is written out. A Color is a number of 32 bytes; an output is the list of balances
-- that ForEach goes through.
pub mod Consumed
pub mod Conserved
use zipp.Base.{
  ℕ, suc, ◌+◌, ◌-◌, ◌^◌, ◌%◌, List, [], ◌∷◌, Option, none, some, Bool, true, false, leb, ◌==◌, ◌||◌,
  if◌then◌else◌, u64_mod,
}
use zipp.Base.Assoc.{lookup, insert}

-- ColorZIPP and ColorMint
abbrev pub color_zipp : ℕ
color_zipp = 0

abbrev pub color_mint : ℕ
color_mint = 2 ^ 256 - 1

abbrev pub Coins : Type 0
Coins = List (ℕ × ℕ)

-- SafeAddUint64
unfoldable pub safe_add_uint64 : ℕ → ℕ → ℕ × Bool
safe_add_uint64 a b = ((a + b) % u64_mod, leb b (u64_mod - 1 - a))

-- SafeSubUint64
unfoldable pub safe_sub_uint64 : ℕ → ℕ → ℕ × Bool
safe_sub_uint64 a b = ((a + u64_mod - b) % u64_mod, leb b a)

-- `m[color]` of a map to uint64
unfoldable pub coins_of : Coins → ℕ → ℕ
coins_of m color = elim (lookup color m) [ none ↦ 0 | some n ↦ n ]

-- The ForEach over the balances of an input, from the current value of `valid`.
unfoldable pub consume_balances : Coins → Coins → Bool → Coins × Bool
unfolding safe_add_uint64
consume_balances [] m valid = (m, valid)
consume_balances ((color, balance) ∷ rest) m valid =
    let (sum, fits) = safe_add_uint64 (coins_of m color) balance in
    elim fits [
      | Bool.true ↦ consume_balances rest (insert color sum m) true
      | Bool.false ↦ (insert color sum m, false)
    ]

-- The loop over the inputs; `none` is a return of false.
unfoldable pub consume_inputs : List Coins → Coins → Bool → Option (Coins × Bool)
consume_inputs [] m valid = some (m, valid)
consume_inputs (input ∷ inputs) m valid =
    let (m', valid') = consume_balances input m valid in
    elim valid' [ Bool.true ↦ consume_inputs inputs m' true | Bool.false ↦ none ]

abbrev pub is_recolored : ℕ → Bool
is_recolored color = color == color_zipp || color == color_mint

-- The ForEach over the balances of an output: the coins left, and the recolored coins.
unfoldable pub produce_balances : Coins → Coins → ℕ → Bool → Coins × ℕ × Bool
unfolding safe_add_uint64 safe_sub_uint64
produce_balances [] m recolored valid = (m, recolored, valid)
produce_balances ((color, balance) ∷ rest) m recolored valid = elim (is_recolored color) [
  | Bool.true ↦
      let (sum, fits) = safe_add_uint64 recolored balance in
      elim fits [ Bool.true ↦ produce_balances rest m sum true | Bool.false ↦ (m, sum, false) ]
  | Bool.false ↦
      let (left, fits) = safe_sub_uint64 (coins_of m color) balance in
      elim fits [
        | Bool.true ↦ produce_balances rest (insert color left m) recolored true
        | Bool.false ↦ (insert color left m, recolored, false)
      ]
]

unfoldable pub produce_outputs : List Coins → Coins → ℕ → Bool → Option (Coins × ℕ)
produce_outputs [] m recolored valid = some (m, recolored)
produce_outputs (output ∷ outputs) m recolored valid =
    let (m', recolored', valid') = produce_balances output m recolored valid in
    elim valid' [ Bool.true ↦ produce_outputs outputs m' recolored' true | Bool.false ↦ none ]

-- The loop over the remaining balances.
unfoldable pub sum_unspent : Coins → ℕ → Option ℕ
unfolding safe_add_uint64
sum_unspent [] unspent = some unspent
sum_unspent ((_, balance) ∷ rest) unspent =
    let (sum, fits) = safe_add_uint64 unspent balance in
    elim fits [ Bool.true ↦ sum_unspent rest sum | Bool.false ↦ none ]

-- What follows the loop over the outputs.
unfoldable pub compare_unspent : Coins → ℕ → Bool
compare_unspent m recolored = elim (sum_unspent m 0) [
  | none ↦ false
  | some unspent ↦ unspent == recolored
]

-- TransactionBalancesValid
unfoldable pub transaction_balances_valid : List Coins → List Coins → Bool
transaction_balances_valid inputs outputs = elim (consume_inputs inputs [] false) [
  | none ↦ false
  | some (m, valid) ↦ elim (produce_outputs outputs m 0 valid) [
    | none ↦ false
    | some (m', recolored) ↦ compare_unspent m' recolored
  ]
]
