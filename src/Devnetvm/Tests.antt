-- ===== src/Devnetvm/Tests.antt =====
-- A transaction, and the theorems of the directory at it.
use zipp.Base.{
  u64_mod, Bool, none, ok, some, arith, Returns, ℕ, ◌≤◌, ◌≡◌, refl, List, [], ◌∷◌, true, false, ◌-◌,
  ◌+◌, IsDistinct, All,
}
use zipp.Base.Assoc.{lookup, insert, delete}
use zipp.Devnetvm.Alias
use zipp.Devnetvm.Outputs as Outputs
use zipp.Devnetvm.Outputs.{Address, ed25519, AliasOutput, Output, alias, sig_locked}
use zipp.Devnetvm.Alias.Initial.{
  addresses, IsBacked, alias_initial_state_valid-IsDistinct, alias_initial_state_valid-IsBacked,
}
use zipp.Devnetvm.UnlockGraph as Graph
use zipp.Devnetvm.UnlockGraph.{UnlockGraph}
use zipp.Devnetvm.UnlockGraph.References.{Checked, check_reference_cycle_lem}
use zipp.Devnetvm.UnlockGraph.Cycles.{Answer, is_cycle_detected_lem}
use zipp.Devnetvm.Balances
use zipp.Devnetvm.Balances.{Coins, is_recolored, transaction_balances_valid}
use zipp.Devnetvm.Balances.Consumed.{grand_total, grand_total_in}
use zipp.Devnetvm.Balances.Conserved.{
  transaction_balances_valid-conserves, transaction_balances_valid-mints_none,
}

-- Two inputs with 5 ZIPP, and 3 of color 9.
abbrev inputs : List Coins
inputs = ((0, 5) ∷ []) ∷ ((9, 3) ∷ []) ∷ []

-- One of color 9 goes on, and the rest is 7 ZIPP.
abbrev outputs : List Coins
outputs = ((9, 1) ∷ (0, 4) ∷ []) ∷ ((0, 3) ∷ []) ∷ []

accepted : transaction_balances_valid inputs outputs ≡ true
unfolding transaction_balances_valid Balances.consume_inputs Balances.consume_balances
    Balances.safe_add_uint64 Balances.safe_sub_uint64 Balances.coins_of Balances.produce_outputs
    Balances.produce_balances Balances.compare_unspent Balances.sum_unspent lookup insert
accepted = refl

transaction_balances_valid-conserves_example : grand_total outputs ≡ grand_total inputs
transaction_balances_valid-conserves_example =
    transaction_balances_valid-conserves inputs outputs accepted

transaction_balances_valid-mints_none_example : grand_total_in 9 outputs ≤ grand_total_in 9 inputs
transaction_balances_valid-mints_none_example =
    transaction_balances_valid-mints_none inputs outputs 9 accepted refl

-- An overflow on the input side is refused.
refuses_overflow :
    transaction_balances_valid (((0, u64_mod - 1) ∷ []) ∷ ((0, 1) ∷ []) ∷ []) (((0, 0) ∷ []) ∷ [])
    ≡ false
unfolding transaction_balances_valid Balances.consume_inputs Balances.consume_balances
    Balances.safe_add_uint64 Balances.coins_of lookup insert
refuses_overflow = refl

-- An alias of address 5 goes on, and one is minted, whose address is made from its ID.
abbrev sample : ℕ → ℕ → Bool → ℕ → AliasOutput
sample id address origin index = record {
  output_id = id;
  balances = (0, 100) ∷ [];
  alias_address = address;
  state_address = some (ed25519 1);
  state_index = index;
  state_data = [];
  governance_metadata = [];
  immutable_data = [];
  is_governance_update = false;
  governing_address = none;
  is_origin = origin;
  is_delegated = false;
  delegation_timelock = 0;
}

abbrev plain : Output
plain = sig_locked (record { output_id = 4; balances = (0, 7) ∷ []; address = ed25519 2 })

abbrev alias_inputs : List Output
alias_inputs = alias (sample 2 5 false 3) ∷ plain ∷ []

abbrev alias_outputs : List Output
alias_outputs = alias (sample 8 5 false 4) ∷ alias (sample 9 0 true 0) ∷ []

abbrev hash : ℕ → ℕ
hash n = n + 100

aliases_accepted : Alias.alias_initial_state_valid hash alias_inputs alias_outputs ≡ true
unfolding Alias.alias_initial_state_valid Alias.output_aliases Alias.input_aliases
    Alias.check_aliases Alias.initial_states Outputs.get_alias_address lookup insert delete
aliases_accepted = refl

alias_initial_state_valid-IsDistinct_example : IsDistinct (addresses hash alias_outputs)
alias_initial_state_valid-IsDistinct_example =
    alias_initial_state_valid-IsDistinct hash alias_inputs alias_outputs aliases_accepted

alias_initial_state_valid-IsBacked_example : All (IsBacked hash alias_inputs) alias_outputs
alias_initial_state_valid-IsBacked_example =
    alias_initial_state_valid-IsBacked hash alias_inputs alias_outputs aliases_accepted

-- Three unlock blocks: an alias that refers to the second, which refers to the signature.
abbrev graph : UnlockGraph
graph = record { vertices = 0 ∷ 1 ∷ 2 ∷ []; edges = (0, 1) ∷ (1, 2) ∷ [] }

graph_made : Graph.create (Graph.alias 1 ∷ Graph.alias 2 ∷ Graph.signature ∷ []) ≡ ok (some graph)
unfolding Graph.create Graph.add_blocks insert
graph_made = refl

is_cycle_detected_lem_example :
    Returns (Answer graph.edges graph.vertices) (Graph.is_cycle_detected graph)
unfolding lookup
is_cycle_detected_lem_example =
    is_cycle_detected_lem graph (omega arith, (omega arith, (omega arith, tt)))
      (λ v w e. ground arith)

finds_loop :
    Graph.is_cycle_detected (record { vertices = 0 ∷ 1 ∷ []; edges = (0, 1) ∷ (1, 0) ∷ [] })
    ≡ ok true
unfolding Graph.is_cycle_detected Graph.search_from Graph.dfs Graph.mark Graph.leave Graph.unset
    lookup
finds_loop = refl

check_reference_cycle_lem_example :
    Returns
      (Checked (Graph.alias 1 ∷ Graph.reference 2 ∷ Graph.signature ∷ []))
      (Graph.check_reference_cycle (Graph.alias 1 ∷ Graph.reference 2 ∷ Graph.signature ∷ []))
check_reference_cycle_lem_example =
    check_reference_cycle_lem (Graph.alias 1 ∷ Graph.reference 2 ∷ Graph.signature ∷ [])
      (omega arith, (omega arith, (tt, tt)))
