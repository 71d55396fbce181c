-- ===== src/Devnetvm/TransactionTests.antt =====
-- A transaction that moves an alias on, and the theorems on unlocking and execution at it.
use zipp.Base.{
  ◌==◌, ℕ, ◌+◌, ◌≡◌, ◌↔◌, refl, List, [], ◌∷◌, none, some, Bool, true, false, ok, panic,
}
use zipp.Base.Assoc.{lookup, insert, delete}
use zipp.Devnetvm.Outputs as Outputs
use zipp.Devnetvm.Outputs.{
  Address, ed25519, alias_address, AliasOutput, Output, alias, sig_locked, Transaction, UnlockBlock,
  signature, reference,
}
use zipp.Devnetvm.Outputs.Equality.{equal_colored_balances_iff}
use zipp.Devnetvm.AliasOutput as Alias
use zipp.Devnetvm.AliasOutput.Unlocking
use zipp.Devnetvm.AliasOutput.Chained.{aliases_at, the_only, find_chained_output_lem}
use zipp.Devnetvm.AliasOutput.Transition.{
  Follows, validate_transition_lem, new_alias_output_next-validates,
}
use zipp.Devnetvm.AliasOutput.Unlock.{IsUnlocked, unlock_valid_lem, unlocked_by_alias_index-panics}
use zipp.Devnetvm.Balances as Balances
use zipp.Devnetvm.Alias as Initial
use zipp.Devnetvm.UnlockGraph as Graph
use zipp.Devnetvm.LockedOutputs as Locked
use zipp.Devnetvm.Execution as Execution
use zipp.Devnetvm.Execution.Sound.{IsExecuted, execute_transaction_lem}

abbrev chain : ℕ → ℕ → AliasOutput
chain id index = record {
  output_id = id;
  balances = (0, 100) ∷ [];
  alias_address = 5;
  state_address = some (ed25519 1);
  state_index = index;
  state_data = 7 ∷ [];
  governance_metadata = [];
  immutable_data = [];
  is_governance_update = false;
  governing_address = none;
  is_origin = false;
  is_delegated = false;
  delegation_timelock = 0;
}

abbrev coins : ℕ → ℕ → Output
coins id owner =
    sig_locked (record { output_id = id; balances = (0, 7) ∷ []; address = ed25519 owner })

abbrev inputs : List Output
inputs = alias (chain 2 3) ∷ coins 4 1 ∷ []

abbrev tx : Transaction
tx = record {
  outputs = alias (chain 0 4) ∷ coins 0 2 ∷ [];
  timestamp = 50;
  essence_bytes = some (9 ∷ []);
}

-- The owner of key 1 signs, and the second unlock block refers to the first.
abbrev signed : Address → List ℕ → Bool
signed (ed25519 k) bytes = k == 1
signed _ bytes = false

abbrev blocks : List UnlockBlock
blocks = signature signed ∷ reference 0 ∷ []

abbrev hash : ℕ → ℕ
hash n = n + 1000

transition_accepted : Alias.validate_transition hash (chain 2 3) (chain 0 4) tx ≡ ok true
unfolding Alias.validate_transition Outputs.get_alias_address
transition_accepted = refl

validate_transition_lem_example : Follows hash (chain 2 3) (chain 0 4) 50
validate_transition_lem_example =
    validate_transition_lem hash (chain 2 3) (chain 0 4) tx transition_accepted

-- The next output in the chain of the alias.
next_made : Alias.new_alias_output_next hash (chain 2 3) false ≡ ok (chain 2 4)
unfolding Alias.new_alias_output_next Alias.check_basic_validity Alias.check_fields
    Alias.is_above_dust_threshold Outputs.get_alias_address lookup
next_made = refl

new_alias_output_next-validates_example :
    Alias.validate_transition hash (chain 2 3) (chain 2 4) tx ≡ ok true
new_alias_output_next-validates_example =
    new_alias_output_next-validates hash (chain 2 3) (chain 2 4) false tx next_made refl

abbrev five : Outputs.Coins
five = (0, 5) ∷ []

abbrev five_and_none : Outputs.Coins
five_and_none = (0, 5) ∷ (3, 0) ∷ []

equal_colored_balances_iff_example :
    (Outputs.equal_colored_balances five five_and_none ≡ true)
    ↔ ((c : ℕ) → lookup c five ≡ lookup c five_and_none)
equal_colored_balances_iff_example = equal_colored_balances_iff five five_and_none

find_chained_output_lem_example :
    Alias.find_chained_output hash (chain 2 3) tx
    ≡ the_only hash (aliases_at hash (Outputs.get_alias_address hash (chain 2 3)) tx.outputs)
find_chained_output_lem_example = find_chained_output_lem hash (chain 2 3) tx

alias_accepted : Unlocking.unlock_valid hash (chain 2 3) tx (signature signed) inputs ≡ ok true
unfolding Unlocking.unlock_valid Outputs.get_alias_address
alias_accepted = refl

unlock_valid_lem_example :
    IsUnlocked hash
      (chain 2 3)
      tx
      inputs
      (signature signed)
      (aliases_at hash (Outputs.get_alias_address hash (chain 2 3)) tx.outputs)
unlock_valid_lem_example =
    unlock_valid_lem hash (chain 2 3) tx (signature signed) inputs alias_accepted

unlocked_by_alias_index-panics_example :
    Unlocking.unlocked_by_alias_index hash (alias_address 5) tx 2 inputs ≡ panic
unlocked_by_alias_index-panics_example = unlocked_by_alias_index-panics hash 5 tx inputs

blocks_accepted : Execution.unlock_blocks_valid hash inputs tx blocks ≡ ok true
unfolding Execution.unlock_blocks_valid Execution.unlock_inputs Graph.check_reference_cycle
    Graph.create Graph.add_blocks Graph.is_cycle_detected Graph.search_from Graph.dfs Graph.mark
    Graph.leave Graph.unset Unlocking.unlock_valid Outputs.get_alias_address lookup insert
    Locked.sig_locked_unlock_valid
blocks_accepted = refl

abbrev outcome : List Output
outcome = alias (chain 20 4) ∷ coins 21 2 ∷ []

executed :
    Execution.execute_transaction hash hash (λ i. 20 + i) tx blocks inputs ≡ ok (some outcome)
unfolding Execution.execute_transaction Execution.unlock_blocks_valid Execution.unlock_inputs
    Graph.check_reference_cycle Graph.create Graph.add_blocks Graph.is_cycle_detected
    Graph.search_from Graph.dfs Graph.mark Graph.leave Graph.unset Unlocking.unlock_valid
    Outputs.get_alias_address lookup insert delete Locked.sig_locked_unlock_valid
    Execution.update_outputs Alias.update_minting_color Alias.check_basic_validity
    Alias.check_fields Alias.is_above_dust_threshold Locked.update_sig_locked
    Balances.transaction_balances_valid Balances.consume_inputs Balances.consume_balances
    Balances.safe_add_uint64 Balances.safe_sub_uint64 Balances.coins_of Balances.produce_outputs
    Balances.produce_balances Balances.compare_unspent Balances.sum_unspent
    Initial.alias_initial_state_valid Initial.output_aliases Initial.input_aliases
    Initial.check_aliases Initial.initial_states
executed = refl

execute_transaction_lem_example : IsExecuted hash tx blocks inputs
execute_transaction_lem_example =
    execute_transaction_lem hash tx blocks inputs hash (λ i. 20 + i) outcome executed
