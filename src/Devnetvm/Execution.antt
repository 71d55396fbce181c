-- ===== src/Devnetvm/Execution.antt =====
-- packages/core/ledger/vm/devnetvm: UnlockBlocksValid of utils.go and executeTransaction of vm.go,
-- which puts the checks together.
pub mod Sound
use zipp.Base.{
  ℕ, zero, suc, List, [], ◌∷◌, map, Option, none, some, Bool, true, false, get_elem?, Result, ok,
  panic, ◌>>=◌, deref, if◌then◌else◌,
}
use zipp.Devnetvm.Outputs.{
  Coins, AliasOutput, Output, alias, extended, sig_locked, Transaction, UnlockBlock, signature,
  alias_unlock, reference,
}
use zipp.Devnetvm.AliasOutput.{update_minting_color}
use zipp.Devnetvm.AliasOutput.Unlocking.{unlock_valid}
use zipp.Devnetvm.LockedOutputs.{
  extended_unlock_valid, sig_locked_unlock_valid, update_extended, update_sig_locked,
}
use zipp.Devnetvm.UnlockGraph as Graph
use zipp.Devnetvm.UnlockGraph.{check_reference_cycle}
use zipp.Devnetvm.Balances.{transaction_balances_valid, color_mint}
use zipp.Devnetvm.Alias.{alias_initial_state_valid}

-- What the unlock graph sees of an unlock block.
abbrev pub kind : UnlockBlock → Graph.UnlockBlock
kind (signature _) = Graph.signature
kind (alias_unlock i) = Graph.alias i
kind (reference i) = Graph.reference i

abbrev pub balances_of : Output → Coins
balances_of (alias a) = a.balances
balances_of (extended o) = o.balances
balances_of (sig_locked o) = o.balances

module _ (new_alias_address : ℕ → ℕ) where
  -- UnlockValid of an output
  unfoldable pub output_unlock_valid :
      Output → Transaction → UnlockBlock → List Output → Result Bool
  output_unlock_valid (alias a) tx block inputs = unlock_valid new_alias_address a tx block inputs
  output_unlock_valid (extended o) tx block inputs =
      extended_unlock_valid new_alias_address o tx block inputs
  output_unlock_valid (sig_locked o) tx block inputs =
      sig_locked_unlock_valid new_alias_address o tx block inputs

  -- The unlock block of an input: a reference is followed once.
  unfoldable pub unlock_block_of : List UnlockBlock → ℕ → Result UnlockBlock
  unlock_block_of blocks i = do
    block ← deref (get_elem? blocks i)
    elim block [ reference j ↦ deref (get_elem? blocks j) | other ↦ ok other ]

  -- The loop over the inputs, from index `i`.
  unfoldable pub unlock_inputs :
      List UnlockBlock → Transaction → List Output → ℕ → List Output → Result Bool
  unfolding output_unlock_valid unlock_block_of
  unlock_inputs blocks tx inputs i [] = ok true
  unlock_inputs blocks tx inputs i (input ∷ rest) = do
    block ← unlock_block_of blocks i
    unlocked ← output_unlock_valid input tx block inputs
    elim unlocked [
      | Bool.true ↦ unlock_inputs blocks tx inputs (suc i) rest
      | Bool.false ↦ ok false
    ]

  -- UnlockBlocksValidWithError: true for (true, nil).
  unfoldable pub unlock_blocks_valid : List Output → Transaction → List UnlockBlock → Result Bool
  unlock_blocks_valid inputs tx blocks = do
    cycle ← check_reference_cycle (map kind blocks)
    elim cycle [
      | none ↦ ok false
      | some true ↦ ok false
      | some false ↦ unlock_inputs blocks tx inputs 0 inputs
    ]

  -- SetID and UpdateMintingColor of an output.
  unfoldable pub update_output : (ℕ → ℕ) → ℕ → Output → Result Output
  update_output new_color id (alias a) = do
    b ← update_minting_color new_alias_address new_color color_mint (record a { output_id = id })
    ok (alias b)
  update_output new_color id (extended o) = do
    p ← update_extended new_color color_mint (record o { output_id = id })
    ok (extended p)
  update_output new_color id (sig_locked o) =
      ok (sig_locked (update_sig_locked new_color color_mint (record o { output_id = id })))

  -- The loop of executeTransaction; NewOutputID of the transaction's ID and an index is a parameter.
  unfoldable pub update_outputs : (ℕ → ℕ) → (ℕ → ℕ) → ℕ → List Output → Result (List Output)
  unfolding update_output
  update_outputs new_color new_output_id i [] = ok []
  update_outputs new_color new_output_id i (o ∷ rest) = do
    p ← update_output new_color (new_output_id i) o
    l ← update_outputs new_color new_output_id (suc i) rest
    ok (p ∷ l)

  -- executeTransaction; `none` is ErrTransactionInvalid.
  unfoldable pub execute_transaction :
      (ℕ → ℕ)
      → (ℕ → ℕ)
      → Transaction
      → List UnlockBlock
      → List Output
      → Result (Option (List Output))
  unfolding unlock_blocks_valid update_outputs
  execute_transaction new_color new_output_id tx blocks inputs =
      if transaction_balances_valid (map balances_of inputs) (map balances_of tx.outputs)
      then (do
        unlocked ← unlock_blocks_valid inputs tx blocks
        if unlocked
            then (if alias_initial_state_valid new_alias_address inputs tx.outputs
                then (do
                  outputs ← update_outputs new_color new_output_id 0 tx.outputs
                  ok (some outputs))
                else ok none)
            else ok none)
      else ok none
