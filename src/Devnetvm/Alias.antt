-- ===== src/Devnetvm/Alias.antt =====
-- packages/core/ledger/vm/devnetvm/utils.go: AliasInitialStateValid.
pub mod Initial
use zipp.Base.{
  ℕ, List, [], ◌∷◌, Option, none, some, Bool, true, false, ◌==◌, ◌||◌, not, if◌then◌else◌,
}
use zipp.Base.Assoc.{lookup, insert, delete}
use zipp.Devnetvm.Outputs.{AliasOutput, Output, alias, extended, sig_locked, get_alias_address}

module _ (new_alias_address : ℕ → ℕ) where
  -- The loop over the outputs; `none` is a return of false.
  unfoldable pub output_aliases :
      List Output → List (ℕ × AliasOutput) → Option (List (ℕ × AliasOutput))
  output_aliases [] m = some m
  output_aliases (extended _ ∷ outputs) m = output_aliases outputs m
  output_aliases (sig_locked _ ∷ outputs) m = output_aliases outputs m
  output_aliases (alias a ∷ outputs) m = elim (lookup (get_alias_address new_alias_address a) m) [
    | some _ ↦ none
    | none ↦ output_aliases outputs (insert (get_alias_address new_alias_address a) a m)
  ]

  -- The loop over the inputs, into a set of addresses.
  unfoldable pub input_aliases : List Output → List (ℕ × Bool) → Option (List (ℕ × Bool))
  input_aliases [] m = some m
  input_aliases (extended _ ∷ inputs) m = input_aliases inputs m
  input_aliases (sig_locked _ ∷ inputs) m = input_aliases inputs m
  input_aliases (alias a ∷ inputs) m = elim (lookup (get_alias_address new_alias_address a) m) [
    | some _ ↦ none
    | none ↦ input_aliases inputs (insert (get_alias_address new_alias_address a) true m)
  ]

  -- The loop over the aliases of the output side.
  unfoldable pub initial_states : List (ℕ × AliasOutput) → List (ℕ × Bool) → Bool
  initial_states [] inputs = true
  initial_states ((address, output) ∷ rest) inputs = elim (lookup address inputs) [
    | some _ ↦ initial_states rest (delete address inputs)
    | none ↦
        elim (not output.is_origin
          || not (output.alias_address == 0)
          || not (output.state_index == 0)) [
            | Bool.true ↦ false
            | Bool.false ↦ initial_states rest inputs
          ]
  ]

  -- What follows the loop over the outputs.
  unfoldable pub check_aliases : List (ℕ × AliasOutput) → List Output → Bool
  check_aliases [] inputs = true
  check_aliases (entry ∷ outputs) inputs = elim (input_aliases inputs []) [
    | none ↦ false
    | some aliases ↦ initial_states (entry ∷ outputs) aliases
  ]

  -- AliasInitialStateValid
  unfoldable pub alias_initial_state_valid : List Output → List Output → Bool
  alias_initial_state_valid inputs outputs = elim (output_aliases outputs []) [
    | none ↦ false
    | some aliases ↦ check_aliases aliases inputs
  ]
