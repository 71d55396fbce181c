-- ===== src/Devnetvm/AliasOutput/Chained.antt =====
-- findChainedOutputAndCheckFork against the list of all matching outputs.
use zipp.Base.{ℕ, ◌≡◌, refl, List, [], ◌∷◌, Option, none, some, ◌==◌, if◌then◌else◌, arith}
use zipp.Devnetvm.Outputs.{
  AliasOutput, Output, alias, extended, sig_locked, Transaction, get_alias_address,
}
use zipp.Devnetvm.AliasOutput.{find_from, find_chained_output}

module _ (hash : ℕ → ℕ) where
  -- The aliases of an address among some outputs, in order.
  abbrev pub aliases_at : ℕ → List Output → List AliasOutput
  aliases_at address [] = []
  aliases_at address (extended _ ∷ l) = aliases_at address l
  aliases_at address (sig_locked _ ∷ l) = aliases_at address l
  aliases_at address (alias a ∷ l) =
      if address == get_alias_address hash a then a ∷ aliases_at address l else aliases_at address l

  -- At most one of a list; `none` for more.
  abbrev pub the_only : List AliasOutput → Option (Option AliasOutput)
  the_only [] = some none
  the_only (a ∷ []) = some (some a)
  the_only (a ∷ b ∷ l) = none

  abbrev after : Option AliasOutput → List AliasOutput → List AliasOutput
  after none l = l
  after (some a) l = a ∷ l

  find_from_lem :
      (address : ℕ) (l : List Output) (ret : Option AliasOutput)
      → find_from hash address l ret ≡ the_only (after ret (aliases_at address l))
  unfolding find_from
  find_from_lem address [] none = refl
  find_from_lem address [] (some a) = refl
  find_from_lem address (extended _ ∷ l) ret = find_from_lem address l ret
  find_from_lem address (sig_locked _ ∷ l) ret = find_from_lem address l ret
  find_from_lem address (alias a ∷ l) none =
      ground (arith, find_from_lem address l (some a), find_from_lem address l none)
  find_from_lem address (alias a ∷ l) (some b) = ground (arith, find_from_lem address l (some b))

  -- findChainedOutputAndCheckFork finds nothing if no alias output of the transaction has the
  -- alias's address, the output if there is one, and returns an error if there are more.
  pub find_chained_output_lem :
      (a : AliasOutput) (tx : Transaction)
      → find_chained_output hash a tx ≡ the_only (aliases_at (get_alias_address hash a) tx.outputs)
  unfolding find_chained_output
  find_chained_output_lem a tx = find_from_lem (get_alias_address hash a) tx.outputs none
