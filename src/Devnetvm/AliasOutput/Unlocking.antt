-- ===== src/Devnetvm/AliasOutput/Unlocking.antt =====
-- packages/core/ledger/vm/devnetvm/output.go: the unlocking of an alias, by a signature or by another
-- alias, and its end. A panic is a nil pointer or an index out of range.
use zipp.Base.{
  ℕ, List, Option, none, some, Bool, true, false, length, get_elem?, ltb, ◌==◌, ◌&&◌, not,
  if◌then◌else◌, Result, ok, ◌>>=◌, deref,
}
use zipp.Devnetvm.Outputs.{
  Address, ed25519, bls, alias_address, AliasOutput, Output, alias, Transaction, UnlockBlock,
  signature, alias_unlock, reference, get_alias_address,
}
use zipp.Devnetvm.AliasOutput.{
  is_exact_dust_minimum, get_governing_address, delegation_time_locked_now, find_chained_output,
  validate_transition,
}

module _ (new_alias_address : ℕ → ℕ) where
  -- validateDestroyTransitionNow
  unfoldable pub validate_destroy_transition_now : AliasOutput → ℕ → Bool
  validate_destroy_transition_now a now =
      if not a.is_delegated && not (is_exact_dust_minimum a.balances)
      then false
      else not (a.is_delegated && delegation_time_locked_now a now)

  -- hasToBeUnlockedForGovernanceUpdate
  unfoldable pub has_to_be_unlocked_for_governance_update : AliasOutput → Transaction → Bool
  unfolding find_chained_output
  has_to_be_unlocked_for_governance_update a tx =
      elim (find_chained_output new_alias_address a tx) [
        | none ↦ false
        | some none ↦ true
        | some (some chained) ↦ chained.is_governance_update
      ]

  -- unlockedGovernanceTransitionByAliasIndex and unlockedStateTransitionByAliasIndex, of the
  -- governing address and of the state address.
  unfoldable pub unlocked_by_alias_index : Address → Transaction → ℕ → List Output → Result Bool
  unfolding has_to_be_unlocked_for_governance_update
  unlocked_by_alias_index (ed25519 _) tx ref_index inputs = ok false
  unlocked_by_alias_index (bls _) tx ref_index inputs = ok false
  unlocked_by_alias_index (alias_address addr) tx ref_index inputs =
      if ltb (length inputs) ref_index then ok false else (do
        input ← deref (get_elem? inputs ref_index)
        elim input [
          | alias ref_input ↦ ok (
              if get_alias_address new_alias_address ref_input == addr
              then not (has_to_be_unlocked_for_governance_update ref_input tx)
              else false)
          | _ ↦ ok false
        ])

  -- The unlock of an alias by a signature that `address` has to verify.
  unfoldable pub signed_by : (Address → List ℕ → Bool) → Option Address → Transaction → Result Bool
  signed_by valid address tx = elim tx.essence_bytes [
    | none ↦ ok false
    | some bytes ↦ do addr ← deref address; ok (valid addr bytes)
  ]

  -- UnlockValid by a SignatureUnlockBlock
  unfoldable pub unlock_by_signature :
      AliasOutput → Option AliasOutput → (Address → List ℕ → Bool) → Transaction → Result Bool
  unfolding signed_by validate_transition validate_destroy_transition_now
  unlock_by_signature a none valid tx = do
    signed ← signed_by valid (get_governing_address a) tx
    ok (if signed then validate_destroy_transition_now a tx.timestamp else false)
  unlock_by_signature a (some chained) valid tx = do
    signed ←
        signed_by valid
          (if chained.is_governance_update then get_governing_address a else a.state_address) tx
    if signed then validate_transition new_alias_address a chained tx else ok false

  -- UnlockValid by an AliasUnlockBlock
  unfoldable pub unlock_by_alias :
      AliasOutput → Option AliasOutput → ℕ → Transaction → List Output → Result Bool
  unfolding unlocked_by_alias_index validate_transition validate_destroy_transition_now
  unlock_by_alias a none ref_index tx inputs = do
    governing ← deref (get_governing_address a)
    unlocked ← unlocked_by_alias_index governing tx ref_index inputs
    ok (if unlocked then validate_destroy_transition_now a tx.timestamp else false)
  unlock_by_alias a (some chained) ref_index tx inputs = do
    address ←
        deref (if chained.is_governance_update then get_governing_address a else a.state_address)
    unlocked ← unlocked_by_alias_index address tx ref_index inputs
    if unlocked then validate_transition new_alias_address a chained tx else ok false

  -- UnlockValid
  unfoldable pub unlock_valid : AliasOutput → Transaction → UnlockBlock → List Output → Result Bool
  unfolding find_chained_output unlock_by_signature unlock_by_alias
  unlock_valid a tx unlock_block inputs = elim (find_chained_output new_alias_address a tx) [
    | none ↦ ok false
    | some chained ↦ elim unlock_block [
      | signature valid ↦ unlock_by_signature a chained valid tx
      | alias_unlock ref_index ↦ unlock_by_alias a chained ref_index tx inputs
      | reference _ ↦ ok false
    ]
  ]
