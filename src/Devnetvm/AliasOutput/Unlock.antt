-- ===== src/Devnetvm/AliasOutput/Unlock.antt =====
-- UnlockValid of an alias: what an accepted unlock guarantees, and where it panics.
use zipp.Base.{
  ℕ, ◌≡◌, inl, inr, List, [], ◌∷◌, none, some, Bool, true, false, length, get_elem?, arith,
  Option-cases, Option, if◌then◌else◌, deref, ◌>>=◌, ok, panic, lt-get_elem?,
}
use zipp.Devnetvm.Outputs.{
  Address, alias_address, AliasOutput, Output, Transaction, UnlockBlock, signature, alias_unlock,
  reference, get_alias_address,
}
use zipp.Devnetvm.AliasOutput.{
  is_exact_dust_minimum, delegation_time_locked_now, get_governing_address, find_chained_output,
}
use zipp.Devnetvm.AliasOutput.Unlocking.{
  validate_destroy_transition_now, unlocked_by_alias_index, unlock_by_signature, unlock_by_alias,
  unlock_valid, signed_by,
}
use zipp.Devnetvm.AliasOutput.Authority.{IsGranted, signed_by_lem, unlocked_by_alias_index_lem}
use zipp.Devnetvm.AliasOutput.Chained.{aliases_at, the_only, find_chained_output_lem}
use zipp.Devnetvm.AliasOutput.Transition.{Follows, validate_transition_lem}

-- What is checked of an alias that is destroyed.
pub record MayEnd (a : AliasOutput) (now : ℕ) : Type 0 where
  pub small : a.is_delegated ≡ false → is_exact_dust_minimum a.balances ≡ true
  pub unlocked : delegation_time_locked_now a now ≡ false

module _ (hash : ℕ → ℕ) where
  -- The fate of an alias in a transaction: at most one output of it, which follows it, or none, and
  -- it may end.
  abbrev pub Fate : AliasOutput → Transaction → List AliasOutput → Type 0
  Fate a tx [] = MayEnd a tx.timestamp
  Fate a tx (c ∷ []) = Follows hash a c tx.timestamp
  Fate a tx (c ∷ d ∷ l) = ⊥

  destroy_lem :
      (a : AliasOutput) (now : ℕ) → validate_destroy_transition_now hash a now ≡ true → MayEnd a now
  unfolding validate_destroy_transition_now
  destroy_lem a now h = record { small = λ e. ground arith; unlocked = ground arith }

  -- The address that has to be shown: the governing one for a governance update and for the end, and
  -- the state address for a state update.
  abbrev pub needed : AliasOutput → List AliasOutput → Option Address
  needed a [] = get_governing_address a
  needed a (c ∷ []) = if c.is_governance_update then get_governing_address a else a.state_address
  needed a (c ∷ d ∷ l) = none

  -- An accepted unlock: what becomes of the alias, and who allowed it.
  pub record IsUnlocked (a : AliasOutput) (tx : Transaction) (inputs : List Output)
      (block : UnlockBlock) (l : List AliasOutput) : Type 0 where
    pub fate : Fate a tx l
    pub address : Address
    pub is_needed : needed a l ≡ some address
    pub granted : IsGranted hash tx inputs block address

  by_signature :
      (a : AliasOutput) (valid : Address → List ℕ → Bool) (tx : Transaction) (inputs : List Output)
      (l : List AliasOutput)
      → Fate a tx l
      → signed_by hash valid (needed a l) tx ≡ ok true
      → IsUnlocked a tx inputs (signature valid) l
  by_signature a valid tx inputs l f h =
      let (address, e, g) = signed_by_lem hash tx inputs valid (needed a l) h in
      record { fate = f; address = address; is_needed = e; granted = g }

  by_alias :
      (a : AliasOutput) (i : ℕ) (tx : Transaction) (inputs : List Output) (l : List AliasOutput)
      → Fate a tx l
      → (deref (needed a l) >>= (λ address. unlocked_by_alias_index hash address tx i inputs))
        ≡ ok true
      → IsUnlocked a tx inputs (alias_unlock i) l
  by_alias a i tx inputs l f h = elim (Option-cases (needed a l)) [
    | inl n ↦ ground arith
    | inr (address, e) ↦ record {
      fate = f;
      address = address;
      is_needed = e;
      granted = unlocked_by_alias_index_lem hash tx inputs address i (ground arith);
    }
  ]

  unlocked :
      (a : AliasOutput) (tx : Transaction) (block : UnlockBlock) (inputs : List Output)
      (l : List AliasOutput)
      → find_chained_output hash a tx ≡ the_only hash l
      → unlock_valid hash a tx block inputs ≡ ok true
      → IsUnlocked a tx inputs block l
  unfolding unlock_valid unlock_by_signature unlock_by_alias
  unlocked a tx (signature valid) inputs [] e h =
      by_signature a valid tx inputs [] (destroy_lem a tx.timestamp (ground arith)) (ground arith)
  unlocked a tx (signature valid) inputs (c ∷ []) e h =
      by_signature a valid tx inputs (c ∷ []) (validate_transition_lem hash a c tx (ground arith))
        (ground arith)
  unlocked a tx (signature valid) inputs (c ∷ d ∷ l) e h = ground arith
  unlocked a tx (alias_unlock i) inputs [] e h =
      by_alias a i tx inputs [] (destroy_lem a tx.timestamp (ground arith)) (ground arith)
  unlocked a tx (alias_unlock i) inputs (c ∷ []) e h =
      by_alias a i tx inputs (c ∷ []) (validate_transition_lem hash a c tx (ground arith))
        (ground arith)
  unlocked a tx (alias_unlock i) inputs (c ∷ d ∷ l) e h = ground arith
  unlocked a tx (reference i) inputs [] e h = ground arith
  unlocked a tx (reference i) inputs (c ∷ []) e h = ground arith
  unlocked a tx (reference i) inputs (c ∷ d ∷ l) e h = ground arith

  -- If UnlockValid accepts an alias, by whatever unlock block, then the transaction has at most one
  -- output of its address. If it has one, then the output follows the alias, as validateTransition
  -- asks of a governance update or of a state update; if it has none, then the alias holds just the
  -- dust minimum or is delegated, and no delegation timelock is active. The unlock block is a
  -- signature of the transaction by the address that is needed, or refers to an input that is the
  -- alias of that address and whose only output in the transaction, unless there are several, is a
  -- state update; needed is the state address for a state update, and the governing address for a
  -- governance update and for the end of the alias.
  pub unlock_valid_lem :
      (a : AliasOutput) (tx : Transaction) (block : UnlockBlock) (inputs : List Output)
      → unlock_valid hash a tx block inputs ≡ ok true
      → IsUnlocked a tx inputs block (aliases_at hash (get_alias_address hash a) tx.outputs)
  unlock_valid_lem a tx block inputs h =
      unlocked a tx block inputs (aliases_at hash (get_alias_address hash a) tx.outputs)
        (find_chained_output_lem hash a tx) h

  -- With an alias address and an index one past the last input,
  -- unlockedGovernanceTransitionByAliasIndex and unlockedStateTransitionByAliasIndex pass the
  -- check of the index and panic at the access.
  pub unlocked_by_alias_index-panics :
      (addr : ℕ) (tx : Transaction) (inputs : List Output)
      → unlocked_by_alias_index hash (alias_address addr) tx (length inputs) inputs ≡ panic
  unfolding unlocked_by_alias_index
  unlocked_by_alias_index-panics addr tx inputs =
      elim (Option-cases (get_elem? inputs (length inputs))) [
        | inl n ↦ ground arith
        | inr (o, e) ↦ absurd (omega (arith, lt-get_elem? inputs (length inputs) o e))
      ]
