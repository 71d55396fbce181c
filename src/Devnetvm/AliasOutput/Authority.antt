-- ===== src/Devnetvm/AliasOutput/Authority.antt =====
-- What an unlock block has to show for an address: a signature of the transaction by it, or an alias
-- among the inputs that has the address and is spent by a state update.
use mathlib.Core.Path.{subst}
use zipp.Base.{
  ℕ, ◌≡◌, refl, inl, inr, List, [], ◌∷◌, Option, some, Bool, true, false, get_elem?, arith, ok,
  Option-cases,
}
use zipp.Devnetvm.Outputs.{
  Address, ed25519, bls, alias_address, AliasOutput, Output, alias, extended, sig_locked,
  Transaction, UnlockBlock, signature, alias_unlock, reference, get_alias_address,
}
use zipp.Devnetvm.AliasOutput.{find_chained_output}
use zipp.Devnetvm.AliasOutput.Chained.{aliases_at, the_only, find_chained_output_lem}
use zipp.Devnetvm.AliasOutput.Unlocking.{
  has_to_be_unlocked_for_governance_update, unlocked_by_alias_index, signed_by,
}

-- Among the outputs of an alias's address, there is no governance update and not none at all. (Two
-- outputs are refused when that alias itself is unlocked.)
abbrev pub IsStateUpdate : List AliasOutput → Type 0
IsStateUpdate [] = ⊥
IsStateUpdate (c ∷ []) = c.is_governance_update ≡ false
IsStateUpdate (c ∷ d ∷ l) = Unit

module _ (hash : ℕ → ℕ) (tx : Transaction) (inputs : List Output) where
  -- The address is that of the alias at the index of the inputs, which a state update spends.
  pub record IsReferred (addr : Address) (index : ℕ) : Type 0 where
    pub digest : ℕ
    pub is_alias : addr ≡ alias_address digest
    pub ref : AliasOutput
    pub input : get_elem? inputs index ≡ some (alias ref)
    pub same : get_alias_address hash ref ≡ digest
    pub state_update : IsStateUpdate (aliases_at hash digest tx.outputs)

  pub record IsSigned (addr : Address) (valid : Address → List ℕ → Bool) : Type 0 where
    pub bytes : List ℕ
    pub essence : tx.essence_bytes ≡ some bytes
    pub verified : valid addr bytes ≡ true

  -- The unlock block authorizes the use of an address.
  abbrev pub IsGranted : UnlockBlock → Address → Type 0
  IsGranted (signature valid) addr = IsSigned addr valid
  IsGranted (alias_unlock index) addr = IsReferred addr index
  IsGranted (reference _) addr = ⊥

  only-IsStateUpdate :
      (ref : AliasOutput) (l : List AliasOutput)
      → find_chained_output hash ref tx ≡ the_only hash l
      → has_to_be_unlocked_for_governance_update hash ref tx ≡ false
      → IsStateUpdate l
  unfolding has_to_be_unlocked_for_governance_update
  only-IsStateUpdate ref [] e h = ground arith
  only-IsStateUpdate ref (c ∷ []) e h = ground arith
  only-IsStateUpdate ref (c ∷ d ∷ l) e h = tt

  pub refer :
      (d i : ℕ) (ref : AliasOutput)
      → get_elem? inputs i ≡ some (alias ref)
      → get_alias_address hash ref ≡ d
      → has_to_be_unlocked_for_governance_update hash ref tx ≡ false
      → IsReferred (alias_address d) i
  refer d i ref e same h = record {
    digest = d;
    is_alias = refl;
    ref = ref;
    input = e;
    same = same;
    state_update =
        subst (λ x. IsStateUpdate (aliases_at hash x tx.outputs)) same
          (only-IsStateUpdate ref (aliases_at hash (get_alias_address hash ref) tx.outputs)
            (find_chained_output_lem hash ref tx) h);
  }

  pub signed_by_lem :
      (valid : Address → List ℕ → Bool) (needed : Option Address)
      → signed_by hash valid needed tx ≡ ok true
      → (addr : Address) × (needed ≡ some addr) × IsSigned addr valid
  unfolding signed_by
  signed_by_lem valid needed h = elim (Option-cases tx.essence_bytes) [
    | inl n ↦ ground arith
    | inr (bytes, b) ↦ elim (Option-cases needed) [
      | inl n ↦ ground arith
      | inr (addr, e) ↦ (addr, e, record { bytes = bytes; essence = b; verified = ground arith })
    ]
  ]

  pub unlocked_by_alias_index_lem :
      (addr : Address) (i : ℕ)
      → unlocked_by_alias_index hash addr tx i inputs ≡ ok true
      → IsReferred addr i
  unfolding unlocked_by_alias_index
  unlocked_by_alias_index_lem (ed25519 d) i h = ground arith
  unlocked_by_alias_index_lem (bls d) i h = ground arith
  unlocked_by_alias_index_lem (alias_address d) i h = elim (Option-cases (get_elem? inputs i)) [
    | inl n ↦ ground arith
    | inr (extended o, e) ↦ ground arith
    | inr (sig_locked o, e) ↦ ground arith
    | inr (alias ref, e) ↦ refer d i ref e (ground arith) (ground arith)
  ]
