-- ===== src/Devnetvm/LockedOutputs.antt =====
-- packages/core/ledger/vm/devnetvm/output.go: ExtendedLockedOutput, SigLockedSingleOutput and
-- SigLockedColoredOutput. The latter two are unlocked alike, and are one type.
use zipp.Base.{
  ℕ, List, [], Option, none, some, Bool, false, length, get_elem?, ltb, ◌==◌, ◌+◌, not,
  if◌then◌else◌, is_some, Result, ok, ◌>>=◌, deref,
}
use zipp.Base.Assoc.{lookup, insert, delete}
use zipp.Devnetvm.Outputs.{
  Address, ed25519, bls, alias_address, Coins, ExtendedLockedOutput, SigLockedOutput, Output, alias,
  Transaction, UnlockBlock, signature, alias_unlock, reference, get_alias_address,
  max_output_payload_size,
}
use zipp.Devnetvm.AliasOutput.Unlocking.{has_to_be_unlocked_for_governance_update}

-- NewExtendedLockedOutput
unfoldable pub new_extended_locked_output : Coins → Address → ExtendedLockedOutput
new_extended_locked_output balances address = record {
  output_id = 0;
  balances = balances;
  address = address;
  fallback_address = none;
  fallback_deadline = 0;
  timelock = 0;
  payload = [];
}

unfoldable pub with_fallback_options :
    ExtendedLockedOutput → Option Address → ℕ → ExtendedLockedOutput
with_fallback_options o addr deadline = record o {
  fallback_address = addr;
  fallback_deadline = deadline;
}

unfoldable pub with_time_lock : ExtendedLockedOutput → ℕ → ExtendedLockedOutput
with_time_lock o timelock = record o { timelock = timelock }

unfoldable pub set_payload : ExtendedLockedOutput → List ℕ → Option ExtendedLockedOutput
set_payload o bytes =
    if ltb max_output_payload_size (length bytes) then none else some (record o { payload = bytes })

-- compressFlags, with bits 0, 1 and 2.
unfoldable pub compress_flags : ExtendedLockedOutput → ℕ
compress_flags o =
    (if is_some o.fallback_address then 1 else 0)
    + (if o.timelock == 0 then 0 else 2)
    + (if ltb 0 (length o.payload) then 4 else 0)

unfoldable pub time_locked_now : ExtendedLockedOutput → ℕ → Bool
time_locked_now o now = ltb now o.timelock

unfoldable pub unlock_address_now : ExtendedLockedOutput → ℕ → Address
unlock_address_now o now = elim o.fallback_address [
  | none ↦ o.address
  | some fallback ↦ if ltb o.fallback_deadline now then fallback else o.address
]

-- The minted coins take the color of the output.
unfoldable pub recolor : (ℕ → ℕ) → ℕ → ℕ → Coins → Coins
recolor new_color color_mint id balances = elim (lookup color_mint balances) [
  | none ↦ balances
  | some minted ↦ insert (new_color id) minted (delete color_mint balances)
]

-- UpdateMintingColor of an ExtendedLockedOutput; a payload that is too big is a panic.
unfoldable pub update_extended : (ℕ → ℕ) → ℕ → ExtendedLockedOutput → Result ExtendedLockedOutput
unfolding recolor new_extended_locked_output with_fallback_options with_time_lock set_payload
update_extended new_color color_mint o = do
  let updated : ExtendedLockedOutput =
      with_time_lock
        (with_fallback_options
          (new_extended_locked_output (recolor new_color color_mint o.output_id o.balances)
            o.address)
          o.fallback_address o.fallback_deadline)
        o.timelock
  filled ← deref (set_payload updated o.payload)
  ok (record filled { output_id = o.output_id })

-- UpdateMintingColor of the others; a SigLockedSingleOutput holds no minted coins.
unfoldable pub update_sig_locked : (ℕ → ℕ) → ℕ → SigLockedOutput → SigLockedOutput
unfolding recolor
update_sig_locked new_color color_mint o = record o {
  balances = recolor new_color color_mint o.output_id o.balances;
}

module _ (new_alias_address : ℕ → ℕ) where
  -- The unlock by reference to an alias.
  unfoldable pub alias_unlocks : Address → Transaction → ℕ → List Output → Result Bool
  alias_unlocks (ed25519 _) tx index inputs = ok false
  alias_unlocks (bls _) tx index inputs = ok false
  alias_unlocks (alias_address addr) tx index inputs = do
    input ← deref (get_elem? inputs index)
    elim input [
      | alias ref ↦ ok (
          if addr == get_alias_address new_alias_address ref
          then not (has_to_be_unlocked_for_governance_update new_alias_address ref tx)
          else false)
      | _ ↦ ok false
    ]

  -- The unlock of an address.
  unfoldable pub address_unlocks : Address → Transaction → UnlockBlock → List Output → Result Bool
  unfolding alias_unlocks
  address_unlocks addr tx (signature valid) inputs = elim tx.essence_bytes [
    | none ↦ ok false
    | some bytes ↦ ok (valid addr bytes)
  ]
  address_unlocks addr tx (alias_unlock index) inputs = alias_unlocks addr tx index inputs
  address_unlocks addr tx (reference _) inputs = ok false

  -- UnlockValid of an ExtendedLockedOutput
  unfoldable pub extended_unlock_valid :
      ExtendedLockedOutput → Transaction → UnlockBlock → List Output → Result Bool
  unfolding time_locked_now unlock_address_now address_unlocks
  extended_unlock_valid o tx block inputs =
      if time_locked_now o tx.timestamp
      then ok false
      else address_unlocks (unlock_address_now o tx.timestamp) tx block inputs

  -- UnlockValid of a SigLockedSingleOutput or a SigLockedColoredOutput
  unfoldable pub sig_locked_unlock_valid :
      SigLockedOutput → Transaction → UnlockBlock → List Output → Result Bool
  unfolding address_unlocks
  sig_locked_unlock_valid o tx block inputs = address_unlocks o.address tx block inputs
