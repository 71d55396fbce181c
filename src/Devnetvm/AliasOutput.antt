-- ===== src/Devnetvm/AliasOutput.antt =====
-- packages/core/ledger/vm/devnetvm/output.go: AliasOutput and the transitions of an alias chain. A check returns true for a nil error; a panic is a nil pointer, an index
-- out of range or an assertion that fails.
pub mod Chained
pub mod Transition
pub mod Unlock
pub mod Unlocking
pub mod Authority
use zipp.Base.{
  ℕ, suc, ◌+◌, ◌^◌, ◌%◌, ◌*◌, List, [], ◌∷◌, ◌++◌, Option, none, some, Bool, true, false, length,
  get_elem?, ltb, leb, ◌==◌, ◌&&◌, ◌||◌, not, if◌then◌else◌, Result, ok, panic, ◌>>=◌, deref,
  is_some, bool_eq,
}
use zipp.Base.Assoc.{lookup, delete, insert}
use zipp.Devnetvm.Outputs.{
  Address, ed25519, bls, alias_address, address_eq, bytes_eq, Coins, AliasOutput, Output, alias,
  extended, sig_locked, Transaction, UnlockBlock, signature, alias_unlock, reference,
  get_alias_address, dust_threshold_alias_output_zipp, max_output_payload_size,
  equal_colored_balances,
}

-- IsAboveDustThreshold
unfoldable pub is_above_dust_threshold : Coins → Bool
is_above_dust_threshold m = elim (lookup 0 m) [
  | none ↦ false
  | some zipps ↦ leb dust_threshold_alias_output_zipp zipps
]

-- IsExactDustMinimum
unfoldable pub is_exact_dust_minimum : Coins → Bool
is_exact_dust_minimum b =
    (length b == 1)
    && elim (lookup 0 b) [ none ↦ false | some bal ↦ bal == dust_threshold_alias_output_zipp ]

abbrev pub is_self_governed : AliasOutput → Bool
is_self_governed a = not (is_some a.governing_address)

-- GetGoverningAddress
abbrev pub get_governing_address : AliasOutput → Option Address
get_governing_address a = elim a.governing_address [ none ↦ a.state_address | some g ↦ some g ]

-- SetGoverningAddress: an address equal to the state address is left out.
unfoldable pub set_governing_address : AliasOutput → Option Address → Result AliasOutput
set_governing_address a none = ok (record a { governing_address = none })
set_governing_address a (some addr) = do
  state ← deref a.state_address
  ok (record a { governing_address = if address_eq addr state then none else some addr })

unfoldable pub set_balances : AliasOutput → Coins → Option AliasOutput
set_balances a balances =
    if is_above_dust_threshold balances then some (record a { balances = balances }) else none

unfoldable pub set_state_data : AliasOutput → List ℕ → Option AliasOutput
set_state_data a bytes =
    if ltb max_output_payload_size (length bytes)
    then none
    else some (record a { state_data = bytes })

unfoldable pub set_governance_metadata : AliasOutput → List ℕ → Option AliasOutput
set_governance_metadata a bytes =
    if ltb max_output_payload_size (length bytes)
    then none
    else some (record a { governance_metadata = bytes })

unfoldable pub set_immutable_data : AliasOutput → List ℕ → Option AliasOutput
set_immutable_data a bytes =
    if ltb max_output_payload_size (length bytes)
    then none
    else some (record a { immutable_data = bytes })

unfoldable pub set_delegation_timelock : AliasOutput → ℕ → Option AliasOutput
set_delegation_timelock a timelock =
    if not a.is_delegated then none else some (record a { delegation_timelock = timelock })

unfoldable pub with_delegation : AliasOutput → AliasOutput
with_delegation a = record a { is_delegated = true }

unfoldable pub with_delegation_and_timelock : AliasOutput → ℕ → AliasOutput
with_delegation_and_timelock a until = record a { is_delegated = true; delegation_timelock = until }

-- DelegationTimelock
abbrev pub get_delegation_timelock : AliasOutput → ℕ
get_delegation_timelock a = if not a.is_delegated then 0 else a.delegation_timelock

-- DelegationTimeLockedNow
abbrev pub delegation_time_locked_now : AliasOutput → ℕ → Bool
delegation_time_locked_now a now =
    if not a.is_delegated || (a.delegation_timelock == 0)
    then false
    else ltb now a.delegation_timelock

-- The checks of checkBasicValidity that follow the one for a nil state address.
unfoldable pub check_fields : AliasOutput → Address → Address → Bool
check_fields a state governing =
    if a.is_origin && not (a.state_index == 0)
    then false
    else if address_eq state (alias_address a.alias_address)
    then false
    else if address_eq governing (alias_address a.alias_address)
    then false
    else if ltb max_output_payload_size (length a.state_data)
    then false
    else if ltb max_output_payload_size (length a.governance_metadata)
    then false
    else if ltb max_output_payload_size (length a.immutable_data)
    then false
    else not (not a.is_delegated && not (a.delegation_timelock == 0))

-- checkBasicValidity
unfoldable pub check_basic_validity : AliasOutput → Bool
check_basic_validity a = elim (is_above_dust_threshold a.balances) [
  | Bool.false ↦ false
  | Bool.true ↦ elim a.state_address [
    | none ↦ false
    | some state ↦ check_fields a state (elim a.governing_address [ none ↦ state | some g ↦ g ])
  ]
]

-- mustValidate
unfoldable pub must_validate : AliasOutput → Result AliasOutput
must_validate a = if check_basic_validity a then ok a else panic

module _ (new_alias_address : ℕ → ℕ) where
  -- NewAliasOutputMint; `none` is an error.
  unfoldable pub new_alias_output_mint : Coins → Option Address → List ℕ → Option AliasOutput
  new_alias_output_mint balances state_addr immutable =
      let a : AliasOutput = record {
        output_id = 0;
        balances = balances;
        alias_address = 0;
        state_address = state_addr;
        state_index = 0;
        state_data = [];
        governance_metadata = [];
        immutable_data = immutable;
        is_governance_update = false;
        governing_address = none;
        is_origin = true;
        is_delegated = false;
        delegation_timelock = 0;
      } in
      if not (is_above_dust_threshold balances)
      then none
      else if not (is_some state_addr)
      then none
      else if check_basic_validity a
      then some a
      else none

  -- clone: the alias address of the copy is the computed one.
  unfoldable pub clone : AliasOutput → Result AliasOutput
  unfolding must_validate
  clone a = do
    _ ← must_validate a
    must_validate (record a { alias_address = get_alias_address new_alias_address a })

  -- NewAliasOutputNext, with the state index as a uint32.
  unfoldable pub new_alias_output_next : AliasOutput → Bool → Result AliasOutput
  unfolding clone
  new_alias_output_next a governance_update = do
    ret ← clone a
    ok (record ret {
      is_origin = false;
      is_governance_update = governance_update;
      state_index = if governance_update then ret.state_index else (a.state_index + 1) % 2 ^ 32;
    })

  -- UpdateMintingColor; the color of the minted coins is a hash of the output's ID.
  unfoldable pub update_minting_color : (ℕ → ℕ) → ℕ → AliasOutput → Result AliasOutput
  unfolding clone set_balances
  update_minting_color new_color color_mint a = do
    let coins : Coins = elim (lookup color_mint a.balances) [
      | none ↦ a.balances
      | some minted ↦ insert (new_color a.output_id) minted (delete color_mint a.balances)
    ]
    copy ← clone a
    let updated : AliasOutput = elim (set_balances copy coins) [ none ↦ copy | some b ↦ b ]
    ok (
        if a.is_origin
        then record updated { alias_address = new_alias_address a.output_id }
        else updated)

  -- The loop of findChainedOutputAndCheckFork; `none` is the error of a duplicate.
  unfoldable pub find_from : ℕ → List Output → Option AliasOutput → Option (Option AliasOutput)
  find_from address [] ret = some ret
  find_from address (extended _ ∷ outputs) ret = find_from address outputs ret
  find_from address (sig_locked _ ∷ outputs) ret = find_from address outputs ret
  find_from address (alias out ∷ outputs) ret =
      elim (address == get_alias_address new_alias_address out) [
        | Bool.false ↦ find_from address outputs ret
        | Bool.true ↦ elim ret [ some _ ↦ none | none ↦ find_from address outputs (some out) ]
      ]

  -- findChainedOutputAndCheckFork
  unfoldable pub find_chained_output : AliasOutput → Transaction → Option (Option AliasOutput)
  unfolding find_from
  find_chained_output a tx = find_from (get_alias_address new_alias_address a) tx.outputs none

  -- validateTransition, if the chained output updates the governance.
  unfoldable pub governance_transition : AliasOutput → AliasOutput → ℕ → Bool
  governance_transition a chained now =
      if not (bytes_eq a.state_data chained.state_data)
      then false
      else if not (a.state_index == chained.state_index)
      then false
      else if not (equal_colored_balances a.balances chained.balances)
      then false
      else not (a.is_delegated && delegation_time_locked_now a now)

  -- What validateTransition checks of the governing address.
  unfoldable pub same_governing_address : AliasOutput → AliasOutput → Bool
  same_governing_address a chained = elim a.governing_address [
    | none ↦ is_self_governed chained
    | some g ↦ elim chained.governing_address [ none ↦ false | some h ↦ address_eq g h ]
  ]

  -- validateTransition of a state update, from the state addresses on.
  unfoldable pub state_transition : AliasOutput → AliasOutput → Address → Address → ℕ → Bool
  unfolding same_governing_address
  state_transition a chained state state' now =
      if not (address_eq state state')
      then false
      else if not (same_governing_address a chained)
      then false
      else if not (bytes_eq a.governance_metadata chained.governance_metadata)
      then false
      else if a.is_delegated && not (equal_colored_balances a.balances chained.balances)
      then false
      else if not (bool_eq a.is_delegated chained.is_delegated)
      then false
      else if not (get_delegation_timelock a == get_delegation_timelock chained)
      then false
      else not (
          a.is_delegated
          && not (get_delegation_timelock a == 0)
          && not (delegation_time_locked_now a now))

  -- validateTransition
  unfoldable pub validate_transition : AliasOutput → AliasOutput → Transaction → Result Bool
  unfolding governance_transition state_transition
  validate_transition a chained tx =
      if not (get_alias_address new_alias_address a == get_alias_address new_alias_address chained)
      then ok false
      else if not (bytes_eq a.immutable_data chained.immutable_data)
      then ok false
      else if chained.is_governance_update
      then ok (governance_transition a chained tx.timestamp)
      else if not ((a.state_index + 1) % 2 ^ 32 == chained.state_index)
      then ok false
      else (do
        state ← deref a.state_address
        state' ← deref chained.state_address
        ok (state_transition a chained state state' tx.timestamp))
