-- ===== src/Devnetvm/AliasOutput/Transition.antt =====
-- validateTransition: what a transition keeps, and the outputs of NewAliasOutputNext.
use zipp.Base.{
  ℕ, ◌+◌, ◌^◌, ◌%◌, ◌≡◌, refl, sym, ap, ◌∙◌, ◌⊎◌, inl, inr, some, Bool, true, false, ◌==◌, ◌||◌,
  not, if◌then◌else◌, arith, Bool-cases, Option-cases, ok, bool_eq,
}
use zipp.Base.Assoc.{lookup}
use zipp.Devnetvm.Outputs.{Address, AliasOutput, Transaction, get_alias_address}
use zipp.Devnetvm.Outputs.Equality.{
  address_eq_refl, address_eq_sound, bytes_eq_refl, bytes_eq_sound, equal_colored_balances_iff,
}
use zipp.Devnetvm.AliasOutput.{
  get_delegation_timelock, delegation_time_locked_now, governance_transition,
  same_governing_address, state_transition, validate_transition, must_validate,
  check_basic_validity, clone, new_alias_output_next,
}

-- A governance update changes neither the state, nor its index, nor the tokens.
pub record KeepsState (a c : AliasOutput) (now : ℕ) : Type 0 where
  pub state_data : a.state_data ≡ c.state_data
  pub state_index : a.state_index ≡ c.state_index
  pub balances : (color : ℕ) → lookup color a.balances ≡ lookup color c.balances
  pub unlocked : delegation_time_locked_now a now ≡ false

-- A state update raises the index by one, and changes neither the addresses nor the governance
-- metadata nor the delegation. A delegated alias keeps its tokens, and is only updated while its
-- timelock, if it has one, is active.
pub record KeepsGovernance (a c : AliasOutput) (now : ℕ) : Type 0 where
  pub state_index : c.state_index ≡ (a.state_index + 1) % 2 ^ 32
  pub state_address : a.state_address ≡ c.state_address
  pub governing_address : a.governing_address ≡ c.governing_address
  pub governance_metadata : a.governance_metadata ≡ c.governance_metadata
  pub is_delegated : a.is_delegated ≡ c.is_delegated
  pub timelock : get_delegation_timelock a ≡ get_delegation_timelock c
  pub funds :
      a.is_delegated ≡ true → (color : ℕ) → lookup color a.balances ≡ lookup color c.balances
  pub locked :
      a.is_delegated ≡ true
      → (get_delegation_timelock a ≡ 0) ⊎ (delegation_time_locked_now a now ≡ true)

-- What validateTransition enforces.
pub record Follows (hash : ℕ → ℕ) (a c : AliasOutput) (now : ℕ) : Type 0 where
  pub address : get_alias_address hash a ≡ get_alias_address hash c
  pub immutable_data : a.immutable_data ≡ c.immutable_data
  pub update :
      ((c.is_governance_update ≡ true) × KeepsState a c now)
      ⊎ ((c.is_governance_update ≡ false) × KeepsGovernance a c now)

module _ (hash : ℕ → ℕ) where
  governance_transition_lem :
      (a c : AliasOutput) (now : ℕ) → governance_transition hash a c now ≡ true → KeepsState a c now
  unfolding governance_transition
  governance_transition_lem a c now h = record {
    state_data = bytes_eq_sound a.state_data c.state_data (ground arith);
    state_index = ground arith;
    balances = (equal_colored_balances_iff a.balances c.balances).0 (ground arith);
    unlocked = ground arith;
  }

  same_governing_address_lem :
      (a c : AliasOutput)
      → same_governing_address hash a c ≡ true
      → a.governing_address ≡ c.governing_address
  unfolding same_governing_address
  same_governing_address_lem a c h = elim (Option-cases a.governing_address) [
    | inl n ↦ elim (Option-cases c.governing_address) [
      | inl m ↦ n ∙ sym m
      | inr (g, m) ↦ ground arith
    ]
    | inr (g, n) ↦ elim (Option-cases c.governing_address) [
      | inl m ↦ ground arith
      | inr (g', m) ↦ n ∙ ap some (address_eq_sound g g' (ground arith)) ∙ sym m
    ]
  ]

  state_transition_lem :
      (a c : AliasOutput) (state state' : Address) (now : ℕ)
      → a.state_address ≡ some state
      → c.state_address ≡ some state'
      → (a.state_index + 1) % 2 ^ 32 ≡ c.state_index
      → state_transition hash a c state state' now ≡ true
      → KeepsGovernance a c now
  unfolding state_transition
  state_transition_lem a c state state' now e e' index h = record {
    state_index = sym index;
    state_address = e ∙ ap some (address_eq_sound state state' (ground arith)) ∙ sym e';
    governing_address = same_governing_address_lem a c (ground arith);
    governance_metadata = bytes_eq_sound a.governance_metadata c.governance_metadata (ground arith);
    is_delegated = ground arith;
    timelock = ground arith;
    funds = λ delegated. (equal_colored_balances_iff a.balances c.balances).0 (ground arith);
    locked = λ delegated. elim (Bool-cases (get_delegation_timelock a == 0)) [
      | inl none_set ↦ inl (ground arith)
      | inr some_set ↦ inr (ground arith)
    ];
  }

  -- If validateTransition accepts a chained output, then it has the alias's address and immutable
  -- data. If it updates the governance, then it keeps the state data, the state index and the
  -- balances, and no delegation timelock is active; otherwise it raises the state index by one as a
  -- uint32, keeps the state address, the governing address, the governance metadata, the
  -- delegation status and the delegation timelock, and, if the alias is delegated, keeps the
  -- balances while the timelock is active or there is none.
  pub validate_transition_lem :
      (a c : AliasOutput) (tx : Transaction)
      → validate_transition hash a c tx ≡ ok true
      → Follows hash a c tx.timestamp
  unfolding validate_transition
  validate_transition_lem a c tx h = record {
    address = ground arith;
    immutable_data = bytes_eq_sound a.immutable_data c.immutable_data (ground arith);
    update = elim (Bool-cases c.is_governance_update) [
      | inl g ↦ inl (g, governance_transition_lem a c tx.timestamp (ground arith))
      | inr s ↦ elim (Option-cases a.state_address) [
        | inl n ↦ ground arith
        | inr (state, e) ↦ elim (Option-cases c.state_address) [
          | inl n ↦ ground arith
          | inr (state', e') ↦ inr (
            s,
            state_transition_lem a c state state' tx.timestamp e e' (ground arith) (ground arith),
          )
        ]
      ]
    ];
  }

  -- A transition is open at a time: a governance update while no timelock is active, a state update
  -- of a delegated output with a timelock only while it is active.
  abbrev pub is_open : AliasOutput → Bool → ℕ → Bool
  is_open a true now = not (delegation_time_locked_now a now)
  is_open a false now =
      not a.is_delegated || (a.delegation_timelock == 0) || delegation_time_locked_now a now

  valid_state_address :
      (a : AliasOutput)
      → check_basic_validity a ≡ true
      → (state : Address) × (a.state_address ≡ some state)
  unfolding check_basic_validity
  valid_state_address a h = elim (Option-cases a.state_address) [
    | inl n ↦ ground arith
    | inr (state, e) ↦ (state, e)
  ]

  next_parts :
      (a : AliasOutput) (gov : Bool) (c : AliasOutput)
      → new_alias_output_next hash a gov ≡ ok c
      → (check_basic_validity a ≡ true)
        × (c ≡ record a {
          alias_address = get_alias_address hash a;
          is_origin = false;
          is_governance_update = gov;
          state_index = if gov then a.state_index else (a.state_index + 1) % 2 ^ 32;
        })
  unfolding new_alias_output_next clone must_validate
  next_parts a gov c h = ground arith

  same_address :
      (a c : AliasOutput)
      → c.output_id ≡ a.output_id
      → c.alias_address ≡ get_alias_address hash a
      → get_alias_address hash a ≡ get_alias_address hash c
  unfolding get_alias_address
  same_address a c e f = ground arith

  governance_next :
      (a c : AliasOutput) (now : ℕ)
      → c.state_data ≡ a.state_data
      → c.state_index ≡ a.state_index
      → c.balances ≡ a.balances
      → delegation_time_locked_now a now ≡ false
      → governance_transition hash a c now ≡ true
  unfolding governance_transition
  governance_next a c now d i b open_now = ground (
    arith,
    bytes_eq_refl a.state_data,
    (equal_colored_balances_iff a.balances a.balances).1 (λ (color : ℕ). refl),
  )

  same_governing :
      (a c : AliasOutput)
      → c.governing_address ≡ a.governing_address
      → same_governing_address hash a c ≡ true
  unfolding same_governing_address
  same_governing a c e = elim (Option-cases a.governing_address) [
    | inl n ↦ ground arith
    | inr (g, n) ↦ ground (arith, address_eq_refl g)
  ]

  bool_eq_refl : (b : Bool) → bool_eq b b ≡ true
  bool_eq_refl true = refl
  bool_eq_refl false = refl

  state_next :
      (a c : AliasOutput) (state : Address) (now : ℕ)
      → c.governing_address ≡ a.governing_address
      → c.governance_metadata ≡ a.governance_metadata
      → c.balances ≡ a.balances
      → c.is_delegated ≡ a.is_delegated
      → c.delegation_timelock ≡ a.delegation_timelock
      → is_open a false now ≡ true
      → state_transition hash a c state state now ≡ true
  unfolding state_transition
  state_next a c state now g m b d t open_now = ground (
    arith,
    address_eq_refl state,
    same_governing a c g,
    bytes_eq_refl a.governance_metadata,
    (equal_colored_balances_iff a.balances a.balances).1 (λ (color : ℕ). refl),
    bool_eq_refl a.is_delegated,
  )

  -- Every output that NewAliasOutputNext makes of an alias passes validateTransition in a
  -- transaction at whose time the transition is open.
  pub new_alias_output_next-validates :
      (a c : AliasOutput) (gov : Bool) (tx : Transaction)
      → new_alias_output_next hash a gov ≡ ok c
      → is_open a gov tx.timestamp ≡ true
      → validate_transition hash a c tx ≡ ok true
  unfolding validate_transition
  new_alias_output_next-validates a c true tx h open_now =
      let (v, e) = next_parts a true c h in
      let address = same_address a c (ground arith) (ground arith) in
      ground (arith, bytes_eq_refl a.immutable_data, governance_next a c tx.timestamp)
  new_alias_output_next-validates a c false tx h open_now =
      let (v, e) = next_parts a false c h in
      let (state, s) = valid_state_address a v in
      let address = same_address a c (ground arith) (ground arith) in
      ground (arith, bytes_eq_refl a.immutable_data, state_next a c state tx.timestamp)
