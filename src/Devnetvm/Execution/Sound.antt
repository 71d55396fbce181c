-- ===== src/Devnetvm/Execution/Sound.antt =====
-- What an executed transaction guarantees.
use zipp.Base.{
  ℕ, suc, ◌≡◌, ap, ◌∙◌, inl, inr, List, [], ◌∷◌, map, none, some, true, false, get_elem?, arith,
  Bool-cases, Option-cases, Result-cases, ok, All, IsDistinct,
}
use zipp.Devnetvm.Outputs.{
  Address, ed25519, bls, alias_address, AliasOutput, Output, alias, extended, sig_locked,
  Transaction, UnlockBlock, signature, alias_unlock, reference, get_alias_address,
}
use zipp.Devnetvm.AliasOutput.Chained.{aliases_at}
use zipp.Devnetvm.AliasOutput.Authority.{IsGranted, IsReferred, refer}
use zipp.Devnetvm.AliasOutput.Unlock.{Fate, needed, unlock_valid_lem}
use zipp.Devnetvm.LockedOutputs.{
  time_locked_now, unlock_address_now, alias_unlocks, address_unlocks, extended_unlock_valid,
  sig_locked_unlock_valid,
}
use zipp.Devnetvm.Execution.{
  kind, balances_of, output_unlock_valid, unlock_block_of, unlock_inputs, unlock_blocks_valid,
  execute_transaction,
}
use zipp.Devnetvm.UnlockGraph.{check_reference_cycle}
use zipp.Devnetvm.Balances.Consumed.{grand_total}
use zipp.Devnetvm.Balances.Conserved.{transaction_balances_valid-conserves}
use zipp.Devnetvm.Alias.{alias_initial_state_valid}
use zipp.Devnetvm.Alias.Initial.{
  addresses, IsBacked, alias_initial_state_valid-IsDistinct, alias_initial_state_valid-IsBacked,
}

module _ (hash : ℕ → ℕ) (tx : Transaction) (blocks : List UnlockBlock) (inputs : List Output) where
  -- One of the unlock blocks authorizes the use of the address.
  pub record IsAuthorized (addr : Address) : Type 0 where
    pub index : ℕ
    pub block : UnlockBlock
    pub at : get_elem? blocks index ≡ some block
    pub granted : IsGranted hash tx inputs block addr

  -- An alias that has become what its transaction allows, by the authority of the address needed.
  pub record IsPassed (a : AliasOutput) (l : List AliasOutput) : Type 0 where
    pub fate : Fate hash a tx l
    pub address : Address
    pub is_needed : needed hash a l ≡ some address
    pub authorized : IsAuthorized address

  -- What is checked of an input, by its type.
  abbrev pub IsSpendable : Output → Type 0
  IsSpendable (alias a) = IsPassed a (aliases_at hash (get_alias_address hash a) tx.outputs)
  IsSpendable (extended o) =
      (time_locked_now o tx.timestamp ≡ false) × IsAuthorized (unlock_address_now o tx.timestamp)
  IsSpendable (sig_locked o) = IsAuthorized o.address

  alias_unlocks_lem :
      (addr : Address) (i : ℕ)
      → alias_unlocks hash addr tx i inputs ≡ ok true
      → IsReferred hash tx inputs addr i
  unfolding alias_unlocks
  alias_unlocks_lem (ed25519 d) i h = ground arith
  alias_unlocks_lem (bls d) i h = ground arith
  alias_unlocks_lem (alias_address d) i h = elim (Option-cases (get_elem? inputs i)) [
    | inl n ↦ ground arith
    | inr (extended o, e) ↦ ground arith
    | inr (sig_locked o, e) ↦ ground arith
    | inr (alias ref, e) ↦ refer hash tx inputs d i ref e (ground arith) (ground arith)
  ]

  address_unlocks_lem :
      (addr : Address) (block : UnlockBlock)
      → address_unlocks hash addr tx block inputs ≡ ok true
      → IsGranted hash tx inputs block addr
  unfolding address_unlocks
  address_unlocks_lem addr (signature valid) h = elim (Option-cases tx.essence_bytes) [
    | inl n ↦ ground arith
    | inr (bytes, b) ↦ record { bytes = bytes; essence = b; verified = ground arith }
  ]
  address_unlocks_lem addr (alias_unlock i) h = alias_unlocks_lem addr i h
  address_unlocks_lem addr (reference i) h = ground arith

  abbrev authorize :
      (addr : Address) (block : UnlockBlock) (j : ℕ)
      → get_elem? blocks j ≡ some block
      → IsGranted hash tx inputs block addr
      → IsAuthorized addr
  authorize addr block j e g = record { index = j; block = block; at = e; granted = g }

  output_unlock_lem :
      (o : Output) (block : UnlockBlock) (j : ℕ)
      → get_elem? blocks j ≡ some block
      → output_unlock_valid hash o tx block inputs ≡ ok true
      → IsSpendable o
  unfolding output_unlock_valid extended_unlock_valid sig_locked_unlock_valid
  output_unlock_lem (alias a) block j e h =
      let u = unlock_valid_lem hash a tx block inputs h in
      record {
        fate = u.fate;
        address = u.address;
        is_needed = u.is_needed;
        authorized = authorize u.address block j e u.granted;
      }
  output_unlock_lem (extended o) block j e h = (
    ground arith,
    authorize (unlock_address_now o tx.timestamp) block j e
        (address_unlocks_lem (unlock_address_now o tx.timestamp) block (ground arith)),
  )
  output_unlock_lem (sig_locked o) block j e h =
      authorize o.address block j e (address_unlocks_lem o.address block h)

  unlock_block_lem :
      (i : ℕ) (block : UnlockBlock)
      → unlock_block_of hash blocks i ≡ ok block
      → (j : ℕ) × (get_elem? blocks j ≡ some block)
  unfolding unlock_block_of
  unlock_block_lem i block h = elim (Option-cases (get_elem? blocks i)) [
    | inl n ↦ ground arith
    | inr (signature valid, e) ↦ (i, ground arith)
    | inr (alias_unlock k, e) ↦ (i, ground arith)
    | inr (reference j, e) ↦ (j, ground arith)
  ]

  unlock_inputs_lem :
      (i : ℕ) (l : List Output)
      → unlock_inputs hash blocks tx inputs i l ≡ ok true
      → All IsSpendable l
  unfolding unlock_inputs
  unlock_inputs_lem i [] h = tt
  unlock_inputs_lem i (o ∷ l) h = elim (Result-cases (unlock_block_of hash blocks i)) [
    | inl e ↦ ground arith
    | inr (block, e) ↦ elim (Result-cases (output_unlock_valid hash o tx block inputs)) [
      | inl f ↦ ground arith
      | inr (unlocked, f) ↦ elim (Bool-cases unlocked) [
        | inr stop ↦ ground arith
        | inl go ↦
            let (j, at) = unlock_block_lem i block e in
            (
              output_unlock_lem o block j at (f ∙ ap ok go),
              unlock_inputs_lem (suc i) l (ground arith),
            )
      ]
    ]
  ]

  -- If UnlockBlocksValid accepts the inputs, then each was checked by its type, with an unlock block
  -- that authorizes the address it needs.
  pub unlock_blocks_valid_lem :
      unlock_blocks_valid hash inputs tx blocks ≡ ok true → All IsSpendable inputs
  unfolding unlock_blocks_valid
  unlock_blocks_valid_lem h = elim (Result-cases (check_reference_cycle (map kind blocks))) [
    | inl e ↦ ground arith
    | inr (none, e) ↦ ground arith
    | inr (some true, e) ↦ ground arith
    | inr (some false, e) ↦ unlock_inputs_lem 0 inputs (ground arith)
  ]

  -- What executeTransaction guarantees of an accepted transaction.
  pub record IsExecuted : Type 0 where
    pub balanced : grand_total (map balances_of tx.outputs) ≡ grand_total (map balances_of inputs)
    pub spendable : All IsSpendable inputs
    pub distinct : IsDistinct (addresses hash tx.outputs)
    pub backed : All (IsBacked hash inputs) tx.outputs

  -- If executeTransaction returns outputs, then the transaction's outputs hold as many tokens as its
  -- inputs. Every alias among the inputs has at most one output of its address, which follows it as
  -- validateTransition asks, or it may end; and the state address, for a state update, or else the
  -- governing address is authorized. Every extended output among them is not time locked, and its
  -- unlock address is authorized; the address of every other input is authorized. An address is
  -- authorized by an unlock block that is a signature of the transaction by it, or that refers to an
  -- alias of that address among the inputs that a state update spends. No two aliases on the output
  -- side have the same address, and each of them has the address of an alias on the input side or is
  -- minted.
  pub execute_transaction_lem :
      (new_color new_output_id : ℕ → ℕ) (outputs : List Output)
      → execute_transaction hash new_color new_output_id tx blocks inputs ≡ ok (some outputs)
      → IsExecuted
  unfolding execute_transaction
  execute_transaction_lem new_color new_output_id outputs h =
      elim (Result-cases (unlock_blocks_valid hash inputs tx blocks)) [
        | inl e ↦ ground arith
        | inr (unlocked, e) ↦
            let accepted : unlock_blocks_valid hash inputs tx blocks ≡ ok true = ground arith in
            let initial : alias_initial_state_valid hash inputs tx.outputs ≡ true = ground arith in
            record {
              balanced =
                  transaction_balances_valid-conserves (map balances_of inputs)
                    (map balances_of tx.outputs) (ground arith);
              spendable = unlock_blocks_valid_lem accepted;
              distinct = alias_initial_state_valid-IsDistinct hash inputs tx.outputs initial;
              backed = alias_initial_state_valid-IsBacked hash inputs tx.outputs initial;
            }
      ]
