-- ===== src/Devnetvm/Alias/Initial.antt =====
-- What AliasInitialStateValid guarantees of the aliases on the output side.
use zipp.Base.{
  ℕ, ◌≡◌, ◌⊎◌, inl, inr, List, [], ◌∷◌, none, some, Bool, true, false, ◌==◌, ◌||◌, not, arith, elem,
  IsDistinct, All, is_some, Option-cases, Bool-cases, ==_refl,
}
use zipp.Base.Assoc.{lookup, insert, delete, lookup-insert, lookup-delete}
use zipp.Devnetvm.Outputs.{AliasOutput, Output, alias, extended, sig_locked, get_alias_address}
use zipp.Devnetvm.Alias.{
  output_aliases, input_aliases, initial_states, check_aliases, alias_initial_state_valid,
}

-- An alias that its transaction mints: the origin flag, a zero address, and state index 0.
pub record IsInitial (a : AliasOutput) : Type 0 where
  pub origin : a.is_origin ≡ true
  pub nil : a.alias_address ≡ 0
  pub index : a.state_index ≡ 0

module _ (hash : ℕ → ℕ) where
  -- The addresses of the aliases among some outputs, in order.
  abbrev pub addresses : List Output → List ℕ
  addresses [] = []
  addresses (extended _ ∷ l) = addresses l
  addresses (sig_locked _ ∷ l) = addresses l
  addresses (alias a ∷ l) = get_alias_address hash a ∷ addresses l

  -- An alias has a pair on the input side, or is minted.
  abbrev pub IsBacked : List Output → Output → Type 0
  IsBacked inputs (extended _) = Unit
  IsBacked inputs (sig_locked _) = Unit
  IsBacked inputs (alias a) =
      (elem (get_alias_address hash a) (addresses inputs) ≡ true) ⊎ IsInitial a

  abbrev IsFound : List (ℕ × AliasOutput) → Output → Type 0
  IsFound m (extended _) = Unit
  IsFound m (sig_locked _) = Unit
  IsFound m (alias a) = lookup (get_alias_address hash a) m ≡ some a

  -- What the loop over the outputs gathers.
  record Gathers (l : List Output) (m m' : List (ℕ × AliasOutput)) : Type 0 where
    distinct : IsDistinct (addresses l)
    fresh : (k : ℕ) → elem k (addresses l) ≡ true → lookup k m ≡ none
    kept : (k : ℕ) (a : AliasOutput) → lookup k m ≡ some a → lookup k m' ≡ some a
    found : All (IsFound m') l

  input_aliases_lem :
      (l : List Output) (m m' : List (ℕ × Bool))
      → input_aliases hash l m ≡ some m'
      → (k : ℕ) → is_some (lookup k m') ≡ (is_some (lookup k m) || elem k (addresses l))
  unfolding input_aliases
  input_aliases_lem [] m m' h k = ground (arith)
  input_aliases_lem (extended _ ∷ l) m m' h k = input_aliases_lem l m m' h k
  input_aliases_lem (sig_locked _ ∷ l) m m' h k = input_aliases_lem l m m' h k
  input_aliases_lem (alias a ∷ l) m m' h k =
      elim (Option-cases (lookup (get_alias_address hash a) m)) [
        | inr (u, e) ↦ ground arith
        | inl n ↦
            let ih =
              input_aliases_lem l (insert (get_alias_address hash a) true m) m' (ground arith) k in
            ground (arith, lookup-insert (get_alias_address hash a) k true m)
      ]

  initial_states_lem :
      (m : List (ℕ × AliasOutput)) (ins : List (ℕ × Bool))
      → initial_states hash m ins ≡ true
      → (k : ℕ) (a : AliasOutput) → lookup k m ≡ some a
      → (is_some (lookup k ins) ≡ true) ⊎ IsInitial a
  unfolding initial_states lookup
  initial_states_lem [] ins h k a l = ground arith
  initial_states_lem ((j, b) ∷ m) ins h k a l = elim (Option-cases (lookup j ins)) [
    | inr (u, e) ↦ elim (Bool-cases (j == k)) [
      | inl same ↦ inl (ground arith)
      | inr differs ↦ elim (initial_states_lem m (delete j ins) (ground arith) k a (ground arith)) [
        | inl paired ↦ inl (ground (arith, lookup-delete j k ins))
        | inr minted ↦ inr minted
      ]
    ]
    | inl n ↦ elim (Bool-cases (j == k)) [
      | inl same ↦ inr (minted b a (ground arith) (ground arith))
      | inr differs ↦ initial_states_lem m ins (ground arith) k a (ground arith)
    ]
  ]
    where
      minted :
          (b a : AliasOutput)
          → b ≡ a
          → (not b.is_origin || not (b.alias_address == 0) || not (b.state_index == 0)) ≡ false
          → IsInitial a
      minted b a same test =
          rw (← same) (record { origin = ground arith; nil = ground arith; index = ground arith })

  output_aliases_lem :
      (l : List Output) (m m' : List (ℕ × AliasOutput))
      → output_aliases hash l m ≡ some m'
      → Gathers l m m'
  unfolding output_aliases
  output_aliases_lem [] m m' h = record {
    distinct = tt;
    fresh = λ k e. ground arith;
    kept = λ k a e. ground arith;
    found = tt;
  }
  output_aliases_lem (extended _ ∷ l) m m' h =
      let ih = output_aliases_lem l m m' h in
      record { distinct = ih.distinct; fresh = ih.fresh; kept = ih.kept; found = (tt, ih.found) }
  output_aliases_lem (sig_locked _ ∷ l) m m' h =
      let ih = output_aliases_lem l m m' h in
      record { distinct = ih.distinct; fresh = ih.fresh; kept = ih.kept; found = (tt, ih.found) }
  output_aliases_lem (alias a ∷ l) m m' h =
      elim (Option-cases (lookup (get_alias_address hash a) m)) [
        | inr (u, e) ↦ ground arith
        | inl n ↦
            let x = get_alias_address hash a in
            let ih = output_aliases_lem l (insert x a m) m' (ground arith) in
            record {
              distinct = (apart x a l m ih.fresh, ih.distinct);
              fresh = λ k e. ground (arith, ih.fresh k, lookup-insert x k a m, n);
              kept = λ k b e. ih.kept k b (ground (arith, lookup-insert x k a m));
              found = (ih.kept x a (ground (arith, lookup-insert x x a m, ==_refl x)), ih.found);
            }
      ]
    where
      apart :
          (x : ℕ) (a : AliasOutput) (l : List Output) (m : List (ℕ × AliasOutput))
          → ((k : ℕ) → elem k (addresses l) ≡ true → lookup k (insert x a m) ≡ none)
          → elem x (addresses l) ≡ false
      apart x a l m fresh = elim (Bool-cases (elem x (addresses l))) [
        | inr absent ↦ absent
        | inl present ↦ ground (arith, fresh x present, lookup-insert x x a m, ==_refl x)
      ]

  -- If AliasInitialStateValid accepts a transaction, then no two aliases on its output side have
  -- the same address.
  pub alias_initial_state_valid-IsDistinct :
      (inputs outputs : List Output)
      → alias_initial_state_valid hash inputs outputs ≡ true
      → IsDistinct (addresses outputs)
  unfolding alias_initial_state_valid
  alias_initial_state_valid-IsDistinct inputs outputs h =
      elim (Option-cases (output_aliases hash outputs [])) [
        | inl n ↦ ground arith
        | inr (m, e) ↦ (output_aliases_lem outputs [] m e).distinct
      ]

  paired :
      (m : List (ℕ × AliasOutput)) (inputs : List Output) (k : ℕ) (a : AliasOutput)
      → check_aliases hash m inputs ≡ true
      → lookup k m ≡ some a
      → (elem k (addresses inputs) ≡ true) ⊎ IsInitial a
  unfolding check_aliases lookup
  paired [] inputs k a h f = ground arith
  paired (entry ∷ m) inputs k a h f = elim (Option-cases (input_aliases hash inputs [])) [
    | inl n ↦ ground arith
    | inr (ins, e) ↦ elim (initial_states_lem (entry ∷ m) ins (ground arith) k a f) [
      | inl present ↦ inl (ground (arith, input_aliases_lem inputs [] ins e k))
      | inr initial ↦ inr initial
    ]
  ]

  backed :
      (m : List (ℕ × AliasOutput)) (inputs l : List Output)
      → check_aliases hash m inputs ≡ true
      → All (IsFound m) l
      → All (IsBacked inputs) l
  backed m inputs [] h f = tt
  backed m inputs (extended _ ∷ l) h f = (tt, backed m inputs l h f.1)
  backed m inputs (sig_locked _ ∷ l) h f = (tt, backed m inputs l h f.1)
  backed m inputs (alias a ∷ l) h f =
      (paired m inputs (get_alias_address hash a) a h f.0, backed m inputs l h f.1)

  -- If AliasInitialStateValid accepts a transaction, then every alias on its output side has the
  -- address of an alias on the input side, or has the origin flag, a zero address and state index 0.
  pub alias_initial_state_valid-IsBacked :
      (inputs outputs : List Output)
      → alias_initial_state_valid hash inputs outputs ≡ true
      → All (IsBacked inputs) outputs
  unfolding alias_initial_state_valid
  alias_initial_state_valid-IsBacked inputs outputs h =
      elim (Option-cases (output_aliases hash outputs [])) [
        | inl n ↦ ground arith
        | inr (m, e) ↦
            backed m inputs outputs (ground arith) (output_aliases_lem outputs [] m e).found
      ]
