-- ===== src/Devnetvm/Outputs.antt =====
-- packages/core/ledger/vm/devnetvm/output.go and address.go: the outputs as data. Digests and output
-- IDs are numbers, with 0 for the digest of zero bytes; a time is a number, with 0 for the zero time.
-- NewAliasAddress, a hash of the output's ID, is a parameter.
pub mod Equality
use zipp.Base.{
  ℕ, List, [], ◌∷◌, ◌++◌, map, Option, none, some, Bool, true, false, ltb, ◌==◌, ◌*◌, ◌&&◌, not,
  if◌then◌else◌,
}
use zipp.Base.Assoc.{lookup}

-- An Address is its type and its digest.
pub data Address : Type 0 where
  ed25519 bls alias_address : ℕ → Address

-- Equals
abbrev pub address_eq : Address → Address → Bool
address_eq (ed25519 a) (ed25519 b) = a == b
address_eq (bls a) (bls b) = a == b
address_eq (alias_address a) (alias_address b) = a == b
address_eq _ _ = false

-- bytes.Equal
abbrev pub bytes_eq : List ℕ → List ℕ → Bool
bytes_eq [] [] = true
bytes_eq (x ∷ xs) (y ∷ ys) = (x == y) && bytes_eq xs ys
bytes_eq _ _ = false

-- A map from colors to uint64; `Coins` of a ColoredBalances.
abbrev pub Coins : Type 0
Coins = List (ℕ × ℕ)

pub record AliasOutput : Type 0 where
  pub output_id : ℕ
  pub balances : Coins
  pub alias_address : ℕ
  pub state_address : Option Address
  pub state_index : ℕ
  pub state_data : List ℕ
  pub governance_metadata : List ℕ
  pub immutable_data : List ℕ
  pub is_governance_update : Bool
  pub governing_address : Option Address
  pub is_origin : Bool
  pub is_delegated : Bool
  pub delegation_timelock : ℕ

pub record ExtendedLockedOutput : Type 0 where
  pub output_id : ℕ
  pub balances : Coins
  pub address : Address
  pub fallback_address : Option Address
  pub fallback_deadline : ℕ
  pub timelock : ℕ
  pub payload : List ℕ

-- SigLockedSingleOutput and SigLockedColoredOutput, which are unlocked alike.
pub record SigLockedOutput : Type 0 where
  pub output_id : ℕ
  pub balances : Coins
  pub address : Address

pub data Output : Type 0 where
  alias : AliasOutput → Output
  extended : ExtendedLockedOutput → Output
  sig_locked : SigLockedOutput → Output

-- What the checks read of a transaction: the outputs and the time stamp of its essence, and the
-- essence's bytes, unless Bytes returns an error.
pub record Transaction : Type 0 where
  pub outputs : List Output
  pub timestamp : ℕ
  pub essence_bytes : Option (List ℕ)

-- An unlock block; AddressSignatureValid of a signature is a function of the address and the bytes.
pub data UnlockBlock : Type 0 where
  signature : (Address → List ℕ → Bool) → UnlockBlock
  alias_unlock reference : ℕ → UnlockBlock

-- GetAliasAddress
unfoldable pub get_alias_address : (ℕ → ℕ) → AliasOutput → ℕ
get_alias_address new_alias_address a =
    if a.alias_address == 0 then new_alias_address a.output_id else a.alias_address

-- DustThresholdAliasOutputZIPP and MaxOutputPayloadSize
abbrev pub dust_threshold_alias_output_zipp : ℕ
dust_threshold_alias_output_zipp = 100

abbrev pub max_output_payload_size : ℕ
max_output_payload_size = 4 * 1024

abbrev pub option_eq : Option ℕ → Option ℕ → Bool
option_eq none none = true
option_eq (some a) (some b) = a == b
option_eq _ _ = false

-- The loop of equalColoredBalances over the colors.
unfoldable pub equal_at : Coins → Coins → List ℕ → Bool
equal_at b1 b2 [] = true
equal_at b1 b2 (color ∷ colors) =
    option_eq (lookup color b1) (lookup color b2) && equal_at b1 b2 colors

unfoldable pub equal_colored_balances : Coins → Coins → Bool
unfolding equal_at
equal_colored_balances b1 b2 = equal_at b1 b2 (map (λ e. e.0) b1 ++ map (λ e. e.0) b2)
