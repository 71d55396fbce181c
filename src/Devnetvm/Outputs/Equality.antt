-- ===== src/Devnetvm/Outputs/Equality.antt =====
-- The comparisons of output.go against equality.
use zipp.Base.{
  ℕ, ◌≡◌, refl, ◌↔◌, inl, inr, List, [], ◌∷◌, ◌++◌, map, Option, none, some, true, false, ◌==◌,
  arith, elem, elem-append, Bool-cases,
}
use zipp.Base.Assoc.{lookup}
use zipp.Devnetvm.Outputs.{
  Address, ed25519, bls, alias_address, address_eq, bytes_eq, Coins, option_eq, equal_at,
  equal_colored_balances,
}

pub address_eq_refl : (a : Address) → address_eq a a ≡ true
address_eq_refl (ed25519 a) = ground arith
address_eq_refl (bls a) = ground arith
address_eq_refl (alias_address a) = ground arith

pub address_eq_sound : (a b : Address) → address_eq a b ≡ true → a ≡ b
address_eq_sound (ed25519 a) (ed25519 b) h = ground arith
address_eq_sound (ed25519 a) (bls b) h = ground arith
address_eq_sound (ed25519 a) (alias_address b) h = ground arith
address_eq_sound (bls a) (ed25519 b) h = ground arith
address_eq_sound (bls a) (bls b) h = ground arith
address_eq_sound (bls a) (alias_address b) h = ground arith
address_eq_sound (alias_address a) (ed25519 b) h = ground arith
address_eq_sound (alias_address a) (bls b) h = ground arith
address_eq_sound (alias_address a) (alias_address b) h = ground arith

pub bytes_eq_refl : (l : List ℕ) → bytes_eq l l ≡ true
bytes_eq_refl [] = refl
bytes_eq_refl (x ∷ xs) = ground (arith, bytes_eq_refl xs)

pub bytes_eq_sound : (xs ys : List ℕ) → bytes_eq xs ys ≡ true → xs ≡ ys
bytes_eq_sound [] [] h = refl
bytes_eq_sound [] (y ∷ ys) h = ground arith
bytes_eq_sound (x ∷ xs) [] h = ground arith
bytes_eq_sound (x ∷ xs) (y ∷ ys) h = ground (arith, bytes_eq_sound xs ys)

option_eq_refl : (o : Option ℕ) → option_eq o o ≡ true
option_eq_refl none = refl
option_eq_refl (some a) = ground arith

option_eq_sound : (o p : Option ℕ) → option_eq o p ≡ true → o ≡ p
option_eq_sound none none h = refl
option_eq_sound none (some b) h = ground arith
option_eq_sound (some a) none h = ground arith
option_eq_sound (some a) (some b) h = ground arith

abbrev colors_of : Coins → List ℕ
colors_of b = map (λ e. e.0) b

-- A color that is not listed has no balance.
lookup-absent : (b : Coins) (c : ℕ) → elem c (colors_of b) ≡ false → lookup c b ≡ none
unfolding lookup
lookup-absent [] c h = refl
lookup-absent ((d, n) ∷ b) c h = ground (arith, lookup-absent b c)

equal_at_sound :
    (b1 b2 : Coins) (colors : List ℕ) (c : ℕ)
    → equal_at b1 b2 colors ≡ true
    → elem c colors ≡ true
    → lookup c b1 ≡ lookup c b2
unfolding equal_at
equal_at_sound b1 b2 [] c h m = ground arith
equal_at_sound b1 b2 (d ∷ colors) c h m = elim (Bool-cases (d == c)) [
  | inl same ↦ ground (arith, option_eq_sound (lookup d b1) (lookup d b2))
  | inr differs ↦ equal_at_sound b1 b2 colors c (ground arith) (ground arith)
]

equal_at_refl :
    (b1 b2 : Coins) (colors : List ℕ)
    → ((c : ℕ) → lookup c b1 ≡ lookup c b2)
    → equal_at b1 b2 colors ≡ true
unfolding equal_at
equal_at_refl b1 b2 [] h = refl
equal_at_refl b1 b2 (d ∷ colors) h =
    rw (h d) (rw (option_eq_refl (lookup d b2)) (equal_at_refl b1 b2 colors h))

-- equalColoredBalances returns true exactly if both hold the same balance of every color, which a
-- color that is missing on one side and zero on the other does not.
pub equal_colored_balances_iff :
    (b1 b2 : Coins) → (equal_colored_balances b1 b2 ≡ true) ↔ ((c : ℕ) → lookup c b1 ≡ lookup c b2)
unfolding equal_colored_balances
equal_colored_balances_iff b1 b2 =
    (sound, λ h. equal_at_refl b1 b2 (colors_of b1 ++ colors_of b2) h)
  where
    sound : equal_colored_balances b1 b2 ≡ true → (c : ℕ) → lookup c b1 ≡ lookup c b2
    sound h c = elim (Bool-cases (elem c (colors_of b1 ++ colors_of b2))) [
      | inl listed ↦ equal_at_sound b1 b2 (colors_of b1 ++ colors_of b2) c h listed
      | inr absent ↦ ground (
        arith,
        elem-append c (colors_of b1) (colors_of b2),
        lookup-absent b1 c,
        lookup-absent b2 c,
      )
    ]
