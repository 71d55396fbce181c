-- ===== src/Markers/Collection/Bounds.antt =====
-- The lowest and the highest index of Markers against the entries.
use zipp.Base.{
  ℕ, ◌≤◌, ◌<◌, ◌≡◌, refl, ◌⊎◌, inl, inr, List, [], ◌∷◌, none, some, true, ltb, ◌==◌, ◌||◌, arith,
  Bool-cases, ==_refl,
}
use zipp.Base.Assoc.{lookup, IsMap}
use zipp.Markers.Collection.{Markers, empty, lower, higher, scan_lowest, scan_highest}

-- A bound is attained, or there are no entries and it is 0.
abbrev pub IsAttained : ℕ → List (ℕ × ℕ) → Type 0
IsAttained n l = ((l ≡ []) × (n ≡ 0)) ⊎ ((k : ℕ) × (lookup k l ≡ some n))

-- Every index is positive, and the bounds are the lowest and the highest of them.
pub record IsValid (m : Markers) : Type 0 where
  pub keys : IsMap m.markers
  pub positive : (k i : ℕ) → lookup k m.markers ≡ some i → 0 < i
  pub lowest : (k i : ℕ) → lookup k m.markers ≡ some i → m.lowest_index ≤ i
  pub highest : (k i : ℕ) → lookup k m.markers ≡ some i → i ≤ m.highest_index
  pub lowest_attained : IsAttained m.lowest_index m.markers
  pub highest_attained : IsAttained m.highest_index m.markers

pub empty-IsValid : IsValid empty
unfolding lookup
empty-IsValid = record {
  keys = tt;
  positive = λ k i h. ground arith;
  lowest = λ k i h. ground arith;
  highest = λ k i h. ground arith;
  lowest_attained = inl (refl, refl);
  highest_attained = inl (refl, refl);
}

abbrev pub AllPositive : List (ℕ × ℕ) → Type 0
AllPositive l = (k i : ℕ) → lookup k l ≡ some i → 0 < i

-- The scans, from a start `n` that is 0 or an index already seen.
pub record Scans (below : ℕ → ℕ → Type 0) (n : ℕ) (l : List (ℕ × ℕ)) (r : ℕ) : Type 0 where
  pub bound : (k i : ℕ) → lookup k l ≡ some i → below r i
  pub start : 0 < n → below r n
  pub found : ((r ≡ n) × ((0 < n) ⊎ (l ≡ []))) ⊎ ((k : ℕ) × (lookup k l ≡ some r))

pub tail_positive :
    (j x : ℕ) (l : List (ℕ × ℕ))
    → IsMap ((j, x) ∷ l)
    → AllPositive ((j, x) ∷ l)
    → (0 < x) × AllPositive l
unfolding lookup
tail_positive j x l d p = (p j x (ground (arith, ==_refl j)), λ k i h. p k i (ground (arith, d.0)))

absurd_head {ℓ} :
    {A : Type ℓ} (j k : ℕ) (l : List (ℕ × ℕ)) {v : ℕ}
    → lookup j l ≡ none
    → (j == k) ≡ true
    → lookup k l ≡ some v
    → A
absurd_head j k l n e h = absurd (omega (arith, apart j k l n e h))
  where
    apart :
        (j k : ℕ) (l : List (ℕ × ℕ)) {v : ℕ}
        → lookup j l ≡ none
        → (j == k) ≡ true
        → lookup k l ≡ some v
        → 1 ≤ 0
    apart j k l n e h = ground arith

pub scan_lowest_lem :
    (n : ℕ) (l : List (ℕ × ℕ))
    → IsMap l
    → AllPositive l
    → Scans (λ r i. r ≤ i) n l (scan_lowest n l)
unfolding scan_lowest lookup
scan_lowest_lem n [] d p = record {
  bound = λ k i h. ground arith;
  start = λ h. omega arith;
  found = inl (refl, inr refl);
}
scan_lowest_lem n ((j, x) ∷ l) d p =
    let (px, pl) = tail_positive j x l d p in
    let ih = scan_lowest_lem (lower n x) l d.1 pl in
    let first = ih.start (ground arith) in
    record {
      bound = λ k i h. elim (Bool-cases (j == k)) [
        | inl same ↦ ground arith
        | inr differs ↦ ih.bound k i (ground arith)
      ];
      start = λ h. ground arith;
      found = elim ih.found [
        | inl (same, _) ↦ elim (Bool-cases (ltb x n || (n == 0))) [
          | inl new ↦ inr (j, ground (arith, ==_refl j))
          | inr old ↦ inl (ground arith, inl (ground arith))
        ]
        | inr (k, h) ↦ elim (Bool-cases (j == k)) [
          | inl clash ↦ absurd_head j k l d.0 clash h
          | inr differs ↦ inr (k, ground arith)
        ]
      ];
    }

pub scan_highest_lem :
    (n : ℕ) (l : List (ℕ × ℕ))
    → IsMap l
    → AllPositive l
    → Scans (λ r i. i ≤ r) n l (scan_highest n l)
unfolding scan_highest lookup
scan_highest_lem n [] d p = record {
  bound = λ k i h. ground arith;
  start = λ h. omega arith;
  found = inl (refl, inr refl);
}
scan_highest_lem n ((j, x) ∷ l) d p =
    let (px, pl) = tail_positive j x l d p in
    let ih = scan_highest_lem (higher n x) l d.1 pl in
    let first = ih.start (ground arith) in
    record {
      bound = λ k i h. elim (Bool-cases (j == k)) [
        | inl same ↦ ground arith
        | inr differs ↦ ih.bound k i (ground arith)
      ];
      start = λ h. ground arith;
      found = elim ih.found [
        | inl (same, _) ↦ elim (Bool-cases (ltb n x)) [
          | inl new ↦ inr (j, ground (arith, ==_refl j))
          | inr old ↦ inl (ground arith, inl (ground arith))
        ]
        | inr (k, h) ↦ elim (Bool-cases (j == k)) [
          | inl clash ↦ absurd_head j k l d.0 clash h
          | inr differs ↦ inr (k, ground arith)
        ]
      ];
    }

-- A scan from 0 gives an attained bound.
pub scanned :
    {below : ℕ → ℕ → Type 0} (l : List (ℕ × ℕ)) (r : ℕ) → Scans below 0 l r → IsAttained r l
scanned l r s = elim s.found [
  | inl (z, inl none_seen) ↦ absurd (omega arith)
  | inl (z, inr e) ↦ inl (e, z)
  | inr at ↦ inr at
]
