-- ===== src/Markers/Collection/Refinement.antt =====
-- Markers as a map from sequences to indexes: every operation is one on the map, whatever the order
-- of the entries, and so are the bounds.
use zipp.Base.{
  ℕ, ◌≤◌, ◌≡◌, refl, sym, ◌∙◌, ◌↔◌, ◌⊎◌, inl, inr, List, Option, none, some, Bool, true, not, ltb,
  ◌==◌, if◌then◌else◌, is_some, arith, Bool-cases, Option-cases,
}
use zipp.Base.Assoc.{lookup}
use zipp.Markers.Collection.{Markers, get, set, remove, merge, equals}
use zipp.Markers.Collection.Bounds.{IsAttained, IsValid}
use zipp.Markers.Collection.Merge.{later, lookup-set, merge_lem, get-remove}
use zipp.Markers.Collection.Equals.{equals_iff}

-- The index is the first of its sequence or above the one that there is.
abbrev pub is_raised : Option ℕ → ℕ → Bool
is_raised none i = true
is_raised (some j) i = ltb j i

abbrev pub IsSame : Markers → Markers → Type 0
IsSame m other = (k : ℕ) → get m k ≡ get other k

pub record Refines (m : Markers) : Type 0 where
  pub set_index :
      (k i j : ℕ) → get (set m k i).2 j ≡ (if k == j then later (get m k) (some i) else get m j)
  pub set_updated : (k i : ℕ) → (set m k i).0 ≡ is_raised (get m k) i
  pub set_added : (k i : ℕ) → (set m k i).1 ≡ not (is_some (get m k))
  pub delete_index : (k j : ℕ) → get (remove m k).1 j ≡ (if k == j then none else get m j)
  pub delete_existed : (k : ℕ) → (remove m k).0 ≡ is_some (get m k)
  pub merge_index :
      (other : Markers) (j : ℕ)
      → IsValid other
      → get (merge m other) j ≡ later (get m j) (get other j)
  pub equals_same : (other : Markers) → IsValid other → (equals m other ≡ true) ↔ IsSame m other
  pub bounds :
      (other : Markers)
      → IsValid other
      → IsSame m other
      → (m.lowest_index ≡ other.lowest_index) × (m.highest_index ≡ other.highest_index)

-- A bound of one collection against the bound of the same map.
at_most :
    (below : ℕ → ℕ → Type 0) (n o : ℕ) (l r : List (ℕ × ℕ))
    → ((k : ℕ) → lookup k l ≡ lookup k r)
    → IsAttained n l
    → IsAttained o r
    → ((k i : ℕ) → lookup k r ≡ some i → below o i)
    → (n ≡ o) ⊎ below o n
unfolding lookup
at_most below n o l r s (inr (k, h)) a b = inr (b k n (sym (s k) ∙ h))
at_most below n o l r s (inl (e, z)) (inl (f, y)) b = inl (z ∙ sym y)
at_most below n o l r s (inl (e, z)) (inr (k, h)) b = absurd (ground (arith, s k, e, h))

flags :
    (m : Markers) (k i : ℕ)
    → ((set m k i).0 ≡ is_raised (get m k) i) × ((set m k i).1 ≡ not (is_some (get m k)))
unfolding set get
flags m k i = elim (Option-cases (lookup k m.markers)) [
  | inl n ↦ rw (n, set) (refl, refl)
  | inr (e, h) ↦ elim (Bool-cases (ltb e i)) [
    | inl more ↦ rw (h, set, more) (refl, refl)
    | inr less ↦ rw (h, set, less) (refl, refl)
  ]
]

existed : (m : Markers) (k : ℕ) → (remove m k).0 ≡ is_some (get m k)
unfolding remove get
existed m k = elim (Option-cases (lookup k m.markers)) [
  | inl n ↦ rw (n, remove) refl
  | inr (e, h) ↦ rw (h, remove) refl
]

same_bounds :
    (m other : Markers)
    → IsValid m
    → IsValid other
    → IsSame m other
    → (m.lowest_index ≡ other.lowest_index) × (m.highest_index ≡ other.highest_index)
unfolding get
same_bounds m other v w s =
    let low =
      at_most (λ a b. a ≤ b) m.lowest_index other.lowest_index m.markers other.markers s
        v.lowest_attained w.lowest_attained w.lowest in
    let low' =
      at_most (λ a b. a ≤ b) other.lowest_index m.lowest_index other.markers m.markers
        (λ k. sym (s k)) w.lowest_attained v.lowest_attained v.lowest in
    let high =
      at_most (λ a b. b ≤ a) m.highest_index other.highest_index m.markers other.markers s
        v.highest_attained w.highest_attained w.highest in
    let high' =
      at_most (λ a b. b ≤ a) other.highest_index m.highest_index other.markers m.markers
        (λ k. sym (s k)) w.highest_attained v.highest_attained v.highest in
    (ground (arith, low, low'), ground (arith, high, high'))

-- Valid Markers implement a map from sequences to indexes. Set raises the index of a sequence and
-- reports whether it rose and whether the sequence is new; Delete drops the sequence and reports
-- whether it was there; Merge with valid Markers takes the higher index of each sequence; Equals
-- with valid Markers is equality of the maps; and valid Markers for the same map have the same
-- LowestIndex and HighestIndex.
pub markers-Refines : (m : Markers) → IsValid m → Refines m
unfolding get
markers-Refines m v = record {
  set_index = λ k i j. lookup-set m k i j;
  set_updated = λ k i. (flags m k i).0;
  set_added = λ k i. (flags m k i).1;
  delete_index = λ k j. get-remove m k j;
  delete_existed = existed m;
  merge_index = λ other j w. merge_lem m other j w.keys;
  equals_same = λ other w. equals_iff m other v.keys w.keys;
  bounds = λ other w s. same_bounds m other v w s;
}
