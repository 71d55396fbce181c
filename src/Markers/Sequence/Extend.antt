-- ===== src/Markers/Sequence/Extend.antt =====
-- TryExtend and IncreaseHighestIndex against the past markers that they are given.
use zipp.Base.{
  ℕ, ◌+◌, ◌≤◌, ◌<◌, ◌≡◌, refl, ◌⊎◌, inl, inr, List, Option, none, some, Bool, true, false, length,
  if◌then◌else◌, ltb, leb, ◌==◌, ◌&&◌, Returns, arith, Bool-cases, u64_mod,
}
use zipp.Markers.Collection.{Markers, get, remove, clone}
use zipp.Markers.Collection.Bounds.{IsValid}
use zipp.Markers.Sequence.{
  ThresholdMaps, Sequence, next_index, add_referenced, try_extend, increase_highest_index,
}

-- The index is above the sequence's highest one and above all past markers, and it is the
-- sequence's highest one now.
pub record IsNewIndex {L U : Type 0} (s : Sequence L U) (past : Markers) (index : ℕ)
    (s' : Sequence L U) : Type 0 where
  pub same_id : s'.id ≡ s.id
  pub same_lowest : s'.lowest_index ≡ s.lowest_index
  pub highest : s'.highest_index ≡ index
  pub increases : s.highest_index < index
  pub above : (k i : ℕ) → get past k ≡ some i → i < index

next_index_above :
    (past : Markers) (k i : ℕ)
    → IsValid past
    → past.highest_index + 1 < u64_mod
    → get past k ≡ some i
    → i < next_index past.highest_index
unfolding get
next_index_above past k i v b h = omega (arith, v.highest k i h)

module _ (lower upper : ThresholdMaps) where
  abbrev S : Type 0
  S = Sequence lower.ThresholdMap upper.ThresholdMap

  -- What TryExtend returns, and the sequence after it.
  pub record Extended (s : S) (past : Markers) (r : (ℕ × Option Markers × Bool) × S) : Type 0 where
    pub extended : r.0.2 ≡ true
    pub new : IsNewIndex s past r.0.0 r.1
    pub remaining : r.0.1 ≡ (elim (ltb 1 (length past.markers)) [
      | true ↦ some (remove (clone past) s.id).1
      | false ↦ none
    ])
    pub referencing : r.1.referencing_markers ≡ s.referencing_markers

  abbrev pub ExtendsOrStays : S → Markers → Bool → (ℕ × Option Markers × Bool) × S → Type 0
  ExtendsOrStays s past extendable r =
      ((extendable ≡ true) × Extended s past r)
      ⊎ ((extendable ≡ false) × (r ≡ ((s.highest_index, none, false), s)))

  -- What IncreaseHighestIndex returns, with the caller's markers, and the sequence after it.
  abbrev pub IncreasesOrStays : S → Markers → Bool → (ℕ × Bool × Markers) × S → Type 0
  IncreasesOrStays s past grows r =
      ((grows ≡ true)
        × IsNewIndex s past r.0.0 r.1
        × (r.0.1 ≡ true)
        × (r.0.2 ≡ (if ltb 1 (length past.markers) then (remove past s.id).1 else past)))
      ⊎ ((grows ≡ false) × (r ≡ ((s.highest_index, false, past), s)))

  is_new :
      (s : S) (past : Markers) (r : List (ℕ × lower.ThresholdMap)) (i : ℕ)
      → IsValid past
      → past.highest_index + 1 < u64_mod
      → get past s.id ≡ some i
      → s.highest_index ≤ i
      → IsNewIndex s past
          (next_index past.highest_index)
          (record s { highest_index = next_index past.highest_index; referenced_markers = r })
  is_new s past r i v b h le = record {
    same_id = refl;
    same_lowest = refl;
    highest = refl;
    increases = omega (arith, le, next_index_above past s.id i v b h);
    above = λ k j g. next_index_above past k j v b g;
  }

  -- TryExtend on past markers that contain the sequence with the index i, are valid and below the
  -- highest uint64, returns. If i is the sequence's highest index and the callback agrees, then the
  -- sequence is extended: the index returned is above its highest one and above all past markers,
  -- and is stored as its highest one; the remaining markers are nil if there was one past marker,
  -- else the clone of the past markers without the sequence. Otherwise it returns the highest index
  -- and leaves the sequence as it is.
  pub try_extend_lem :
      (s : S) (past : Markers) (increase_index : ℕ → ℕ → Bool) (i : ℕ)
      → IsValid past
      → past.highest_index + 1 < u64_mod
      → get past s.id ≡ some i
      → Returns
          (ExtendsOrStays s past ((i == s.highest_index) && increase_index s.id i))
          (try_extend lower upper s past increase_index)
  unfolding try_extend
  try_extend_lem s past increase_index i v b h =
      elim (Bool-cases ((i == s.highest_index) && increase_index s.id i)) [
        | inr stays ↦
            (((s.highest_index, none, false), s), rw (h, try_extend, stays) refl, inr (stays, refl))
        | inl extends ↦
            let index : ℕ = next_index past.highest_index in
            let rest : Markers = (remove (clone past) s.id).1 in
            let same : i ≡ s.highest_index = ground arith in
            let up = next_index_above past s.id i v b h in
            elim (Bool-cases (ltb 1 (length past.markers))) [
              | inl more ↦ (
                (
                  (index, some rest, true),
                  record s {
                    highest_index = index;
                    referenced_markers = add_referenced lower s.referenced_markers index rest;
                  },
                ),
                rw (h, try_extend, extends, more) refl,
                inl (
                  extends,
                  record {
                    extended = refl;
                    new = is_new s past _ i v b h (omega arith);
                    remaining = rw more refl;
                    referencing = refl;
                  },
                ),
              )
              | inr one ↦ (
                ((index, none, true), record s { highest_index = index }),
                rw (h, try_extend, extends, one) refl,
                inl (
                  extends,
                  record {
                    extended = refl;
                    new = is_new s past _ i v b h (omega arith);
                    remaining = rw one refl;
                    referencing = refl;
                  },
                ),
              )
            ]
      ]

  -- IncreaseHighestIndex on past markers that contain the sequence with the index i, are valid and
  -- below the highest uint64, returns. If i is at least the sequence's highest index, then the
  -- highest index becomes one above all past markers and is returned, and the sequence is deleted
  -- from the caller's markers unless it was the only one. Otherwise it returns the highest index
  -- and changes nothing.
  pub increase_highest_index_lem :
      (s : S) (past : Markers) (i : ℕ)
      → IsValid past
      → past.highest_index + 1 < u64_mod
      → get past s.id ≡ some i
      → Returns
          (IncreasesOrStays s past (leb s.highest_index i))
          (increase_highest_index lower upper s past)
  unfolding increase_highest_index
  increase_highest_index_lem s past i v b h = elim (Bool-cases (leb s.highest_index i)) [
    | inr stays ↦ (
      ((s.highest_index, false, past), s),
      rw (h, increase_highest_index, stays) refl,
      inr (stays, refl),
    )
    | inl grows ↦
        let index : ℕ = next_index past.highest_index in
        let rest : Markers = (remove past s.id).1 in
        let up = next_index_above past s.id i v b h in
        elim (Bool-cases (ltb 1 (length past.markers))) [
          | inl more ↦ (
            (
              (index, true, rest),
              record s {
                highest_index = index;
                referenced_markers = add_referenced lower s.referenced_markers index rest;
              },
            ),
            rw (h, increase_highest_index, grows, more) refl,
            inl (grows, is_new s past _ i v b h (ground arith), refl, rw more refl),
          )
          | inr one ↦ (
            ((index, true, past), record s { highest_index = index }),
            rw (h, increase_highest_index, grows, one) refl,
            inl (grows, is_new s past _ i v b h (ground arith), refl, rw one refl),
          )
        ]
  ]
