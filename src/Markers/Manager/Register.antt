-- ===== src/Markers/Manager/Register.antt =====
-- registerReferencingMarker leaves the indexes of all sequences as they are.
use zipp.Base.{
  ℕ, ◌≤◌, ◌≡◌, refl, ◌∙◌, inl, inr, List, [], ◌∷◌, Option, none, some, arith, Option-cases,
}
use zipp.Base.Assoc.{lookup, insert, lookup-insert, insert_all}
use zipp.Markers.Collection.{Marker, Markers, clone}
use zipp.Markers.Sequence.{ThresholdMaps, Sequence, add_referencing_marker}
use zipp.Markers.Manager.{Manager, register_all, register_referencing_marker}

module _ (lower upper : ThresholdMaps) where
  abbrev M : Type 0
  M = Manager lower upper

  abbrev highest_in : Option (Sequence lower.ThresholdMap upper.ThresholdMap) → Option ℕ
  highest_in none = none
  highest_in (some s) = some s.highest_index

  -- The highest index of a sequence.
  abbrev pub highest_of : M → ℕ → Option ℕ
  highest_of m k = highest_in (lookup k m.sequences)

  register_all-highest_of :
      (m : M) (l : List (ℕ × ℕ)) (marker : Marker) (k : ℕ)
      → highest_of (register_all lower upper m l marker) k ≡ highest_of m k
  unfolding register_all
  register_all-highest_of m [] marker k = refl
  register_all-highest_of m ((j, x) ∷ l) marker k = elim (Option-cases (lookup j m.sequences)) [
    | inl n ↦ rw (n, register_all) (register_all-highest_of m l marker k)
    | inr (s, h) ↦
        rw (h, register_all)
          (register_all-highest_of
              (record m {
                sequences = insert j (add_referencing_marker lower upper s x marker) m.sequences;
              })
              l marker k
            ∙ same s h)
  ]
    where
      same :
          (s : Sequence lower.ThresholdMap upper.ThresholdMap)
          → lookup j m.sequences ≡ some s
          → highest_in
              (lookup k (insert j (add_referencing_marker lower upper s x marker) m.sequences))
            ≡ highest_of m k
      same s h =
          unfold add_referencing_marker in
          ground
            (arith, lookup-insert j k (add_referencing_marker lower upper s x marker) m.sequences)

  pub register_referencing_marker-highest_of :
      (m : M) (past : Option Markers) (marker : Marker) (k : ℕ)
      → highest_of (register_referencing_marker lower upper m past marker) k ≡ highest_of m k
  unfolding register_referencing_marker
  register_referencing_marker-highest_of m none marker k = refl
  register_referencing_marker-highest_of m (some past) marker k =
      register_all-highest_of m (clone past).markers marker k

  register_all-counter :
      (m : M) (l : List (ℕ × ℕ)) (marker : Marker)
      → (register_all lower upper m l marker).sequence_id_counter ≡ m.sequence_id_counter
  unfolding register_all
  register_all-counter m [] marker = refl
  register_all-counter m ((j, x) ∷ l) marker = elim (Option-cases (lookup j m.sequences)) [
    | inl n ↦ rw (n, register_all) (register_all-counter m l marker)
    | inr (s, h) ↦
        rw (h, register_all)
          (register_all-counter
            (record m {
              sequences = insert j (add_referencing_marker lower upper s x marker) m.sequences;
            })
            l marker)
  ]

  pub register_referencing_marker-counter :
      (m : M) (past : Option Markers) (marker : Marker)
      → (register_referencing_marker lower upper m past marker).sequence_id_counter
        ≡ m.sequence_id_counter
  unfolding register_referencing_marker
  register_referencing_marker-counter m none marker = refl
  register_referencing_marker-counter m (some past) marker =
      register_all-counter m (clone past).markers marker

  -- Every sequence is stored under its ID, which is at most the counter.
  pub record IsConsistent (m : M) : Type 0 where
    pub stored :
        (k : ℕ) (s : Sequence lower.ThresholdMap upper.ThresholdMap)
        → lookup k m.sequences ≡ some s
        → s.id ≡ k
    pub counted :
        (k : ℕ) (s : Sequence lower.ThresholdMap upper.ThresholdMap)
        → lookup k m.sequences ≡ some s
        → k ≤ m.sequence_id_counter

  -- A write of a sequence under its ID, which the new counter covers.
  pub insert-IsConsistent :
      (m : M) (j c : ℕ) (s : Sequence lower.ThresholdMap upper.ThresholdMap)
      → IsConsistent m
      → s.id ≡ j
      → j ≤ c
      → m.sequence_id_counter ≤ c
      → IsConsistent (record { sequences = insert j s m.sequences; sequence_id_counter = c })
  insert-IsConsistent m j c s v e b le = record {
    stored = insert_all (λ k t. t.id ≡ k) j s m.sequences e v.stored;
    counted = insert_all (λ k t. k ≤ c) j s m.sequences b (λ k t h. omega (arith, v.counted k t h));
  }

  register_all-IsConsistent :
      (m : M) (l : List (ℕ × ℕ)) (marker : Marker)
      → IsConsistent m
      → IsConsistent (register_all lower upper m l marker)
  unfolding register_all
  register_all-IsConsistent m [] marker v = v
  register_all-IsConsistent m ((j, x) ∷ l) marker v = elim (Option-cases (lookup j m.sequences)) [
    | inl n ↦ rw (n, register_all) (register_all-IsConsistent m l marker v)
    | inr (s, h) ↦
        rw (h, register_all)
          (register_all-IsConsistent
            (record m {
              sequences = insert j (add_referencing_marker lower upper s x marker) m.sequences;
            })
            l marker
            (insert-IsConsistent m j m.sequence_id_counter
              (add_referencing_marker lower upper s x marker) v
              (unfold add_referencing_marker in v.stored j s h) (v.counted j s h) (omega arith)))
  ]

  -- registerReferencingMarker keeps the sequences under their IDs and within the counter.
  pub register_referencing_marker-IsConsistent :
      (m : M) (past : Option Markers) (marker : Marker)
      → IsConsistent m
      → IsConsistent (register_referencing_marker lower upper m past marker)
  unfolding register_referencing_marker
  register_referencing_marker-IsConsistent m none marker v = v
  register_referencing_marker-IsConsistent m (some past) marker v =
      register_all-IsConsistent m (clone past).markers marker v
