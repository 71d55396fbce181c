-- ===== src/Markers/Manager/Create.antt =====
-- createSequenceIfNecessary: the sequence that it creates and its first marker.
use zipp.Base.{
  ℕ, ◌+◌, ◌%◌, ◌≤◌, ◌<◌, ◌≡◌, refl, ◌∙◌, ◌⊎◌, inl, inr, Option, none, some, false, ltb, ◌==◌, arith,
  Bool-cases, Option-cases, ==_refl, u64_mod,
}
use zipp.Base.Assoc.{lookup, insert, lookup-insert}
use zipp.Markers.Collection.{Marker, Markers, get}
use zipp.Markers.Collection.Bounds.{IsValid}
use zipp.Markers.Sequence.{ThresholdMaps, Sequence, new_sequence}
use zipp.Markers.Manager.{
  StructureDetails, Manager, register_referencing_marker, create_sequence_if_necessary,
}
use zipp.Markers.Manager.Register.{
  highest_of, IsConsistent, insert-IsConsistent, register_referencing_marker-IsConsistent,
  register_referencing_marker-counter, register_referencing_marker-highest_of,
}

module _ (lower upper : ThresholdMaps) where
  pub record Creates (m : Manager lower upper) (past : Markers)
      (r : Option Marker × Manager lower upper) : Type 0 where
    pub marker : Marker
    pub assigned : r.0 ≡ some marker
    pub fresh : lookup marker.sequence_id m.sequences ≡ none
    pub above : (k i : ℕ) → get past k ≡ some i → i < marker.index
    pub stored : highest_of lower upper r.1 marker.sequence_id ≡ some marker.index
    pub others :
        (k : ℕ)
        → (marker.sequence_id == k) ≡ false
        → highest_of lower upper r.1 k ≡ highest_of lower upper m k
    pub counter : r.1.sequence_id_counter ≡ marker.sequence_id
    pub consistent : IsConsistent lower upper r.1

  first : Manager lower upper → StructureDetails → Marker × Manager lower upper
  first m details =
      let id = (m.sequence_id_counter + 1) % u64_mod in
      let s = new_sequence lower upper id details.past_markers in
      (
        record { sequence_id = id; index = s.lowest_index },
        record { sequences = insert id s m.sequences; sequence_id_counter = id },
      )

  new_sequence_lem :
      (id : ℕ) (past : Markers)
      → 0 < id
      → past.highest_index + 1 < u64_mod
      → ((new_sequence lower upper id past).lowest_index ≡ past.highest_index + 1)
        × ((new_sequence lower upper id past).highest_index ≡ past.highest_index + 1)
        × ((new_sequence lower upper id past).id ≡ id)
  unfolding new_sequence
  new_sequence_lem id past p h = (ground arith, ground arith, refl)

  created :
      (m : Manager lower upper) (details : StructureDetails)
      → IsConsistent lower upper m
      → IsValid details.past_markers
      → m.sequence_id_counter + 1 < u64_mod
      → details.past_markers.highest_index + 1 < u64_mod
      → Creates m details.past_markers (
        some (first m details).0,
        register_referencing_marker lower upper
            (first m details).1
            (some details.past_markers)
            (first m details).0,
      )
  unfolding first
  created m details c v b h =
      let past : Markers = details.past_markers in
      let id : ℕ = (m.sequence_id_counter + 1) % u64_mod in
      let exact : id ≡ m.sequence_id_counter + 1 = omega arith in
      let s : Sequence lower.ThresholdMap upper.ThresholdMap = new_sequence lower upper id past in
      let (low, high, same) = new_sequence_lem id past (omega arith) h in
      record {
        marker = (first m details).0;
        assigned = refl;
        fresh = elim (Option-cases (lookup id m.sequences)) [
          | inl n ↦ n
          | inr (t, f) ↦ absurd (omega (arith, c.counted id t f))
        ];
        above = λ k i g. unfold get in omega (arith, low, v.highest k i g);
        stored =
            register_referencing_marker-highest_of lower upper _ (some past) _ id
            ∙ ground (arith, lookup-insert id id s m.sequences, ==_refl id, low, high);
        others = λ k n.
            register_referencing_marker-highest_of lower upper _ (some past) _ k
            ∙ ground (arith, lookup-insert id k s m.sequences);
        counter = register_referencing_marker-counter lower upper _ (some past) _;
        consistent =
            register_referencing_marker-IsConsistent lower upper _ (some past) _
              (insert-IsConsistent lower upper m id id s c same (omega arith) (omega arith));
      }

  -- With consistent sequences, a counter and valid past markers below the highest uint64,
  -- createSequenceIfNecessary does nothing if the past marker gap is below the configured distance.
  -- Otherwise it creates a sequence under an ID that was not in use, whose first marker is above
  -- all past markers and is its highest index; the other sequences keep their highest index, and
  -- the sequences stay consistent with the counter.
  pub create_sequence_if_necessary_lem :
      (m : Manager lower upper) (distance : ℕ) (details : StructureDetails)
      → IsConsistent lower upper m
      → IsValid details.past_markers
      → m.sequence_id_counter + 1 < u64_mod
      → details.past_markers.highest_index + 1 < u64_mod
      → ((details.past_marker_gap < distance)
          × (create_sequence_if_necessary lower upper m distance details ≡ (none, m)))
        ⊎ ((distance ≤ details.past_marker_gap)
            × Creates m details.past_markers
                (create_sequence_if_necessary lower upper m distance details))
  unfolding create_sequence_if_necessary first
  create_sequence_if_necessary_lem m distance details c v b h =
      elim (Bool-cases (ltb details.past_marker_gap distance)) [
        | inl near ↦ inl (ground arith, rw near refl)
        | inr far ↦ inr (ground arith, rw far (created m details c v b h))
      ]
