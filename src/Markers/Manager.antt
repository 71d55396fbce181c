-- ===== src/Markers/Manager.antt =====
-- packages/core/markers/manager.go: merging the parents' details, extending a sequence or creating
-- one, and the direct reference between markers. The object storage of sequences is a map, and a
-- sequence that it does not hold is not consumed.
pub mod Parents
pub mod References
pub mod Register
pub mod Sorted
pub mod Available
pub mod Create
use zipp.Base.{
  ℕ, ◌+◌, ◌-◌, ◌%◌, List, [], ◌∷◌, map, Option, none, some, Bool, true, false, ltb, leb, ◌==◌, ◌&&◌,
  if◌then◌else◌, Result, ok, panic, ◌>>=◌, u64_mod,
}
use zipp.Base.Assoc.{lookup, insert}
use zipp.Markers.Collection.{Marker, Markers, empty, get, clone, merge}
use zipp.Markers.Sequence.{
  ThresholdMaps, Sequence, next_index, new_sequence, try_extend, add_referencing_marker,
}

pub record StructureDetails : Type 0 where
  pub rank : ℕ
  pub past_marker_gap : ℕ
  pub is_past_marker : Bool
  pub past_markers : Markers

abbrev pub new_structure_details : StructureDetails
new_structure_details = record {
  rank = 0;
  past_marker_gap = 0;
  is_past_marker = false;
  past_markers = empty;
}

-- The loop of mergeParentStructureDetails.
unfoldable pub merge_all : List StructureDetails → StructureDetails → StructureDetails
unfolding merge
merge_all [] merged = merged
merge_all (parent ∷ parents) merged = merge_all parents (record merged {
  past_markers = merge merged.past_markers parent.past_markers;
  past_marker_gap =
      if ltb parent.past_marker_gap merged.past_marker_gap
      then parent.past_marker_gap
      else merged.past_marker_gap;
  rank = if ltb merged.rank parent.rank then parent.rank else merged.rank;
})

unfoldable pub merge_parent_structure_details : List StructureDetails → StructureDetails
unfolding merge_all
merge_parent_structure_details parents =
    let merged =
      merge_all parents (record new_structure_details { past_marker_gap = u64_mod - 1 }) in
    record merged {
      past_marker_gap = (merged.past_marker_gap + 1) % u64_mod;
      rank = (merged.rank + 1) % u64_mod;
    }

-- laterMarkerDirectlyReferencesEarlierMarkers
unfoldable pub directly_references : Marker → Markers → Bool → Bool
unfolding get
directly_references later earlier require_bigger =
    let lowest = if require_bigger then next_index earlier.lowest_index else earlier.lowest_index in
    if ltb later.index lowest then false else elim (get earlier later.sequence_id) [
      | none ↦ false
      | some index ↦ leb (if require_bigger then next_index index else index) later.index
    ]

-- The keys in descending order, as ForEachSorted sorts them.
unfoldable pub insert_sorted : ℕ → List ℕ → List ℕ
insert_sorted x [] = x ∷ []
insert_sorted x (y ∷ l) = if ltb x y then y ∷ insert_sorted x l else x ∷ y ∷ l

unfoldable pub sorted : List ℕ → List ℕ
unfolding insert_sorted
sorted [] = []
sorted (x ∷ l) = insert_sorted x (sorted l)

unfoldable pub sorted_ids : Markers → List ℕ
unfolding sorted clone
sorted_ids m = sorted (map (λ e. e.0) (clone m).markers)

module _ (lower upper : ThresholdMaps) where
  pub record Manager : Type 0 where
    pub sequences : List (ℕ × Sequence lower.ThresholdMap upper.ThresholdMap)
    pub sequence_id_counter : ℕ

  -- The loop of registerReferencingMarker.
  unfoldable pub register_all : Manager → List (ℕ × ℕ) → Marker → Manager
  unfolding add_referencing_marker
  register_all m [] marker = m
  register_all m ((sequence_id, index) ∷ l) marker = elim (lookup sequence_id m.sequences) [
    | none ↦ register_all m l marker
    | some s ↦
        register_all
          (record m {
            sequences =
                insert sequence_id (add_referencing_marker lower upper s index marker) m.sequences;
          })
          l marker
  ]

  -- registerReferencingMarker; ForEach does nothing on nil.
  unfoldable pub register_referencing_marker : Manager → Option Markers → Marker → Manager
  unfolding register_all clone
  register_referencing_marker m none marker = m
  register_referencing_marker m (some past) marker = register_all m (clone past).markers marker

  -- The loop of extendHighestAvailableSequence: the assigned marker, if one was.
  unfoldable pub extend_first :
      Manager → List ℕ → Markers → (ℕ → ℕ → Bool) → Result (Option Marker × Manager)
  unfolding try_extend register_referencing_marker
  extend_first m [] past increase_index = ok (none, m)
  extend_first m (sequence_id ∷ ids) past increase_index = elim (lookup sequence_id m.sequences) [
    | none ↦ extend_first m ids past increase_index
    | some s ↦ try_extend lower upper s past increase_index >>= (λ r.
        let stored : Manager = record m { sequences = insert sequence_id r.1 m.sequences } in
        let marker : Marker = record { sequence_id = sequence_id; index = r.0.0 } in
        let rest = extend_first stored ids past increase_index in
        if r.0.2 then ok (some marker, register_referencing_marker stored r.0.1 marker) else rest)
  ]

  unfoldable pub extend_highest_available_sequence :
      Manager → Markers → (ℕ → ℕ → Bool) → Result (Option Marker × Manager)
  unfolding extend_first sorted_ids
  extend_highest_available_sequence m past increase_index =
      extend_first m (sorted_ids past) past increase_index

  -- createSequenceIfNecessary: the first marker of the new sequence, if one was created.
  unfoldable pub create_sequence_if_necessary :
      Manager → ℕ → StructureDetails → Option Marker × Manager
  unfolding new_sequence register_referencing_marker
  create_sequence_if_necessary m max_past_marker_distance details =
      let id = next_index m.sequence_id_counter in
      let s = new_sequence lower upper id details.past_markers in
      let marker : Marker = record { sequence_id = id; index = s.lowest_index } in
      let stored : Manager = record {
        sequences = insert id s m.sequences;
        sequence_id_counter = id;
      } in
      if ltb details.past_marker_gap max_past_marker_distance
      then (none, m)
      else (some marker, register_referencing_marker stored (some details.past_markers) marker)
