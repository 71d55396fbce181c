-- ===== src/Markers/Sequence.antt =====
-- packages/core/markers/models.go: ReferencedMarkers, ReferencingMarkers and Sequence. Indexes are
-- uint64, whose successor wraps around. A ThresholdMap of the library is a parameter, one for each
-- mode of thresholdmap.New.
pub mod Extend
pub mod Referenced
use zipp.Base.{
  ℕ, ◌+◌, ◌-◌, ◌%◌, u64_mod, List, [], ◌∷◌, Option, none, some, Bool, true, false, length, ltb, leb,
  ◌==◌, ◌&&◌, ◌||◌, not, if◌then◌else◌, Result, ok, panic,
}
use zipp.Base.Assoc.{lookup, insert}
use zipp.Markers.Collection.{Marker, Markers, empty, get, set, remove, clone}

-- thresholdmap.New in one mode, Set and Get.
pub record ThresholdMaps : Type 1 where
  pub ThresholdMap : Type 0
  pub new : ThresholdMap
  pub put : ℕ → ℕ → ThresholdMap → ThresholdMap
  pub at : ThresholdMap → ℕ → Option ℕ

-- The next and the previous uint64.
abbrev pub next_index : ℕ → ℕ
next_index i = (i + 1) % u64_mod

abbrev pub previous_index : ℕ → ℕ
previous_index i = (i + (u64_mod - 1)) % u64_mod

pub record Sequence (L U : Type 0) : Type 0 where
  pub id : ℕ
  pub referenced_markers : List (ℕ × L)
  pub referencing_markers : List (ℕ × U)
  pub lowest_index : ℕ
  pub highest_index : ℕ

module _ (maps : ThresholdMaps) where
  -- ReferencedMarkers.Get and ReferencingMarkers.Get
  unfoldable pub collect : List (ℕ × maps.ThresholdMap) → ℕ → Markers → Markers
  unfolding set
  collect [] index found = found
  collect ((sequence_id, threshold_map) ∷ r) index found = elim (maps.at threshold_map index) [
    | some referenced ↦ collect r index (set found sequence_id referenced).2
    | none ↦ collect r index found
  ]

  unfoldable pub get_markers : List (ℕ × maps.ThresholdMap) → ℕ → Markers
  unfolding collect
  get_markers r index = collect r index empty

  -- The threshold map of a sequence, or a new one, with an entry added.
  unfoldable pub put_at : List (ℕ × maps.ThresholdMap) → ℕ → ℕ → ℕ → List (ℕ × maps.ThresholdMap)
  put_at r sequence_id threshold index = elim (lookup sequence_id r) [
    | some threshold_map ↦ insert sequence_id (maps.put threshold index threshold_map) r
    | none ↦ insert sequence_id (maps.put threshold index maps.new) r
  ]

  -- ReferencingMarkers.Add
  unfoldable pub add_referencing :
      List (ℕ × maps.ThresholdMap) → ℕ → Marker → List (ℕ × maps.ThresholdMap)
  unfolding put_at
  add_referencing r index marker = put_at r marker.sequence_id index marker.index

  -- ReferencedMarkers.Add, over the entries of the clone that ForEach makes.
  unfoldable pub add_all :
      List (ℕ × maps.ThresholdMap) → ℕ → List (ℕ × ℕ) → List (ℕ × maps.ThresholdMap)
  unfolding put_at
  add_all r index [] = r
  add_all r index ((sequence_id, referenced) ∷ l) =
      add_all (put_at r sequence_id index referenced) index l

  unfoldable pub add_referenced :
      List (ℕ × maps.ThresholdMap) → ℕ → Markers → List (ℕ × maps.ThresholdMap)
  unfolding add_all clone
  add_referenced r index referenced = add_all r index (clone referenced).markers

  -- The loop of NewReferencedMarkers, which overwrites.
  unfoldable pub start_all :
      List (ℕ × maps.ThresholdMap) → ℕ → List (ℕ × ℕ) → List (ℕ × maps.ThresholdMap)
  start_all r initial [] = r
  start_all r initial ((sequence_id, index) ∷ l) =
      start_all (insert sequence_id (maps.put initial index maps.new) r) initial l

  unfoldable pub new_referenced_markers : Markers → List (ℕ × maps.ThresholdMap)
  unfolding start_all clone
  new_referenced_markers referenced =
      start_all [] (next_index referenced.highest_index) (clone referenced).markers

module _ (lower upper : ThresholdMaps) where
  unfoldable pub new_sequence : ℕ → Markers → Sequence lower.ThresholdMap upper.ThresholdMap
  unfolding new_referenced_markers
  new_sequence id referenced =
      let next = next_index referenced.highest_index in
      let initial_index = if id == 0 then previous_index next else next in
      record {
        id = id;
        referenced_markers = new_referenced_markers lower referenced;
        referencing_markers = [];
        lowest_index = initial_index;
        highest_index = initial_index;
      }

  -- TryExtend: the index, the remaining past markers (none for nil), and whether it was extended.
  unfoldable pub try_extend :
      Sequence lower.ThresholdMap upper.ThresholdMap
      → Markers
      → (ℕ → ℕ → Bool)
      → Result ((ℕ × Option Markers × Bool) × Sequence lower.ThresholdMap upper.ThresholdMap)
  unfolding get remove clone add_referenced
  try_extend s referenced increase_index = elim (get referenced s.id) [
    | none ↦ panic
    | some referenced_index ↦
        let index = next_index referenced.highest_index in
        let remaining = (remove (clone referenced) s.id).1 in
        if (referenced_index == s.highest_index) && increase_index s.id referenced_index
        then (if ltb 1 (length referenced.markers)
            then ok (
              (index, some remaining, true),
              record s {
                highest_index = index;
                referenced_markers = add_referenced lower s.referenced_markers index remaining;
              },
            )
            else ok ((index, none, true), record s { highest_index = index }))
        else ok ((s.highest_index, none, false), s)
  ]

  -- IncreaseHighestIndex: the index, whether it was increased, and the caller's Markers, from which
  -- the sequence's own entry is deleted.
  unfoldable pub increase_highest_index :
      Sequence lower.ThresholdMap upper.ThresholdMap
      → Markers
      → Result ((ℕ × Bool × Markers) × Sequence lower.ThresholdMap upper.ThresholdMap)
  unfolding get remove add_referenced
  increase_highest_index s referenced = elim (get referenced s.id) [
    | none ↦ panic
    | some referenced_index ↦
        let index = next_index referenced.highest_index in
        let remaining = (remove referenced s.id).1 in
        if leb s.highest_index referenced_index
        then (if ltb 1 (length referenced.markers)
            then ok (
              (index, true, remaining),
              record s {
                highest_index = index;
                referenced_markers = add_referenced lower s.referenced_markers index remaining;
              },
            )
            else ok ((index, true, referenced), record s { highest_index = index }))
        else ok ((s.highest_index, false, referenced), s)
  ]

  unfoldable pub add_referencing_marker :
      Sequence lower.ThresholdMap upper.ThresholdMap
      → ℕ
      → Marker
      → Sequence lower.ThresholdMap upper.ThresholdMap
  unfolding add_referencing
  add_referencing_marker s index marker = record s {
    referencing_markers = add_referencing upper s.referencing_markers index marker;
  }
