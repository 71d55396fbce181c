-- ===== src/Markers/Collection.antt =====
-- packages/core/markers/models.go: Markers, a collection with one Index per SequenceID. IDs and
-- indexes are numbers; the map is walked in the order of its association list.
pub mod Bounds
pub mod Validity
pub mod Merge
pub mod Equals
pub mod Refinement
use zipp.Base.{
  ℕ, ◌+◌, List, [], ◌∷◌, ◌++◌, map, Option, none, some, Bool, true, false, length, ltb, ◌==◌, ◌&&◌,
  ◌||◌, not, if◌then◌else◌, is_some, Result, ok, panic,
}
use zipp.Base.Assoc.{lookup, insert, delete}

pub record Marker : Type 0 where
  pub sequence_id : ℕ
  pub index : ℕ

pub record Markers : Type 0 where
  pub markers : List (ℕ × ℕ)
  pub highest_index : ℕ
  pub lowest_index : ℕ

abbrev pub empty : Markers
empty = record { markers = []; highest_index = 0; lowest_index = 0 }

-- One step of a search for the lowest index, in which 0 stands for none.
abbrev pub lower : ℕ → ℕ → ℕ
lower lowest scanned = if ltb scanned lowest || (lowest == 0) then scanned else lowest

abbrev pub higher : ℕ → ℕ → ℕ
higher highest scanned = if ltb highest scanned then scanned else highest

-- The scans of Set and Delete.
unfoldable pub scan_lowest : ℕ → List (ℕ × ℕ) → ℕ
scan_lowest lowest [] = lowest
scan_lowest lowest ((_, scanned) ∷ m) = scan_lowest (lower lowest scanned) m

unfoldable pub scan_highest : ℕ → List (ℕ × ℕ) → ℕ
scan_highest highest [] = highest
scan_highest highest ((_, scanned) ∷ m) = scan_highest (higher highest scanned) m

-- Get
unfoldable pub get : Markers → ℕ → Option ℕ
get m sequence_id = lookup sequence_id m.markers

-- Set of a sequence that is stored with another index.
unfoldable pub update : Markers → ℕ → ℕ → ℕ → Markers
unfolding scan_lowest
update m sequence_id index existing = record {
  markers = insert sequence_id index m.markers;
  highest_index = higher m.highest_index index;
  lowest_index =
      if existing == m.lowest_index
      then scan_lowest 0 (insert sequence_id index m.markers)
      else m.lowest_index;
}

-- Set: whether an entry was updated, and whether one was added.
unfoldable pub set : Markers → ℕ → ℕ → Bool × Bool × Markers
unfolding update
set m sequence_id index = elim (lookup sequence_id m.markers) [
  | some existing ↦
      if ltb existing index
      then (true, false, update m sequence_id index existing)
      else (false, false, record m { highest_index = higher m.highest_index index })
  | none ↦ (
    true,
    true,
    record {
      markers = insert sequence_id index m.markers;
      highest_index = higher m.highest_index index;
      lowest_index = lower m.lowest_index index;
    },
  )
]

-- What Delete leaves of an index.
abbrev pub cleared : ℕ → ℕ → ℕ
cleared bound existing = if existing == bound then 0 else bound

-- Delete: whether the sequence existed.
unfoldable pub remove : Markers → ℕ → Bool × Markers
unfolding scan_lowest scan_highest
remove m sequence_id = elim (lookup sequence_id m.markers) [
  | none ↦ (false, record m { markers = delete sequence_id m.markers })
  | some existing ↦
      let left = delete sequence_id m.markers in
      (
        true,
        if (existing == m.lowest_index) || (existing == m.highest_index)
            then record {
              markers = left;
              lowest_index = scan_lowest (cleared m.lowest_index existing) left;
              highest_index = scan_highest (cleared m.highest_index existing) left;
            }
            else record m { markers = left },
      )
]

-- `Set` for each entry of a map.
unfoldable pub set_all : List (ℕ × ℕ) → Markers → Markers
unfolding set
set_all [] m = m
set_all ((sequence_id, index) ∷ l) m = set_all l (set m sequence_id index).2

-- NewMarkers
unfoldable pub new_markers : List Marker → Markers
unfolding set_all
new_markers l = set_all (map (λ k. (k.sequence_id, k.index)) l) empty

-- Clone
unfoldable pub clone : Markers → Markers
unfolding set_all
clone m = set_all m.markers empty

-- Merge, over a clone of the other markers.
unfoldable pub merge : Markers → Markers → Markers
unfolding set_all clone
merge m other = set_all (clone other).markers m

-- Marker: the only entry.
unfoldable pub marker : Markers → Result Marker
marker m = only m.markers
  where
    only : List (ℕ × ℕ) → Result Marker
    only [] = panic
    only ((sequence_id, index) ∷ []) = ok (record { sequence_id = sequence_id; index = index })
    only (_ ∷ _ ∷ _) = panic

-- The loop of Equals.
unfoldable pub all_in : List (ℕ × ℕ) → Markers → Bool
unfolding get
all_in [] other = true
all_in ((sequence_id, index) ∷ l) other = elim (get other sequence_id) [
  | none ↦ false
  | some other_index ↦ (other_index == index) && all_in l other
]

-- Equals
unfoldable pub equals : Markers → Markers → Bool
unfolding all_in
equals m other = (length m.markers == length other.markers) && all_in m.markers other
