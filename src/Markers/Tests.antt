-- ===== src/Markers/Tests.antt =====
-- Markers, sequences and a manager at concrete inputs.
use zipp.Base.{
  ℕ, ◌≤◌, ◌<◌, ◌≡◌, refl, ◌↔◌, ◌⊎◌, inl, inr, List, [], ◌∷◌, Option, none, some, Bool, true, false,
  ltb, leb, ◌==◌, ◌&&◌, if◌then◌else◌, Returns, arith, Option-cases,
}
use zipp.Base.Assoc.{lookup, insert, delete}
use zipp.Markers.Collection.{Markers, empty, get, set, remove, clone, scan_lowest, scan_highest}
use zipp.Markers.Collection.Bounds.{IsValid, empty-IsValid}
use zipp.Markers.Collection.Validity.{set-IsValid, remove-IsValid}
use zipp.Markers.Collection.Refinement.{Refines, markers-Refines}
use zipp.Markers.Sequence.{ThresholdMaps, Sequence, get_markers, add_referenced, try_extend}
use zipp.Markers.Sequence.Extend.{ExtendsOrStays, try_extend_lem}
use zipp.Markers.Sequence.Referenced.{LowerThreshold, or_else, get_markers-add_referenced}
use zipp.Markers.Manager.{
  StructureDetails, Manager, merge_parent_structure_details, directly_references,
  create_sequence_if_necessary,
}
use zipp.Markers.Manager.Parents.{IsMerged, merge_parent_structure_details_lem}
use zipp.Markers.Manager.References.{IsReferenced, directly_references_iff}
use zipp.Markers.Manager.Register.{IsConsistent}
use zipp.Markers.Manager.Create.{Creates, create_sequence_if_necessary_lem}

-- A threshold map as the list of its entries, the newest first: the entry with the largest key that
-- is at most the one asked for.
unfoldable floor : List (ℕ × ℕ) → ℕ → Option (ℕ × ℕ)
floor [] q = none
floor ((k, v) ∷ m) q = elim (floor m q) [
  | none ↦ if leb k q then some (k, v) else none
  | some e ↦ if leb k q then (if ltb k e.0 then some e else some (k, v)) else some e
]

floor_le : (m : List (ℕ × ℕ)) (q : ℕ) (e : ℕ × ℕ) → floor m q ≡ some e → e.0 ≤ q
unfolding floor
floor_le [] q e h = ground arith
floor_le ((k, v) ∷ m) q e h = elim (Option-cases (floor m q)) [
  | inl n ↦ ground arith
  | inr (f, g) ↦ ground (arith, floor_le m q f g)
]

unfoldable at_floor : List (ℕ × ℕ) → ℕ → Option ℕ
unfolding floor
at_floor m q = elim (floor m q) [ none ↦ none | some e ↦ some e.1 ]

abbrev lower_maps : ThresholdMaps
lower_maps = record {
  ThresholdMap = List (ℕ × ℕ);
  new = [];
  put = λ k v m. (k, v) ∷ m;
  at = at_floor;
}

lower_maps_lem : LowerThreshold lower_maps
unfolding at_floor floor
lower_maps_lem = record {
  at_key = λ k v m. elim (Option-cases (floor m k)) [
    | inl n ↦ rw (n, floor) (ground arith)
    | inr (e, h) ↦ rw (h, floor) (ground (arith, floor_le m k e h))
  ];
  at_below = λ k v q m less. elim (Option-cases (floor m q)) [
    | inl n ↦ rw (n, floor) (ground arith)
    | inr (e, h) ↦ rw (h, floor) (ground arith)
  ];
  at_new = λ q. refl;
}

-- Sequence 1 at index 5 and sequence 2 at index 3.
abbrev one : Markers
one = record { markers = (1, 5) ∷ []; highest_index = 5; lowest_index = 5 }

abbrev two : Markers
two = record { markers = (1, 5) ∷ (2, 3) ∷ []; highest_index = 5; lowest_index = 3 }

one-IsValid : IsValid one
unfolding set lookup insert
one-IsValid = set-IsValid empty 1 5 empty-IsValid (omega arith)

two-IsValid : IsValid two
unfolding set lookup insert
two-IsValid = set-IsValid one 2 3 one-IsValid (omega arith)

set-IsValid_example : IsValid (set one 2 3).2
set-IsValid_example = set-IsValid one 2 3 one-IsValid (omega arith)

remove-IsValid_example : IsValid (remove two 2).1
remove-IsValid_example = remove-IsValid two 2 two-IsValid

remove-two : (remove two 2).1 ≡ one
unfolding remove lookup delete scan_lowest scan_highest
remove-two = refl

-- A marker with the index 0 is taken for no lowest index: it is lost once another is set.
set_zero : (set (set empty 0 0).2 1 5).2.lowest_index ≡ 5
unfolding set lookup insert
set_zero = refl

markers-Refines_example : Refines two
markers-Refines_example = markers-Refines two two-IsValid

-- Sequence 1 with its highest index 5, and sequence 2 with 4.
abbrev S : Type 0
S = Sequence (List (ℕ × ℕ)) (List (ℕ × ℕ))

abbrev first : S
first = record {
  id = 1;
  referenced_markers = [];
  referencing_markers = [];
  lowest_index = 1;
  highest_index = 5;
}

abbrev second : S
second = record {
  id = 2;
  referenced_markers = [];
  referencing_markers = [];
  lowest_index = 1;
  highest_index = 4;
}

abbrev agree : ℕ → ℕ → Bool
agree k i = true

try_extend_lem_example :
    Returns
      (ExtendsOrStays lower_maps lower_maps first two ((5 == first.highest_index) && agree 1 5))
      (try_extend lower_maps lower_maps first two agree)
try_extend_lem_example =
    try_extend_lem lower_maps lower_maps first two agree 5 two-IsValid (omega arith)
      (unfold get lookup in refl)

try_extend_first :
    Returns (λ r. (r.0.0 ≡ 6) × (r.0.2 ≡ true)) (try_extend lower_maps lower_maps first two agree)
unfolding try_extend get lookup remove clone
try_extend_first = (_, refl, (refl, refl))

get_markers-add_referenced_example :
    (get (get_markers lower_maps (add_referenced lower_maps [] 6 one) 6) 1
      ≡ or_else (get one 1) (get (get_markers lower_maps [] 6) 1))
    × (5 < 6
        → get (get_markers lower_maps (add_referenced lower_maps [] 6 one) 5) 1
          ≡ get (get_markers lower_maps [] 5) 1)
get_markers-add_referenced_example =
    get_markers-add_referenced lower_maps lower_maps_lem [] 6 one 5 1 tt one-IsValid.keys

abbrev parents : List StructureDetails
parents =
    record { rank = 3; past_marker_gap = 2; is_past_marker = false; past_markers = one }
    ∷ record { rank = 7; past_marker_gap = 0; is_past_marker = true; past_markers = two }
    ∷ []

merge_parent_structure_details_lem_example :
    IsMerged parents (merge_parent_structure_details parents)
merge_parent_structure_details_lem_example =
    merge_parent_structure_details_lem parents (one-IsValid.keys, (two-IsValid.keys, tt))
      (omega arith, (omega arith, tt))

directly_references_iff_example :
    (directly_references (record { sequence_id = 2; index = 4 }) two true ≡ true)
    ↔ IsReferenced (record { sequence_id = 2; index = 4 }) two true
directly_references_iff_example =
    directly_references_iff (record { sequence_id = 2; index = 4 }) two true two-IsValid
      (omega arith)

abbrev manager : Manager lower_maps lower_maps
manager = record { sequences = (1, first) ∷ (2, second) ∷ []; sequence_id_counter = 2 }

manager-IsConsistent : IsConsistent lower_maps lower_maps manager
unfolding lookup
manager-IsConsistent = record { stored = λ k s h. ground arith; counted = λ k s h. ground arith }

abbrev details : StructureDetails
details = record { rank = 8; past_marker_gap = 30; is_past_marker = false; past_markers = two }

create_sequence_if_necessary_lem_example :
    ((30 < 30)
      × (create_sequence_if_necessary lower_maps lower_maps manager 30 details ≡ (none, manager)))
    ⊎ ((30 ≤ 30)
        × Creates lower_maps lower_maps manager two
            (create_sequence_if_necessary lower_maps lower_maps manager 30 details))
create_sequence_if_necessary_lem_example =
    create_sequence_if_necessary_lem lower_maps lower_maps manager 30 details manager-IsConsistent
      two-IsValid (omega arith) (omega arith)
