-- ===== src/Markers/Manager/References.antt =====
-- laterMarkerDirectlyReferencesEarlierMarkers against the index of the marker's own sequence.
use zipp.Base.{
  ℕ, ◌+◌, ◌≤◌, ◌<◌, ◌≡◌, ◌↔◌, inl, inr, some, Bool, true, false, if◌then◌else◌, arith, Option-cases,
  u64_mod,
}
use zipp.Markers.Collection.{Marker, Markers, get}
use zipp.Markers.Collection.Bounds.{IsValid}
use zipp.Markers.Manager.{directly_references}

-- The earlier markers have an index of the later marker's sequence that is at most, or below, the
-- later one.
abbrev pub IsReferenced : Marker → Markers → Bool → Type 0
IsReferenced later earlier require_bigger =
    (i : ℕ) × (get earlier later.sequence_id ≡ some i)
    × ((if require_bigger then i + 1 else i) ≤ later.index)

-- The test against the lowest index only saves the lookup: for valid earlier markers below the
-- highest uint64, laterMarkerDirectlyReferencesEarlierMarkers returns true exactly if they have an
-- index of the later marker's sequence that is at most the later marker's index, or below it if
-- bigger markers are required.
pub directly_references_iff :
    (later : Marker) (earlier : Markers) (require_bigger : Bool)
    → IsValid earlier
    → earlier.highest_index + 1 < u64_mod
    → (directly_references later earlier require_bigger ≡ true)
      ↔ IsReferenced later earlier require_bigger
unfolding directly_references get
directly_references_iff later earlier true v b =
    elim (Option-cases (get earlier later.sequence_id)) [
      | inl n ↦ (
        λ h. absurd (unfold get in ground arith),
        λ (i, h, le). absurd (unfold get in ground arith),
      )
      | inr (i, h) ↦ (
        λ t. (
          i,
          h,
          unfold get in ground (arith, v.highest later.sequence_id i, v.lowest later.sequence_id i),
        ),
        λ (j, g, le).
            unfold get in
            ground (arith, v.highest later.sequence_id i, v.lowest later.sequence_id i),
      )
    ]
directly_references_iff later earlier false v b =
    elim (Option-cases (get earlier later.sequence_id)) [
      | inl n ↦ (
        λ h. absurd (unfold get in ground arith),
        λ (i, h, le). absurd (unfold get in ground arith),
      )
      | inr (i, h) ↦ (
        λ t. (
          i,
          h,
          unfold get in ground (arith, v.highest later.sequence_id i, v.lowest later.sequence_id i),
        ),
        λ (j, g, le).
            unfold get in
            ground (arith, v.highest later.sequence_id i, v.lowest later.sequence_id i),
      )
    ]
