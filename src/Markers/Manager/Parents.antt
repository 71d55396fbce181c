-- ===== src/Markers/Manager/Parents.antt =====
-- mergeParentStructureDetails against the details of the parents.
use zipp.Base.{
  false, ℕ, ◌+◌, ◌-◌, ◌%◌, ◌≤◌, ◌<◌, ◌≡◌, refl, ap, ◌∙◌, ◌⊎◌, inl, inr, List, [], ◌∷◌, Option, none,
  ◌==◌, arith, Bool-cases, All, u64_mod,
}
use zipp.Base.Assoc.{lookup, IsMap}
use zipp.Markers.Collection.{get}
use zipp.Markers.Collection.Merge.{later, merge_lem}
use zipp.Markers.Manager.{
  StructureDetails, new_structure_details, merge_all, merge_parent_structure_details,
}

-- The latest index of a sequence in the past of any parent.
abbrev pub latest : Option ℕ → List StructureDetails → ℕ → Option ℕ
latest found [] k = found
latest found (parent ∷ parents) k = latest (later found (get parent.past_markers k)) parents k

record Merges (start : StructureDetails) (parents : List StructureDetails)
    (merged : StructureDetails) : Type 0 where
  rank_start : start.rank ≤ merged.rank
  rank_all : All (λ p. p.rank ≤ merged.rank) parents
  rank_below : (n : ℕ) → start.rank < n → All (λ p. p.rank < n) parents → merged.rank < n
  gap_start : merged.past_marker_gap ≤ start.past_marker_gap
  gap_all : All (λ p. merged.past_marker_gap ≤ p.past_marker_gap) parents
  gap_above :
      (n : ℕ)
      → n ≤ start.past_marker_gap
      → All (λ p. n ≤ p.past_marker_gap) parents
      → n ≤ merged.past_marker_gap
  past : (k : ℕ) → get merged.past_markers k ≡ latest (get start.past_markers k) parents k

All-mapped {ℓ κ μ} :
    {A : Type ℓ} {P : A → Type κ} {Q : A → Type μ}
    → ((a : A) → P a → Q a)
    → (l : List A) → All P l
    → All Q l
All-mapped f [] p = tt
All-mapped f (x ∷ l) p = (f x p.0, All-mapped f l p.1)

merge_all_lem :
    (parents : List StructureDetails) (start : StructureDetails)
    → All (λ p. IsMap p.past_markers.markers) parents
    → Merges start parents (merge_all parents start)
unfolding merge_all
merge_all_lem [] start d = record {
  rank_start = omega arith;
  rank_all = tt;
  rank_below = λ n h a. h;
  gap_start = omega arith;
  gap_all = tt;
  gap_above = λ n h a. h;
  past = λ k. refl;
}
merge_all_lem (parent ∷ parents) start d =
    let ih = merge_all_lem parents _ d.1 in
    record {
      rank_start = ground (arith, ih.rank_start);
      rank_all = (ground (arith, ih.rank_start), ih.rank_all);
      rank_below = λ n h a. ih.rank_below n (ground (arith, a.0)) a.1;
      gap_start = ground (arith, ih.gap_start);
      gap_all = (ground (arith, ih.gap_start), ih.gap_all);
      gap_above = λ n h a. ih.gap_above n (ground (arith, a.0)) a.1;
      past = λ k.
          ih.past k
          ∙ ap (λ o. latest o parents k) (merge_lem start.past_markers parent.past_markers k d.0);
    }

-- The details that a child of the parents inherits before markers are assigned.
pub record IsMerged (parents : List StructureDetails) (merged : StructureDetails) : Type 0 where
  pub rank_above : All (λ p. p.rank < merged.rank) parents
  pub rank_least : (n : ℕ) → 0 < n → All (λ p. p.rank < n) parents → merged.rank ≤ n
  pub gap_bound : All (λ p. merged.past_marker_gap ≤ p.past_marker_gap + 1) parents
  pub gap_above :
      (n : ℕ)
      → n < u64_mod - 1
      → All (λ p. n ≤ p.past_marker_gap) parents
      → ((merged.past_marker_gap ≡ 0) × All (λ p. u64_mod - 1 ≤ p.past_marker_gap) parents)
        ⊎ (n < merged.past_marker_gap)
  pub past : (k : ℕ) → get merged.past_markers k ≡ latest none parents k

-- With parents whose ranks are below the highest uint64 and whose markers have no sequence twice,
-- the merged rank is the least positive number above the ranks of all parents; the merged gap is at
-- most one more than the gap of each parent, and above every number below the highest uint64 that
-- is at most all their gaps, unless it is 0 and no parent's gap is below the highest uint64; and the
-- merged past markers have the latest index of every sequence in the past of a parent.
pub merge_parent_structure_details_lem :
    (parents : List StructureDetails)
    → All (λ p. IsMap p.past_markers.markers) parents
    → All (λ p. p.rank < u64_mod - 1) parents
    → IsMerged parents (merge_parent_structure_details parents)
unfolding merge_parent_structure_details get lookup
merge_parent_structure_details_lem parents d b =
    let start : StructureDetails = record new_structure_details { past_marker_gap = u64_mod - 1 } in
    let m = merge_all_lem parents start d in
    let small : (merge_all parents start).rank < u64_mod - 1 =
      m.rank_below (u64_mod - 1) (omega arith) b in
    record {
      rank_above = All-mapped (λ p h. omega (arith, h, small)) parents m.rank_all;
      rank_least = λ n h a. omega (arith, m.rank_below n h a, small);
      gap_bound = All-mapped (λ p h. omega (arith, h)) parents m.gap_all;
      gap_above = λ n h a.
          elim (Bool-cases ((merge_all parents start).past_marker_gap == (u64_mod - 1))) [
            | inl top ↦
                let g : (merge_all parents start).past_marker_gap ≡ u64_mod - 1 =
                  ground (arith, top) in
                inl (rw g refl, All-mapped (λ p h. omega (arith, h, g)) parents m.gap_all)
            | inr below ↦ inr (
                wrapped n (merge_all parents start).past_marker_gap (m.gap_above n (omega arith) a)
                  m.gap_start below)
          ];
      past = m.past;
    }
  where
    wrapped :
        (n g : ℕ) → n ≤ g → g ≤ u64_mod - 1 → (g == (u64_mod - 1)) ≡ false → n < (g + 1) % u64_mod
    wrapped n g h le below = ground arith
