-- ===== src/Markers/Manager/Sorted.antt =====
-- The order in which ForEachSorted goes through the sequences.
use zipp.Base.{
  ℕ, ◌≤◌, ◌≡◌, refl, ap, ◌∙◌, inl, inr, List, [], ◌∷◌, map, true, is_some, ltb, elem, arith,
  Bool-cases,
}
use zipp.Base.Assoc.{lookup, IsMap}
use zipp.Markers.Collection.{Markers, get, clone}
use zipp.Markers.Collection.Merge.{get-clone}
use zipp.Markers.Manager.{insert_sorted, sorted, sorted_ids}

abbrev pub IsDescending : List ℕ → Type 0
IsDescending [] = Unit
IsDescending (x ∷ l) = ((k : ℕ) → elem k l ≡ true → k ≤ x) × IsDescending l

elem-insert_sorted : (k x : ℕ) (l : List ℕ) → elem k (insert_sorted x l) ≡ (elem k (x ∷ l))
unfolding insert_sorted
elem-insert_sorted k x [] = refl
elem-insert_sorted k x (y ∷ l) = ground (arith, elem-insert_sorted k x l)

insert_sorted-IsDescending :
    (x : ℕ) (l : List ℕ) → IsDescending l → IsDescending (insert_sorted x l)
unfolding insert_sorted
insert_sorted-IsDescending x [] d = (λ k h. ground arith, tt)
insert_sorted-IsDescending x (y ∷ l) d = elim (Bool-cases (ltb x y)) [
  | inl less ↦
      rw less
        (λ k h. ground (arith, elem-insert_sorted k x l, d.0 k), insert_sorted-IsDescending x l d.1)
  | inr more ↦ rw more (λ k h. ground (arith, d.0 k), d)
]

sorted-IsDescending : (l : List ℕ) → IsDescending (sorted l)
unfolding sorted
sorted-IsDescending [] = tt
sorted-IsDescending (x ∷ l) = insert_sorted-IsDescending x (sorted l) (sorted-IsDescending l)

elem-sorted : (k : ℕ) (l : List ℕ) → elem k (sorted l) ≡ elem k l
unfolding sorted
elem-sorted k [] = refl
elem-sorted k (x ∷ l) = elem-insert_sorted k x (sorted l) ∙ ground (arith, elem-sorted k l)

elem-keys : (k : ℕ) (l : List (ℕ × ℕ)) → elem k (map (λ e. e.0) l) ≡ is_some (lookup k l)
unfolding lookup
elem-keys k [] = refl
elem-keys k ((j, x) ∷ l) = ground (arith, elem-keys k l)

-- ForEachSorted goes through the sequences of the markers in descending order.
pub sorted_ids-IsDescending : (m : Markers) → IsDescending (sorted_ids m)
unfolding sorted_ids
sorted_ids-IsDescending m = sorted-IsDescending (map (λ e. e.0) (clone m).markers)

pub elem-sorted_ids :
    (m : Markers) (k : ℕ) → IsMap m.markers → elem k (sorted_ids m) ≡ is_some (get m k)
unfolding sorted_ids
elem-sorted_ids m k d =
    elem-sorted k (map (λ e. e.0) (clone m).markers)
    ∙ elem-keys k (clone m).markers
    ∙ ap is_some (unfold get in get-clone m k d)
