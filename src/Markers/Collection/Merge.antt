-- ===== src/Markers/Collection/Merge.antt =====
-- What Set, Clone, Merge and Delete do to the index of each sequence.
use zipp.Base.{
  ℕ, ◌≡◌, refl, sym, ap, ◌∙◌, inl, inr, List, [], ◌∷◌, Option, none, some, ◌||◌, ltb, ◌==◌,
  if◌then◌else◌, arith, Bool-cases, Option-cases,
}
use zipp.Base.Assoc.{lookup, IsMap, lookup-insert, lookup-delete, insert-IsMap}
use zipp.Markers.Collection.{Markers, empty, update, set, set_all, clone, merge, get, remove}

-- The higher of two indexes, of which each may be missing.
abbrev pub later : Option ℕ → Option ℕ → Option ℕ
later none j = j
later (some i) none = some i
later (some i) (some j) = some (if ltb i j then j else i)

pub later-none : (i : Option ℕ) → later i none ≡ i
later-none none = refl
later-none (some i) = refl

later_assoc : (i j k : Option ℕ) → later (later i j) k ≡ later i (later j k)
later_assoc none j k = refl
later_assoc (some i) none k = refl
later_assoc (some i) (some j) none = refl
later_assoc (some i) (some j) (some k) = ground arith

pub later_comm : (i j : Option ℕ) → later i j ≡ later j i
later_comm none none = refl
later_comm none (some j) = refl
later_comm (some i) none = refl
later_comm (some i) (some j) = ground arith

pub lookup-set :
    (m : Markers) (j x k : ℕ)
    → lookup k (set m j x).2.markers
      ≡ (if j == k then later (lookup j m.markers) (some x) else lookup k m.markers)
unfolding set update
lookup-set m j x k = elim (Option-cases (lookup j m.markers)) [
  | inl n ↦ rw (n, set) (lookup-insert j k x m.markers)
  | inr (e, h) ↦ elim (Bool-cases (ltb e x)) [
    | inl more ↦ rw (h, set, more) (ground (arith, lookup-insert j k x m.markers))
    | inr less ↦ rw (h, set, less) (ground arith)
  ]
]

pub set-IsMap : (m : Markers) (j x : ℕ) → IsMap m.markers → IsMap (set m j x).2.markers
unfolding set update
set-IsMap m j x d = elim (Option-cases (lookup j m.markers)) [
  | inl n ↦ rw (n, set) (insert-IsMap j x m.markers d)
  | inr (e, h) ↦ elim (Bool-cases (ltb e x)) [
    | inl more ↦ rw (h, set, more) (insert-IsMap j x m.markers d)
    | inr less ↦ rw (h, set, less) d
  ]
]

set_all-IsMap : (l : List (ℕ × ℕ)) (m : Markers) → IsMap m.markers → IsMap (set_all l m).markers
unfolding set_all
set_all-IsMap [] m d = d
set_all-IsMap ((j, x) ∷ l) m d = set_all-IsMap l (set m j x).2 (set-IsMap m j x d)

pub lookup-set_all :
    (l : List (ℕ × ℕ)) (m : Markers) (k : ℕ)
    → IsMap l
    → lookup k (set_all l m).markers ≡ later (lookup k m.markers) (lookup k l)
unfolding set_all lookup
lookup-set_all [] m k d = sym (later-none (lookup k m.markers))
lookup-set_all ((j, x) ∷ l) m k d =
    let ih = lookup-set_all l (set m j x).2 k d.1 in
    elim (Bool-cases (j == k)) [
      | inl same ↦
          ground
            (arith, ih, lookup-set m j x k, d.0, later-none (later (lookup j m.markers) (some x)))
      | inr differs ↦ ground (arith, ih, lookup-set m j x k)
    ]

pub clone-IsMap : (m : Markers) → IsMap (clone m).markers
unfolding clone
clone-IsMap m = set_all-IsMap m.markers empty tt

pub merge-IsMap : (m other : Markers) → IsMap m.markers → IsMap (merge m other).markers
unfolding merge
merge-IsMap m other d = set_all-IsMap (clone other).markers m d

-- A clone has the same index of every sequence.
pub get-clone : (m : Markers) (k : ℕ) → IsMap m.markers → get (clone m) k ≡ get m k
unfolding get clone lookup
get-clone m k d = lookup-set_all m.markers empty k d

-- After Merge, every sequence has the higher of the two indexes that the two collections had for
-- it, if their maps have no key twice.
pub merge_lem :
    (m other : Markers) (k : ℕ)
    → IsMap other.markers
    → get (merge m other) k ≡ later (get m k) (get other k)
unfolding get merge
merge_lem m other k d =
    lookup-set_all (clone other).markers m k (clone-IsMap other)
    ∙ ap (later (lookup k m.markers)) (unfold get in get-clone other k d)

pub get-remove : (m : Markers) (j k : ℕ) → get (remove m j).1 k ≡ (if j == k then none else get m k)
unfolding get remove
get-remove m j k = elim (Option-cases (lookup j m.markers)) [
  | inl n ↦ rw (n, remove) (lookup-delete j k m.markers)
  | inr (e, h) ↦ elim (Bool-cases ((e == m.lowest_index) || (e == m.highest_index))) [
    | inl bound ↦ rw (h, remove, bound) (lookup-delete j k m.markers)
    | inr inner ↦ rw (h, remove, inner) (lookup-delete j k m.markers)
  ]
]
