-- ===== src/Markers/Sequence/Referenced.antt =====
-- What ReferencedMarkers.Get gives after ReferencedMarkers.Add and after NewReferencedMarkers.
use zipp.Base.{
  ℕ, ◌<◌, ◌≡◌, refl, sym, ap, ◌∙◌, inl, inr, List, [], ◌∷◌, Option, none, some, ◌==◌, if◌then◌else◌,
  arith, Bool-cases, Option-cases,
}
use zipp.Base.Assoc.{lookup, IsMap, lookup-insert, insert-IsMap}
use zipp.Markers.Collection.{Markers, empty, get, set, clone}
use zipp.Markers.Collection.Merge.{later, later-none, lookup-set, clone-IsMap, get-clone}
use zipp.Markers.Sequence.{ThresholdMaps, collect, get_markers, put_at, add_all, add_referenced}

-- A map in LowerThresholdMode: Get gives the value of the largest key that is at most the one asked
-- for, so that a new entry is found under its own key and is not seen below it.
pub record LowerThreshold (maps : ThresholdMaps) : Type 0 where
  pub at_key : (k v : ℕ) (m : maps.ThresholdMap) → maps.at (maps.put k v m) k ≡ some v
  pub at_below :
      (k v q : ℕ) (m : maps.ThresholdMap) → q < k → maps.at (maps.put k v m) q ≡ maps.at m q
  pub at_new : (q : ℕ) → maps.at maps.new q ≡ none

-- The first index, or else the second.
abbrev pub or_else : Option ℕ → Option ℕ → Option ℕ
or_else none j = j
or_else (some i) j = some i

module _ (maps : ThresholdMaps) where
  abbrev Referenced : Type 0
  Referenced = List (ℕ × maps.ThresholdMap)

  abbrev at_of : Option maps.ThresholdMap → ℕ → Option ℕ
  at_of none index = none
  at_of (some threshold_map) index = maps.at threshold_map index

  lookup-collect :
      (r : Referenced) (index : ℕ) (m : Markers) (k : ℕ)
      → IsMap r
      → lookup k (collect maps r index m).markers
        ≡ later (lookup k m.markers) (at_of (lookup k r) index)
  unfolding collect lookup
  lookup-collect [] index m k d = sym (later-none (lookup k m.markers))
  lookup-collect ((j, t) ∷ r) index m k d = elim (Option-cases (maps.at t index)) [
    | inl n ↦ rw (n, collect) (ground (arith, lookup-collect r index m k d.1, d.0))
    | inr (x, h) ↦
        let ih = lookup-collect r index (set m j x).2 k d.1 in
        elim (Bool-cases (j == k)) [
          | inl same ↦
              rw (h, collect)
                (ground (
                  arith,
                  ih,
                  lookup-set m j x k,
                  d.0,
                  later-none (later (lookup j m.markers) (some x)),
                ))
          | inr differs ↦ rw (h, collect) (ground (arith, ih, lookup-set m j x k))
        ]
  ]

  get-get_markers :
      (r : Referenced) (index k : ℕ)
      → IsMap r
      → get (get_markers maps r index) k ≡ at_of (lookup k r) index
  unfolding get get_markers lookup
  get-get_markers r index k d = lookup-collect r index empty k d

  put_at-IsMap : (r : Referenced) (j t x : ℕ) → IsMap r → IsMap (put_at maps r j t x)
  unfolding put_at
  put_at-IsMap r j t x d = elim (Option-cases (lookup j r)) [
    | inl n ↦ rw (n, put_at) (insert-IsMap j (maps.put t x maps.new) r d)
    | inr (m, h) ↦ rw (h, put_at) (insert-IsMap j (maps.put t x m) r d)
  ]

  add_all-IsMap : (r : Referenced) (t : ℕ) (l : List (ℕ × ℕ)) → IsMap r → IsMap (add_all maps r t l)
  unfolding add_all
  add_all-IsMap r t [] d = d
  add_all-IsMap r t ((j, x) ∷ l) d =
      add_all-IsMap (put_at maps r j t x) t l (put_at-IsMap r j t x d)

  module _ (laws : LowerThreshold maps) where
    at-put_at :
        (r : Referenced) (j t x k : ℕ)
        → at_of (lookup k (put_at maps r j t x)) t
          ≡ (if j == k then some x else at_of (lookup k r) t)
    unfolding put_at
    at-put_at r j t x k = elim (Option-cases (lookup j r)) [
      | inl n ↦
          rw (n, put_at)
            (ground (arith, lookup-insert j k (maps.put t x maps.new) r, laws.at_key t x maps.new))
      | inr (m, h) ↦
          rw (h, put_at) (ground (arith, lookup-insert j k (maps.put t x m) r, laws.at_key t x m))
    ]

    below-put_at :
        (r : Referenced) (j t x k q : ℕ)
        → q < t
        → at_of (lookup k (put_at maps r j t x)) q ≡ at_of (lookup k r) q
    unfolding put_at
    below-put_at r j t x k q h = elim (Option-cases (lookup j r)) [
      | inl n ↦
          rw (n, put_at)
            (ground (
              arith,
              lookup-insert j k (maps.put t x maps.new) r,
              laws.at_below t x q maps.new h,
              laws.at_new q,
            ))
      | inr (m, g) ↦
          rw (g, put_at)
            (ground (arith, lookup-insert j k (maps.put t x m) r, laws.at_below t x q m h))
    ]

    at-add_all :
        (r : Referenced) (t : ℕ) (l : List (ℕ × ℕ)) (k : ℕ)
        → IsMap l
        → at_of (lookup k (add_all maps r t l)) t ≡ or_else (lookup k l) (at_of (lookup k r) t)
    unfolding add_all lookup
    at-add_all r t [] k d = refl
    at-add_all r t ((j, x) ∷ l) k d = elim (Bool-cases (j == k)) [
      | inl same ↦
          ground (arith, at-add_all (put_at maps r j t x) t l k d.1, at-put_at r j t x k, d.0)
      | inr differs ↦
          ground (arith, at-add_all (put_at maps r j t x) t l k d.1, at-put_at r j t x k)
    ]

    below-add_all :
        (r : Referenced) (t : ℕ) (l : List (ℕ × ℕ)) (k q : ℕ)
        → q < t
        → at_of (lookup k (add_all maps r t l)) q ≡ at_of (lookup k r) q
    unfolding add_all
    below-add_all r t [] k q h = refl
    below-add_all r t ((j, x) ∷ l) k q h =
        below-add_all (put_at maps r j t x) t l k q h ∙ below-put_at r j t x k q h

    -- With threshold maps in LowerThresholdMode, after Add of markers under an index, Get of that
    -- index gives the added index of every sequence that has one and what it gave before for the
    -- others, and Get of a lower index gives what it gave before.
    pub get_markers-add_referenced :
        (r : Referenced) (index : ℕ) (added : Markers) (q k : ℕ)
        → IsMap r
        → IsMap added.markers
        → (get (get_markers maps (add_referenced maps r index added) index) k
            ≡ or_else (get added k) (get (get_markers maps r index) k))
          × (q < index
              → get (get_markers maps (add_referenced maps r index added) q) k
                ≡ get (get_markers maps r q) k)
    unfolding add_referenced
    get_markers-add_referenced r index added q k d e =
        let l = (clone added).markers in
        let f = add_all-IsMap r index l d in
        let same : lookup k l ≡ get added k = unfold get in get-clone added k e in
        (
          get-get_markers (add_all maps r index l) index k f
              ∙ at-add_all r index l k (clone-IsMap added)
              ∙ ap (λ o. or_else o (at_of (lookup k r) index)) same
              ∙ ap (or_else (get added k)) (sym (get-get_markers r index k d)),
          λ h.
              get-get_markers (add_all maps r index l) q k f
              ∙ below-add_all r index l k q h
              ∙ sym (get-get_markers r q k d),
        )
