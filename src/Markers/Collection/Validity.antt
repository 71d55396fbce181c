-- ===== src/Markers/Collection/Validity.antt =====
-- Set, Delete, Clone and Merge keep the bounds.
use zipp.Base.{
  ℕ, ◌<◌, ◌≡◌, ◌∙◌, ◌⊎◌, inl, inr, List, [], ◌∷◌, some, false, ltb, ◌==◌, ◌||◌, arith, Bool-cases,
  Option-cases, ==_refl,
}
use mathlib.Core.Path.{subst}
use zipp.Base.Assoc.{
  lookup, insert, delete, IsMap, lookup-insert, lookup-delete, delete_absent, insert-IsMap,
  delete-IsMap,
}
use zipp.Markers.Collection.{
  Markers, empty, lower, higher, scan_lowest, scan_highest, update, set, remove, set_all, clone,
  merge, cleared,
}
use zipp.Markers.Collection.Bounds.{
  IsAttained, IsValid, empty-IsValid, AllPositive, Scans, tail_positive, scan_lowest_lem,
  scan_highest_lem, scanned,
}

kept-IsAttained :
    (n k i : ℕ) (l : List (ℕ × ℕ))
    → 0 < n
    → ((e : ℕ) → lookup k l ≡ some e → e ≡ n → i ≡ n)
    → IsAttained n l
    → IsAttained n (insert k i l)
kept-IsAttained n k i l p fresh (inl (e, z)) = absurd (omega arith)
kept-IsAttained n k i l p fresh (inr (j, h)) = elim (Bool-cases (k == j)) [
  | inr differs ↦ inr (j, ground (arith, lookup-insert k j i l))
  | inl same ↦ inr (k, ground (arith, lookup-insert k k i l, ==_refl k, fresh n))
]

new-IsAttained : (k i : ℕ) (l : List (ℕ × ℕ)) → IsAttained i (insert k i l)
new-IsAttained k i l = inr (k, ground (arith, lookup-insert k k i l, ==_refl k))

insert-AllPositive :
    (k i : ℕ) (l : List (ℕ × ℕ)) → 0 < i → AllPositive l → AllPositive (insert k i l)
insert-AllPositive k i l p a j x h = ground (arith, lookup-insert k j i l, a j x)

-- An entry makes both bounds positive.
attained_positive :
    (m : Markers) (k i : ℕ)
    → IsValid m
    → lookup k m.markers ≡ some i
    → (0 < m.lowest_index) × (0 < m.highest_index)
attained_positive m k i v h =
    (low v.lowest_attained, omega (arith, v.highest k i h, v.positive k i h))
  where
    low : IsAttained m.lowest_index m.markers → 0 < m.lowest_index
    low (inl (e, z)) = unfold lookup in ground arith
    low (inr (j, at)) = v.positive j m.lowest_index at

lower-IsAttained :
    (m : Markers) (k i : ℕ)
    → IsValid m
    → 0 < i
    → ((e : ℕ) → lookup k m.markers ≡ some e → i ≡ e)
    → IsAttained (lower m.lowest_index i) (insert k i m.markers)
lower-IsAttained m k i v p fresh =
    elim (Bool-cases (ltb i m.lowest_index || (m.lowest_index == 0))) [
      | inl new ↦ rw new (new-IsAttained k i m.markers)
      | inr old ↦ rw old (
          kept-IsAttained m.lowest_index k i m.markers (ground arith) (λ e h g. fresh e h ∙ g)
            v.lowest_attained)
    ]

higher-IsAttained :
    (m : Markers) (k i : ℕ)
    → IsValid m
    → 0 < i
    → ((e : ℕ) → lookup k m.markers ≡ some e → e < i)
    → IsAttained (higher m.highest_index i) (insert k i m.markers)
higher-IsAttained m k i v p above = elim (Bool-cases (ltb m.highest_index i)) [
  | inl new ↦ rw new (new-IsAttained k i m.markers)
  | inr old ↦ rw old (
      kept-IsAttained m.highest_index k i m.markers (ground arith)
        (λ e h g. absurd (ground (arith, above e h))) v.highest_attained)
]

-- Set of a positive index keeps Markers valid: there is one index for each sequence, all are
-- positive, and LowestIndex and HighestIndex are the lowest and the highest of them, or 0 if there
-- are none.
pub set-IsValid : (m : Markers) (k i : ℕ) → IsValid m → 0 < i → IsValid (set m k i).2
unfolding set update
set-IsValid m k i v p = elim (Option-cases (lookup k m.markers)) [
  | inl n ↦
      rw (n, set)
        (record {
          keys = insert-IsMap k i m.markers v.keys;
          positive = insert-AllPositive k i m.markers p v.positive;
          lowest = λ j x h. elim (Bool-cases (k == j)) [
            | inl same ↦ ground (arith, lookup-insert k j i m.markers)
            | inr differs ↦
                let old : lookup j m.markers ≡ some x =
                  ground (arith, lookup-insert k j i m.markers) in
                ground (arith, v.lowest j x old, (attained_positive m j x v old).0)
          ];
          highest = λ j x h. ground (arith, lookup-insert k j i m.markers, v.highest j x);
          lowest_attained = lower-IsAttained m k i v p (λ e h. ground arith);
          highest_attained = higher-IsAttained m k i v p (λ e h. ground arith);
        })
  | inr (e, h) ↦ elim (Bool-cases (ltb e i)) [
    | inl more ↦
        let positives = insert-AllPositive k i m.markers p v.positive in
        let keys' = insert-IsMap k i m.markers v.keys in
        let scan = scan_lowest_lem 0 (insert k i m.markers) keys' positives in
        rw (h, set, more)
          (record {
            keys = keys';
            positive = positives;
            lowest = λ j x g. elim (Bool-cases (e == m.lowest_index)) [
              | inl least ↦ rw least (scan.bound j x g)
              | inr above ↦
                  rw above
                    (ground (arith, lookup-insert k j i m.markers, v.lowest j x, v.lowest k e))
            ];
            highest = λ j x g. ground (arith, lookup-insert k j i m.markers, v.highest j x);
            lowest_attained = elim (Bool-cases (e == m.lowest_index)) [
              | inl least ↦
                  rw least
                    (scanned (insert k i m.markers) (scan_lowest 0 (insert k i m.markers)) scan)
              | inr above ↦ rw above (
                  kept-IsAttained m.lowest_index k i m.markers (attained_positive m k e v h).0
                    (λ d g f. ground arith) v.lowest_attained)
            ];
            highest_attained = higher-IsAttained m k i v p (λ d g. ground arith);
          })
    | inr less ↦
        rw (h, set, less)
          (record {
            keys = v.keys;
            positive = v.positive;
            lowest = v.lowest;
            highest = λ j x g. ground (arith, v.highest j x, v.highest k e);
            lowest_attained = v.lowest_attained;
            highest_attained =
                subst (λ b. IsAttained b m.markers) (ground (arith, v.highest k e))
                  v.highest_attained;
          })
  ]
]

-- A bound after Delete: it starts the scan as 0, or as what another entry holds.
abbrev StartsAt : ℕ → List (ℕ × ℕ) → Type 0
StartsAt n l = (n ≡ 0) ⊎ ((k : ℕ) × (lookup k l ≡ some n))

cleared-StartsAt :
    (n k e : ℕ) (l : List (ℕ × ℕ))
    → lookup k l ≡ some e
    → IsAttained n l
    → StartsAt (cleared n e) (delete k l)
cleared-StartsAt n k e l h (inl (f, z)) = ground arith
cleared-StartsAt n k e l h (inr (j, g)) = elim (Bool-cases (e == n)) [
  | inl gone ↦ inl (ground arith)
  | inr kept ↦ inr (j, ground (arith, lookup-delete k j l))
]

scan-IsAttained :
    {below : ℕ → ℕ → Type 0} (n : ℕ) (l : List (ℕ × ℕ)) (r : ℕ)
    → StartsAt n l
    → Scans below n l r
    → IsAttained r l
scan-IsAttained n l r (inr (k, h)) s = elim s.found [
  | inl (same, _) ↦ inr (k, ground arith)
  | inr at ↦ inr at
]
scan-IsAttained n l r (inl z) s = elim s.found [
  | inl (same, inl seen) ↦ absurd (omega arith)
  | inl (same, inr none_left) ↦ inl (none_left, ground arith)
  | inr at ↦ inr at
]

remaining-IsAttained :
    (n k e : ℕ) (l : List (ℕ × ℕ))
    → 0 < n
    → lookup k l ≡ some e
    → (e == n) ≡ false
    → IsAttained n l
    → IsAttained n (delete k l)
remaining-IsAttained n k e l p h f (inl (g, z)) = absurd (omega arith)
remaining-IsAttained n k e l p h f (inr (j, at)) = inr (j, ground (arith, lookup-delete k j l))

-- Delete keeps Markers valid: LowestIndex and HighestIndex are the lowest and the highest index of
-- what is left, or 0 if nothing is.
pub remove-IsValid : (m : Markers) (k : ℕ) → IsValid m → IsValid (remove m k).1
unfolding remove
remove-IsValid m k v =
    let left : List (ℕ × ℕ) = delete k m.markers in
    let keys' : IsMap left = delete-IsMap k m.markers v.keys in
    let kept : (j i : ℕ) → lookup j left ≡ some i → lookup j m.markers ≡ some i =
      λ j i h. ground (arith, lookup-delete k j m.markers) in
    let positives : AllPositive left = λ j i h. v.positive j i (kept j i h) in
    elim (Option-cases (lookup k m.markers)) [
      | inl n ↦ rw (n, remove, delete_absent k m.markers n) v
      | inr (e, h) ↦ elim (Bool-cases ((e == m.lowest_index) || (e == m.highest_index))) [
        | inl bound ↦
            let low = scan_lowest_lem (cleared m.lowest_index e) left keys' positives in
            let high = scan_highest_lem (cleared m.highest_index e) left keys' positives in
            rw (h, remove, bound)
              (record {
                keys = keys';
                positive = positives;
                lowest = low.bound;
                highest = high.bound;
                lowest_attained =
                    scan-IsAttained (cleared m.lowest_index e) left
                      (scan_lowest (cleared m.lowest_index e) left)
                      (cleared-StartsAt m.lowest_index k e m.markers h v.lowest_attained) low;
                highest_attained =
                    scan-IsAttained (cleared m.highest_index e) left
                      (scan_highest (cleared m.highest_index e) left)
                      (cleared-StartsAt m.highest_index k e m.markers h v.highest_attained) high;
              })
        | inr inner ↦
            let (low, high) = attained_positive m k e v h in
            rw (h, remove, inner)
              (record {
                keys = keys';
                positive = positives;
                lowest = λ j i g. v.lowest j i (kept j i g);
                highest = λ j i g. v.highest j i (kept j i g);
                lowest_attained =
                    remaining-IsAttained m.lowest_index k e m.markers low h (ground arith)
                      v.lowest_attained;
                highest_attained =
                    remaining-IsAttained m.highest_index k e m.markers high h (ground arith)
                      v.highest_attained;
              })
      ]
    ]

-- Set of each entry of a map of positive indexes keeps the bounds.
pub set_all-IsValid :
    (l : List (ℕ × ℕ)) (m : Markers) → IsMap l → AllPositive l → IsValid m → IsValid (set_all l m)
unfolding set_all
set_all-IsValid [] m d p v = v
set_all-IsValid ((j, x) ∷ l) m d p v =
    let (px, pl) = tail_positive j x l d p in
    set_all-IsValid l (set m j x).2 d.1 pl (set-IsValid m j x v px)

-- Merge of valid Markers into valid Markers leaves valid Markers: the bounds are right.
pub merge-IsValid : (m other : Markers) → IsValid m → IsValid other → IsValid (merge m other)
unfolding merge clone
merge-IsValid m other v w =
    let cloned = set_all-IsValid other.markers empty w.keys w.positive empty-IsValid in
    set_all-IsValid (clone other).markers m cloned.keys cloned.positive v
