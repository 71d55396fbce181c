-- ===== src/Schedulerutils/ElementHeap/Down.antt =====
-- The order of ElementHeap: the sift towards the leaves, over the first `n` elements.
use zipp.Base.{
  ℕ, zero, suc, ◌+◌, ◌-◌, ◌*◌, ◌≤◌, ◌<◌, ◌≡◌, refl, ◌≢◌, List, ltb, leb, length, get_elem?, arith,
  SameItems, Returns, Bool-cases, inl, inr, ◌⊎◌,
}
use zipp.Schedulerutils.ElementHeap.{Element, down, smaller_child}
use zipp.Schedulerutils.ElementHeap.Order.{
  key, parent, less_lem, IsSwap, swap_lem, IsHeapTo, IsBridged,
}

pub record DownInv (n : ℕ) (h : List Element) (i : ℕ) : Type 0 where
  pub inside : n ≤ length h
  pub edges : (c : ℕ) → 0 < c → c < n → parent c ≢ i → key h (parent c) ≤ key h c
  pub bridged : IsBridged n h i

record IsSmallerChild (n : ℕ) (h : List Element) (i j : ℕ) : Type 0 where
  below : j < n
  pos : 0 < j
  child : parent j ≡ i
  least : (c : ℕ) → 0 < c → c < n → parent c ≡ i → key h j ≤ key h c

-- What `down` leaves behind: a heap of the first `n` elements, and the others untouched.
pub record IsLowered (n : ℕ) (h h' : List Element) : Type 0 where
  pub size : length h' ≡ length h
  pub order : IsHeapTo n h'
  pub same : SameItems h' h
  pub above : (k : ℕ) → n ≤ k → get_elem? h' k ≡ get_elem? h k

child_split : (i c : ℕ) → 0 < c → parent c ≡ i → (c ≡ 2 * i + 1) ⊎ (c ≡ 2 * i + 1 + 1)
child_split i c a e = grind arith

cases_child :
    (h : List Element) (i c : ℕ) {m : ℕ}
    → 0 < c
    → parent c ≡ i
    → m ≤ key h (2 * i + 1)
    → m ≤ key h (2 * i + 1 + 1)
    → m ≤ key h c
cases_child h i c a e x y = elim (child_split i c a e) [ inl l ↦ rw l x | inr r ↦ rw r y ]

smaller_child_lem :
    (n : ℕ) (h : List Element) (i : ℕ)
    → n ≤ length h
    → 2 * i + 1 < n
    → Returns (IsSmallerChild n h i) (smaller_child h i n)
unfolding smaller_child
smaller_child_lem n h i v p = elim (Bool-cases (ltb (2 * i + 1 + 1) n)) [
  | inr only ↦ (
    2 * i + 1,
    rw (only),
    record {
      below = p;
      pos = omega arith;
      child = omega arith;
      least = λ c a b e. let ec : c ≡ 2 * i + 1 = ground arith in ground arith;
    },
  )
  | inl both ↦
      let l = less_lem h (2 * i + 1 + 1) (2 * i + 1) (ground arith) (omega arith) in
      elim (Bool-cases (ltb (key h (2 * i + 1 + 1)) (key h (2 * i + 1)))) [
        | inl right ↦ (
          2 * i + 1 + 1,
          rw (both, l, right),
          record {
            below = ground arith;
            pos = omega arith;
            child = omega arith;
            least = λ c a b e. cases_child h i c a e (ground arith) (omega arith);
          },
        )
        | inr left ↦ (
          2 * i + 1,
          rw (both, l, left),
          record {
            below = ground arith;
            pos = omega arith;
            child = omega arith;
            least = λ c a b e. cases_child h i c a e (omega arith) (ground arith);
          },
        )
      ]
]

swap-DownInv :
    (n : ℕ) (h : List Element) (i j : ℕ) (h' : List Element)
    → DownInv n h i
    → IsSmallerChild n h i j
    → key h j < key h i
    → IsSwap h i j h'
    → DownInv n h' j
swap-DownInv n h i j h' v s below w = record {
  inside = omega (arith, w.size, v.inside);
  edges = λ c p q r. ground (arith, w.at c, w.at (parent c), v.edges c, v.bridged j, s.least c);
  bridged = λ c p q r t. ground (arith, w.at c, w.at (parent j), v.edges c);
}

pub down_restores :
    (fuel n : ℕ) (h : List Element) (i : ℕ)
    → n - i < fuel
    → DownInv n h i
    → Returns (IsLowered n h) (down fuel h i n)
unfolding down
down_restores zero n h i f v = absurd (omega arith)
down_restores (suc fuel) n h i f v = elim (Bool-cases (leb n (2 * i + 1))) [
  | inl leaf ↦ (
    h,
    rw (leaf, down) refl,
    record {
      size = refl;
      order = λ c p q. ground (arith, v.edges c);
      same = λ w. refl;
      above = λ k p. refl;
    },
  )
  | inr inner ↦
      let (j, hj, s) = smaller_child_lem n h i v.inside (ground arith) in
      let pj : j < length h = omega (arith, s.below, v.inside) in
      let pi : i < length h = omega (arith, s.below, s.pos, s.child, v.inside) in
      elim (Bool-cases (ltb (key h j) (key h i))) [
        | inr settled ↦ (
          h,
          rw (inner, down, hj, less_lem h j i pj pi, settled) refl,
          record {
            size = refl;
            order = λ c p q. ground (arith, v.edges c, s.least c);
            same = λ w. refl;
            above = λ k p. refl;
          },
        )
        | inl below ↦
            let (h', hs, w) = swap_lem h i j pi pj in
            let (r, hr, done) =
              down_restores fuel n h' j (omega (arith, s.below, s.pos, s.child))
                (swap-DownInv n h i j h' v s (ground arith) w) in
            (
              r,
              rw (inner, down, hj, less_lem h j i pj pi, below, hs) hr,
              record {
                size = omega (arith, w.size, done.size);
                order = done.order;
                same = λ u. omega (arith, w.same u, done.same u);
                above = λ k p. ground (arith, done.above k p, w.at k, s.below, s.pos, s.child);
              },
            )
      ]
]
