-- ===== src/Schedulerutils/ElementHeap/Order.antt =====
-- The order of ElementHeap: what an access, a swap and the loops of container/heap keep.
use zipp.Base.{
  ℕ, zero, suc, ◌-◌, ◌/◌, ◌≤◌, ◌<◌, ◌≡◌, refl, ◌≢◌, true, false, List, ltb, ◌==◌, Option, none,
  some, length, get_elem?, set, ok, arith, SameItems, Returns, get_elem?-set, length-set,
  sum_by-set, get_elem?-lt, Bool-cases, inl, inr,
}
use zipp.Schedulerutils.ElementHeap.{Element, less, swap, up}

-- The issuing time at an index, and 0 past the end.
abbrev pub time_of : Option Element → ℕ
time_of none = 0
time_of (some e) = e.issuing_time

abbrev pub key : List Element → ℕ → ℕ
key h i = time_of (get_elem? h i)

pub less_lem :
    (h : List Element) (i j : ℕ)
    → i < length h
    → j < length h
    → less h i j ≡ ok (ltb (key h i) (key h j))
unfolding less
less_lem h i j p q =
    let (a, ha) = get_elem?-lt h i p in let (b, hb) = get_elem?-lt h j q in rw (ha, hb)

pub record IsSwap (h : List Element) (i j : ℕ) (h' : List Element) : Type 0 where
  pub size : length h' ≡ length h
  pub at :
      (k : ℕ)
      → get_elem? h' k ≡ (elim (j == k) [
        | true ↦ get_elem? h i
        | false ↦ elim (i == k) [ true ↦ get_elem? h j | false ↦ get_elem? h k ]
      ])
  pub same : SameItems h' h

swap-same :
    (h : List Element) (i j : ℕ) (a b : Element)
    → get_elem? h i ≡ some a
    → get_elem? h j ≡ some b
    → SameItems (set (set h i b) j a) h
swap-same h i j a b ha hb w =
    ground
      (arith, sum_by-set w h i b a ha, get_elem?-set h i j b a ha, sum_by-set w (set h i b) j a b)

pub swap_lem :
    (h : List Element) (i j : ℕ) → i < length h → j < length h → Returns (IsSwap h i j) (swap h i j)
unfolding swap
swap_lem h i j p q =
    let (a, ha) = get_elem?-lt h i p in
    let (b, hb) = get_elem?-lt h j q in
    (
      set (set h i b) j a,
      rw (ha, hb),
      record {
        size = rw (length-set (set h i b) j a) (length-set h i b);
        at = λ k. ground (
          arith,
          get_elem?-set h i j b a ha,
          get_elem?-set h i k b a ha,
          get_elem?-set (set h i b) j k a b,
          get_elem?-set (set h i b) j k a a,
        );
        same = swap-same h i j a b ha hb;
      },
    )

abbrev pub parent : ℕ → ℕ
parent c = (c - 1) / 2

-- The first `n` elements are in heap order.
abbrev pub IsHeapTo : ℕ → List Element → Type 0
IsHeapTo n h = (c : ℕ) → 0 < c → c < n → key h (parent c) ≤ key h c

-- Past `i`, from its parent to its children, the first `n` elements are in order.
abbrev pub IsBridged : ℕ → List Element → ℕ → Type 0
IsBridged n h i = (c : ℕ) → 0 < c → c < n → parent c ≡ i → 0 < i → key h (parent i) ≤ key h c

pub record UpInv (h : List Element) (i : ℕ) : Type 0 where
  pub inside : i < length h
  pub edges : (c : ℕ) → 0 < c → c < length h → c ≢ i → key h (parent c) ≤ key h c
  pub bridged : IsBridged (length h) h i

-- What `up` leaves behind: a heap of the same elements.
pub record IsRaised (h h' : List Element) : Type 0 where
  pub size : length h' ≡ length h
  pub order : IsHeapTo (length h') h'
  pub same : SameItems h' h

swap-UpInv :
    (h : List Element) (i : ℕ) (h' : List Element)
    → UpInv h i
    → 0 < i
    → key h i < key h (parent i)
    → IsSwap h (parent i) i h'
    → UpInv h' (parent i)
swap-UpInv h i h' v pos below s = record {
  inside = omega (arith, s.size, v.inside);
  edges = λ c p q r. ground (arith, s.size, s.at c, s.at (parent c), v.edges c, v.bridged c);
  bridged = λ c p q r t.
      ground (
        arith,
        s.size,
        s.at c,
        s.at (parent (parent i)),
        v.edges c,
        v.edges (parent i),
        v.bridged c,
      );
}

pub up_restores :
    (fuel : ℕ) (h : List Element) (i : ℕ)
    → i < fuel
    → UpInv h i
    → Returns (IsRaised h) (up fuel h i)
unfolding up
up_restores zero h i f v = absurd (omega arith)
up_restores (suc fuel) h i f v = elim (Bool-cases (parent i == i)) [
  | inl root ↦ (
    h,
    rw (root, up) refl,
    record { size = refl; order = λ c p q. ground (arith, v.edges c); same = λ w. refl },
  )
  | inr inner ↦
      let hp : parent i < length h = omega (arith, v.inside) in
      let pos : 0 < i = ground arith in
      elim (Bool-cases (ltb (key h i) (key h (parent i)))) [
        | inr settled ↦ (
          h,
          rw (inner, up, less_lem h i (parent i) v.inside hp, settled) refl,
          record { size = refl; order = λ c p q. ground (arith, v.edges c); same = λ w. refl },
        )
        | inl below ↦
            let (h', hs, s) = swap_lem h (parent i) i hp v.inside in
            let (r, hr, done) =
              up_restores fuel h' (parent i) (omega arith)
                (swap-UpInv h i h' v pos (ground arith) s) in
            (
              r,
              rw (inner, up, less_lem h i (parent i) v.inside hp, below, hs) hr,
              record {
                size = omega (arith, s.size, done.size);
                order = done.order;
                same = λ w. omega (arith, s.same w, done.same w);
              },
            )
      ]
]
