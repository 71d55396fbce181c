-- ===== src/Schedulerutils/ElementHeap/Contents.antt =====
-- heap.Push and heap.Pop on ElementHeap: the order and the elements.
use zipp.Base.{
  ℕ, zero, suc, ◌-◌, ◌≤◌, ◌<◌, ◌≡◌, List, ◌∷◌, [], ◌++◌, some, length, get_elem?, take, arith,
  SameItems, Returns, length-append, sum_by-append, get_elem?-append_left, get_elem?-take,
  sum_by-take_init, length-take_le, get_elem?-lt,
}
use zipp.Schedulerutils.ElementHeap.{Element, push, pop, push_last, pop_last}
use zipp.Schedulerutils.ElementHeap.Order.{
  key, parent, IsHeapTo, UpInv, up_restores, swap_lem, IsSwap,
}
use zipp.Schedulerutils.ElementHeap.Down.{DownInv, down_restores}

abbrev pub IsHeap : List Element → Type 0
IsHeap h = IsHeapTo (length h) h

push_last-UpInv :
    (h : List Element) (x : Element) → IsHeap h → UpInv (h ++ x ∷ []) (length (h ++ x ∷ []) - 1)
push_last-UpInv h x v =
    let l = length-append h (x ∷ []) in
    record {
      inside = omega (arith, l);
      edges = λ c p q r. ground (
        arith,
        l,
        v c,
        get_elem?-append_left h (x ∷ []) c,
        get_elem?-append_left h (x ∷ []) (parent c),
      );
      bridged = λ c p q r t. absurd (omega (arith, l));
    }

-- Push on a heap never panics: the result is a heap of the old elements and the new one.
pub push_lem :
    (h : List Element) (x : Element)
    → IsHeap h
    → Returns (λ h'. IsHeap h' × SameItems h' (x ∷ h)) (push h x)
unfolding push push_last
push_lem h x v =
    let (r, e, done) =
      up_restores (length (h ++ x ∷ [])) (h ++ x ∷ []) (length (h ++ x ∷ []) - 1)
        (omega (arith, length-append h (x ∷ []))) (push_last-UpInv h x v) in
    (r, e, (done.order, λ w. omega (arith, done.same w, sum_by-append w h (x ∷ []))))

root_least_below :
    (k : ℕ) (h : List Element) (i : ℕ) → IsHeap h → i < k → i < length h → key h 0 ≤ key h i
root_least_below zero h i v f p = absurd (omega arith)
root_least_below (suc k) h i v f p = ground (arith, v i, root_least_below k h (parent i) v)

-- No element of a heap is earlier than the root.
pub root_least : (h : List Element) (i : ℕ) → IsHeap h → i < length h → key h 0 ≤ key h i
root_least h i v p = root_least_below (suc i) h i v (omega arith) p

-- What Pop hands out and leaves behind.
pub record IsPop (h : List Element) (r : Element × List Element) : Type 0 where
  pub front : get_elem? h 0 ≡ some r.0
  pub same : SameItems (r.0 ∷ r.1) h
  pub order : IsHeap r.1
  pub earliest : (i : ℕ) → i < length h → r.0.issuing_time ≤ key h i

pop_rest : (h h' : List Element) (n : ℕ) → length h' ≡ suc n → IsHeapTo n h' → IsHeap (take n h')
pop_rest h h' n l v c p q =
    let lt : c < n = omega (arith, length-take_le n h') in
    ground (arith, get_elem?-take n h' c, get_elem?-take n h' (parent c), v c)

swapped_root-DownInv :
    (h : List Element) (n : ℕ) (h' : List Element)
    → IsHeap h
    → suc n ≡ length h
    → IsSwap h 0 n h'
    → DownInv n h' 0
swapped_root-DownInv h n h' v e w = record {
  inside = omega (arith, w.size);
  edges = λ c a b r. ground (arith, w.at c, w.at (parent c), v c);
  bridged = λ c a b r t. absurd (omega arith);
}

-- Pop on a heap that is not empty never panics: it takes off the root, no element of the heap
-- is earlier, and what is left is a heap of the other elements.
pub pop_lem : (h : List Element) → IsHeap h → 0 < length h → Returns (IsPop h) (pop h)
unfolding pop pop_last
pop_lem h v p =
    let n = length h - 1 in
    let (e, he) = get_elem?-lt h 0 p in
    let (h1, hs, w) = swap_lem h 0 n p (omega arith) in
    let (h2, hd, done) =
      down_restores (suc n) n h1 0 (omega arith) (swapped_root-DownInv h n h1 v (omega arith) w) in
    let last : get_elem? h2 n ≡ some e = ground (arith, done.above n, w.at n) in
    let size : length h2 ≡ suc n = omega (arith, done.size, w.size) in
    (
      (e, take n h2),
      ground (arith, size, last),
      record {
        front = he;
        same = λ u. omega (arith, done.same u, w.same u, sum_by-take_init u h2 n e size last);
        order = pop_rest h h2 n size done.order;
        earliest = λ i q. ground (arith, root_least h i v q);
      },
    )
