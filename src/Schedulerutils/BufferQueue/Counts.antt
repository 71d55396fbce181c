-- ===== src/Schedulerutils/BufferQueue/Counts.antt =====
-- The counts of BufferQueue, taken in a round over the ring, against its size.
use zipp.Base.{
  ℕ, suc, ◌+◌, ◌≡◌, refl, sym, ap, ◌∙◌, List, [], ◌∷◌, Option, none, some, true, false, length,
  arith, elem, IsDistinct, foldl, sum_by, ok, Result, is_some, some_of, ==_refl, sum_by-one,
}
use zipp.Base.Assoc.{
  lookup, delete, IsMap, sum_values, sum_values-delete, lookup-delete, delete-IsMap,
}
use zipp.Schedulerutils.NodeQueue.{NodeQueue}
use zipp.Schedulerutils.BufferQueue.{
  BufferQueue, total_blocks_count, ready_blocks_count, round, current, head_queue,
}
use zipp.Schedulerutils.BufferQueue.Round.{queues_of, walk_reads}
use zipp.Schedulerutils.BufferQueue.Longest.{queues_of-hit}
use zipp.Schedulerutils.BufferQueue.Validity.{IsValid, queue_size}

queues_of-delete :
    (m : List (ℕ × NodeQueue)) (x : ℕ) (xs : List ℕ)
    → elem x xs ≡ false
    → queues_of (delete x m) xs ≡ queues_of m xs
queues_of-delete m x [] h = refl
queues_of-delete m x (y ∷ xs) h = ground (arith, lookup-delete x y m, queues_of-delete m x xs)

no_entries :
    (w : NodeQueue → ℕ) (m : List (ℕ × NodeQueue))
    → ((k : ℕ) → false ≡ is_some (lookup k m))
    → sum_values w m ≡ 0
unfolding lookup
no_entries w [] h = refl
no_entries w ((k, v) ∷ m) h = ground (arith, h k, ==_refl k)

-- A sum over the ring is the sum over the map.
sum_by-queues_of :
    (w : NodeQueue → ℕ) (m : List (ℕ × NodeQueue)) (xs : List ℕ)
    → IsMap m
    → IsDistinct xs
    → ((k : ℕ) → elem k xs ≡ is_some (lookup k m))
    → sum_by w (queues_of m xs) ≡ sum_values w m
sum_by-queues_of w m [] v d h = sym (no_entries w m h)
sum_by-queues_of w m (x ∷ xs) v d h =
    let (q, f) = some_of (lookup x m) (sym (h x) ∙ ground arith) in
    let rest =
      sum_by-queues_of w (delete x m) xs (delete-IsMap x m v) d.1
        (λ k. ground (arith, h k, d.0, lookup-delete x k m)) in
    omega (
      arith,
      ap (sum_by w) (queues_of-hit m x xs q f),
      ap (sum_by w) (queues_of-delete m x xs d.0),
      rest,
      sum_values-delete w x q m v f,
    )

foldl-count :
    (w : NodeQueue → ℕ) (f : ℕ → NodeQueue → ℕ)
    → ((n : ℕ) (q : NodeQueue) → f n q ≡ n + w q)
    → (n : ℕ) (qs : List NodeQueue) → foldl f n qs ≡ n + sum_by w qs
foldl-count w f e n [] = omega arith
foldl-count w f e n (q ∷ qs) = omega (arith, foldl-count w f e (f n q) qs, e n q)

count_round :
    (w : NodeQueue → ℕ) (f : ℕ → NodeQueue → ℕ)
    → ((n : ℕ) (q : NodeQueue) → f n q ≡ n + w q)
    → (b : BufferQueue) (x : ℕ) (xs : List ℕ) → IsValid b
    → b.ring ≡ x ∷ xs
    → round f 0 b ≡ ok (sum_values w b.active_node, b)
unfolding round
count_round w f e b x xs v r =
    walk_reads f 0 b v.distinct (λ k m. sym (v.active k) ∙ m) x xs r
    ∙ ap (λ n. ok (n, b))
        (foldl-count w f e 0 (queues_of b.active_node b.ring)
          ∙ omega (arith, sum_by-queues_of w b.active_node b.ring v.keys v.distinct v.active))

current-nil : (b : BufferQueue) → b.ring ≡ [] → current b ≡ none
unfolding current head_queue
current-nil b r = ap (head_queue b.active_node) r

pub current-cons :
    (b : BufferQueue) (x : ℕ) (xs : List ℕ)
    → IsValid b
    → b.ring ≡ x ∷ xs
    → (q : NodeQueue) × (lookup x b.active_node ≡ some q) × (current b ≡ some q)
unfolding current head_queue
current-cons b x xs v r =
    let (q, h) =
      some_of (lookup x b.active_node) (sym (v.active x) ∙ ap (elem x) r ∙ ground arith) in
    (q, h, ap (head_queue b.active_node) r ∙ h)

-- A count with the test for an empty ring.
counted :
    (w : NodeQueue → ℕ) (f : ℕ → NodeQueue → ℕ)
    → ((n : ℕ) (q : NodeQueue) → f n q ≡ n + w q)
    → (b : BufferQueue) → IsValid b
    → (ring : List ℕ) → b.ring ≡ ring
    → (c : Option NodeQueue) → current b ≡ c
    → (elim c as (λ _. Result (ℕ × BufferQueue)) [ none ↦ ok (0, b) | some _ ↦ round f 0 b ])
      ≡ ok (sum_values w b.active_node, b)
counted w f e b v [] r none h =
    ap (λ n. ok (n, b)) (sym (no_entries w b.active_node (λ k. ap (elem k) (sym r) ∙ v.active k)))
counted w f e b v [] r (some q) h = ground (arith, current-nil b r, h)
counted w f e b v (x ∷ xs) r none h =
    let (q, _, g) = current-cons b x xs v r in ground (arith, g, h)
counted w f e b v (x ∷ xs) r (some q) h = count_round w f e b x xs v r

length-queues_of :
    (m : List (ℕ × NodeQueue)) (xs : List ℕ)
    → ((k : ℕ) → elem k xs ≡ true → is_some (lookup k m) ≡ true)
    → length (queues_of m xs) ≡ length xs
length-queues_of m [] h = refl
length-queues_of m (x ∷ xs) h =
    let (q, f) = some_of (lookup x m) (h x (ground arith)) in
    ap length (queues_of-hit m x xs q f)
    ∙ ap suc (length-queues_of m xs (λ k e. h k (ground arith)))

-- The ring is as long as the map of active nodes is large.
pub length-active_node : (b : BufferQueue) → IsValid b → length b.active_node ≡ length b.ring
length-active_node b v = omega (
  arith,
  sum_by-one b.active_node,
  sum_by-queues_of (λ _. 1) b.active_node b.ring v.keys v.distinct v.active,
  sum_by-one (queues_of b.active_node b.ring),
  length-queues_of b.active_node b.ring (λ k m. sym (v.active k) ∙ m),
)

queue_sizes :
    (m : List (ℕ × NodeQueue))
    → ((k : ℕ) (q : NodeQueue) → lookup k m ≡ some q → q.size ≡ length q.submitted + length q.inbox)
    → IsMap m
    → sum_values (λ q. length q.inbox + length q.submitted) m ≡ sum_values queue_size m
unfolding lookup
queue_sizes [] h d = refl
queue_sizes ((k, q) ∷ m) h d =
    omega (arith, h k q (ground arith), queue_sizes m (λ j p f. h j p (ground (arith, d.0, f))) d.1)

-- TotalBlocksCount of a valid buffer never panics: it returns the buffer's size, and the round
-- over the ring leaves the buffer as it was.
pub total_blocks_count-size : (b : BufferQueue) → IsValid b → total_blocks_count b ≡ ok (b.size, b)
unfolding total_blocks_count
total_blocks_count-size b v =
    counted (λ q. length q.inbox + length q.submitted)
      (λ n q. n + length q.inbox + length q.submitted) (λ n q. omega arith) b v b.ring refl
      (current b) refl
    ∙ ap (λ n. ok (n, b))
        (queue_sizes b.active_node (λ k q h. (v.queues k q h).count) v.keys ∙ sym v.count)

-- ReadyBlocksCount counts the inboxes of all active nodes.
pub ready_blocks_count-sum :
    (b : BufferQueue)
    → IsValid b
    → ready_blocks_count b ≡ ok (sum_values (λ q. length q.inbox) b.active_node, b)
unfolding ready_blocks_count
ready_blocks_count-sum b v =
    counted (λ q. length q.inbox) (λ n q. n + length q.inbox) (λ n q. refl) b v b.ring refl
      (current b) refl
