-- ===== src/Schedulerutils/BufferQueue.antt =====
-- packages/core/mesh_old/schedulerutils/bufferqueue.go: BufferQueue, the queues of all active nodes
-- behind a ring. A ring element is written by its node ID and the ring as the list of them that
-- starts at `b.ring`; the NodeQueue behind an element is kept once, in `active_node`. A round over
-- the ring takes fuel, whose end is a panic. maxQueue is stored and never read, and is left out.
pub mod Round
pub mod Waiting
pub mod Validity
pub mod Longest
pub mod Drop
pub mod Submit
pub mod Counts
pub mod Removal
use zipp.Base.{
  ℕ, zero, suc, ◌+◌, ◌-◌, List, [], ◌∷◌, ◌++◌, Option, none, some, Bool, true, false, length, ltb,
  ◌==◌, if◌then◌else◌, Result, ok, panic, ◌>>=◌, deref, not, ◌&&◌,
}
use zipp.Base.Assoc.{lookup, insert, delete}
use zipp.Base.Floats.{Float64}
use zipp.Schedulerutils.ElementHeap.{Element}
use zipp.Schedulerutils.NodeQueue
use zipp.Schedulerutils.NodeQueue.{NodeQueue}

pub record BufferQueue : Type 0 where
  pub max_buffer : ℕ
  pub active_node : List (ℕ × NodeQueue)
  pub ring : List ℕ
  pub size : ℕ

-- NewBufferQueue
unfoldable pub create : ℕ → BufferQueue
create max_buffer = record { max_buffer = max_buffer; active_node = []; ring = []; size = 0 }

-- NodeQueue
unfoldable pub node_queue : BufferQueue → ℕ → Option NodeQueue
node_queue b node_id = lookup node_id b.active_node

unfoldable pub rotate : List ℕ → List ℕ
rotate [] = []
rotate (x ∷ xs) = xs ++ x ∷ []

unfoldable pub head_queue : List (ℕ × NodeQueue) → List ℕ → Option NodeQueue
head_queue m [] = none
head_queue m (x ∷ xs) = lookup x m

-- Current
unfoldable pub current : BufferQueue → Option NodeQueue
unfolding head_queue
current b = head_queue b.active_node b.ring

-- Next, as its effect on the buffer; what it returns is then the current queue.
unfoldable pub next : BufferQueue → BufferQueue
unfolding rotate
next b = record b { ring = rotate b.ring }

-- q == start
unfoldable pub is_at : List ℕ → List ℕ → Bool
is_at [] [] = true
is_at (x ∷ xs) (y ∷ ys) = x == y
is_at xs ys = false

-- The body of a loop, at the current queue.
unfoldable pub visit {ℓ} :
    {S : Type ℓ}
    → (S → BufferQueue → NodeQueue → Result (S × BufferQueue))
    → S
    → BufferQueue
    → Result (S × BufferQueue)
visit body s b = do q ← deref (current b); body s b q

-- `for q := start; ; { body; q = b.Next(); if q == start { break } }`, from the current queue.
unfoldable pub walk {ℓ} :
    {S : Type ℓ}
    → ℕ
    → (S → BufferQueue → NodeQueue → Result (S × BufferQueue))
    → List ℕ
    → S
    → BufferQueue
    → Result (S × BufferQueue)
walk zero body start s b = panic
walk (suc fuel) body start s b = do
  (s', b') ← visit body s b
  let b'' = next b'
  elim (is_at b''.ring start) [
    | Bool.true ↦ ok (s', b'')
    | Bool.false ↦ walk fuel body start s' b''
  ]

-- A round from the current queue, that reads only.
unfoldable pub round {ℓ} :
    {S : Type ℓ} → (S → NodeQueue → S) → S → BufferQueue → Result (S × BufferQueue)
unfolding walk
round f s b = walk (length b.ring) (λ s b q. ok (f s q, b)) b.ring s b

unfoldable pub unsubmit : BufferQueue → Element → Bool × BufferQueue
unsubmit b blk = elim (lookup blk.issuer b.active_node) [
  | none ↦ (false, b)
  | some q ↦
      let (done, q') = NodeQueue.unsubmit q blk in
      if done
      then (true, record b { active_node = insert blk.issuer q' b.active_node; size = b.size - 1 })
      else (false, b)
]

unfoldable pub ready : BufferQueue → Element → Result (Bool × BufferQueue)
ready b blk = elim (lookup blk.issuer b.active_node) [
  | none ↦ ok (false, b)
  | some q ↦ do
    (done, q') ← NodeQueue.ready q blk
    ok (done, record b { active_node = insert blk.issuer q' b.active_node })
]

-- PopFront
unfoldable pub pop_front : BufferQueue → Result (Element × BufferQueue)
pop_front b = do
  q ← deref (current b)
  (blk, q') ← NodeQueue.pop_front q
  ok (blk, record b { active_node = insert q.node_id q' b.active_node; size = b.size - 1 })

-- ringInsert: the new element stands just before the current one.
unfoldable pub ring_insert : List ℕ → ℕ → List ℕ
ring_insert ring node_id = ring ++ node_id ∷ []

-- The rest of a list from an element on.
unfoldable pub from : ℕ → List ℕ → List ℕ
from r [] = []
from r (x ∷ xs) = if x == r then x ∷ xs else from r xs

-- ringRemove: `r.Prev().Link(n)`, where `n` is what follows the element that was current. That
-- unlinks a current `r`. For any other `r` it links what stands between `n` and `r` into a ring of
-- its own, and `r` stays behind the current element.
unfoldable pub ring_remove : List ℕ → ℕ → Result (List ℕ)
unfolding from
ring_remove [] r = panic
ring_remove (c ∷ xs) r = if c == r then ok xs else ok (c ∷ from r xs)

-- InsertNode
unfoldable pub insert_node : BufferQueue → ℕ → BufferQueue
insert_node b node_id = elim (lookup node_id b.active_node) [
  | some _ ↦ b
  | none ↦ record b {
    active_node = insert node_id (NodeQueue.create node_id) b.active_node;
    ring = ring_insert b.ring node_id;
  }
]

-- RemoveNode
unfoldable pub remove_node : BufferQueue → ℕ → Result BufferQueue
remove_node b node_id = elim (lookup node_id b.active_node) [
  | none ↦ ok b
  | some q ↦ do
    ring ← ring_remove b.ring node_id
    ok (record b {
      active_node = delete node_id b.active_node;
      ring = ring;
      size = b.size - q.size;
    })
]

-- ReadyBlocksCount
unfoldable pub ready_blocks_count : BufferQueue → Result (ℕ × BufferQueue)
ready_blocks_count b = elim (current b) [
  | none ↦ ok (0, b)
  | some _ ↦ round (λ n q. n + length q.inbox) 0 b
]

-- TotalBlocksCount
unfoldable pub total_blocks_count : BufferQueue → Result (ℕ × BufferQueue)
total_blocks_count b = elim (current b) [
  | none ↦ ok (0, b)
  | some _ ↦ round (λ n q. n + length q.inbox + length q.submitted) 0 b
]

-- IDs
unfoldable pub ids : BufferQueue → Result (List ℕ × BufferQueue)
ids b = elim (current b) [ none ↦ ok ([], b) | some _ ↦ round (λ l q. l ++ NodeQueue.ids q) [] b ]

-- NodeIDs
unfoldable pub node_ids : BufferQueue → Result (List ℕ × BufferQueue)
node_ids b = elim (current b) [
  | none ↦ ok ([], b)
  | some _ ↦ round (λ l q. l ++ q.node_id ∷ []) [] b
]

-- The loop over `longestQueue.submitted`: the element with the earliest issuing time so far.
unfoldable pub oldest_of : Option Element → List (ℕ × Element) → Option Element
oldest_of oldest [] = oldest
oldest_of none ((_, v) ∷ rest) = oldest_of (some v) rest
oldest_of (some o) ((_, v) ∷ rest) =
    oldest_of (some (if ltb v.issuing_time o.issuing_time then v else o)) rest

-- Drops the oldest submitted block of the longest queue, or its first ready one.
unfoldable pub drop_from :
    BufferQueue → NodeQueue → Option Element → Option Element → Result (ℕ × BufferQueue)
drop_from b longest none none = panic
drop_from b longest (some oldest) none = ok (oldest.id, (unsubmit b oldest).1)
drop_from b longest none (some front) = do
  (blk, q') ← NodeQueue.pop_front longest
  ok (blk.id, record b { active_node = insert longest.node_id q' b.active_node; size = b.size - 1 })
drop_from b longest (some oldest) (some front) =
    if ltb oldest.issuing_time front.issuing_time
    then ok (oldest.id, (unsubmit b oldest).1)
    else (do
      (blk, q') ← NodeQueue.pop_front longest
      ok (
        blk.id,
        record b { active_node = insert longest.node_id q' b.active_node; size = b.size - 1 },
      ))

-- The queue that Submit adds to, and the buffer with it.
unfoldable pub queue_or_new : BufferQueue → ℕ → NodeQueue
queue_or_new b node_id = elim (lookup node_id b.active_node) [
  | some q ↦ q
  | none ↦ NodeQueue.create node_id
]

unfoldable pub ring_with : BufferQueue → ℕ → List ℕ
ring_with b node_id = elim (lookup node_id b.active_node) [
  | some _ ↦ b.ring
  | none ↦ ring_insert b.ring node_id
]

-- The buffer with the block filed, before anything is dropped.
unfoldable pub filed : BufferQueue → Element → NodeQueue → BufferQueue
unfolding ring_with
filed b blk q = record b {
  active_node = insert blk.issuer q b.active_node;
  ring = ring_with b blk.issuer;
  size = b.size + 1;
}

module _ (fl : Float64) where
  open fl use {F, lt, of_int, div, neg_inf, pos_inf}

  -- One step of the search for the longest mana-scaled queue: maxScale and maxNodeID.
  unfoldable pub scale_step : (ℕ → F) → F × ℕ → NodeQueue → F × ℕ
  scale_step retrieve (max_scale, max_node_id) q =
      let mana = retrieve q.node_id in
      if lt (of_int 0) mana
      then (let scale = div (of_int q.size) mana in
          if lt max_scale scale then (scale, q.node_id) else (max_scale, max_node_id))
      else if ltb 0 q.size
      then (pos_inf, q.node_id)
      else (max_scale, max_node_id)

  -- One round of the loop of dropHead.
  unfoldable pub drop_one : (ℕ → F) → List ℕ → BufferQueue → Result (ℕ × BufferQueue)
  drop_one retrieve start b = do
    (found, b') ←
        walk (length b.ring) (λ s b q. ok (scale_step retrieve s q, b)) start (neg_inf, 0) b
    longest ← deref (lookup found.1 b'.active_node)
    drop_from b' longest (oldest_of none longest.submitted) (NodeQueue.front (some longest))

  unfoldable pub drop_loop :
      ℕ → (ℕ → F) → List ℕ → List ℕ → BufferQueue → Result (List ℕ × BufferQueue)
  drop_loop zero retrieve start dropped b = panic
  drop_loop (suc fuel) retrieve start dropped b = elim (ltb b.max_buffer b.size) [
    | Bool.false ↦ ok (dropped, b)
    | Bool.true ↦ do
      (id, b') ← drop_one retrieve start b
      drop_loop fuel retrieve start (dropped ++ id ∷ []) b'
  ]

  -- dropHead
  unfoldable pub drop_head : (ℕ → F) → BufferQueue → Result (List ℕ × BufferQueue)
  drop_head retrieve b = drop_loop (suc b.size) retrieve b.ring [] b

  -- Submit: the dropped blocks, or `none` for the error "block already submitted".
  unfoldable pub submit : (ℕ → F) → BufferQueue → Element → Result (Option (List ℕ) × BufferQueue)
  unfolding queue_or_new filed
  submit retrieve b blk = do
    (accepted, q) ← NodeQueue.submit (queue_or_new b blk.issuer) blk
    let b' = filed b blk q
    if not accepted
        then ok (none, b)
        else if ltb b'.max_buffer b'.size
        then (do (dropped, b'') ← drop_head retrieve b'; ok (some dropped, b''))
        else ok (some [], b')
