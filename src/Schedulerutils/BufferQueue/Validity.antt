-- ===== src/Schedulerutils/BufferQueue/Validity.antt =====
-- The invariant of BufferQueue, and its operations on a valid buffer.
use zipp.Base.{
  ◌&&◌, ◌==◌, if◌then◌else◌, ℕ, ◌+◌, ◌-◌, ◌≤◌, ◌<◌, ◌≡◌, refl, ap, ◌∙◌, inl, inr, List, [], ◌∷◌,
  none, some, true, false, length, arith, IsDistinct, elem, elem-append, append-IsDistinct,
  elem-rotate, Returns, is_some, get_elem?, Option-cases, ==_refl,
}
use zipp.Base.Assoc.{
  lookup, insert, delete, IsMap, sum_values, lookup-insert, lookup-delete, insert-IsMap,
  delete-IsMap, insert_all, delete_all, sum_values-insert_new, sum_values-insert_old,
  sum_values-delete, weight-le-sum_values,
}
use zipp.Schedulerutils.ElementHeap.{Element}
use zipp.Schedulerutils.NodeQueue
use zipp.Schedulerutils.NodeQueue.{NodeQueue}
use zipp.Schedulerutils.NodeQueue.Validity
use zipp.Schedulerutils.NodeQueue.Validity.{held}
use zipp.Schedulerutils.BufferQueue.{
  BufferQueue, create, current, head_queue, next, rotate, unsubmit, ready, pop_front, insert_node,
  remove_node, ring_insert, ring_remove,
}
use zipp.Schedulerutils.BufferQueue.Waiting.{waiting, insert-waiting, missing, unwaited}

abbrev pub queue_size : NodeQueue → ℕ
queue_size q = q.size

-- The ring and the map agree on the active nodes, every queue is valid, and `size` counts the
-- blocks of all queues.
pub record IsValid (b : BufferQueue) : Type 0 where
  pub keys : IsMap b.active_node
  pub distinct : IsDistinct b.ring
  pub active : (k : ℕ) → elem k b.ring ≡ is_some (lookup k b.active_node)
  pub queues : (k : ℕ) (q : NodeQueue) → lookup k b.active_node ≡ some q → Validity.IsValid k q
  pub count : b.size ≡ sum_values queue_size b.active_node

-- The weight of the IDs that the buffer holds.
abbrev pub holds : (ℕ → ℕ) → BufferQueue → ℕ
holds w b = sum_values (held w) b.active_node

pub create-IsValid : (max : ℕ) → IsValid (create max)
unfolding create lookup
create-IsValid max = record {
  keys = tt;
  distinct = tt;
  active = λ k. refl;
  queues = λ k q h. ground arith;
  count = refl;
}

elem-rotated : (k : ℕ) (xs : List ℕ) → elem k (rotate xs) ≡ elem k xs
unfolding rotate
elem-rotated k [] = refl
elem-rotated k (x ∷ xs) = elem-rotate k x xs

rotate-IsDistinct : (xs : List ℕ) → IsDistinct xs → IsDistinct (rotate xs)
unfolding rotate
rotate-IsDistinct [] d = tt
rotate-IsDistinct (x ∷ xs) d = append-IsDistinct xs x d.0 d.1

pub next-IsValid : (b : BufferQueue) → IsValid b → IsValid (next b)
unfolding next
next-IsValid b v = record {
  keys = v.keys;
  distinct = rotate-IsDistinct b.ring v.distinct;
  active = λ k. elem-rotated k b.ring ∙ v.active k;
  queues = v.queues;
  count = v.count;
}

-- To give an active node another valid queue, and to count its blocks, keeps the buffer valid.
pub put-IsValid :
    (b : BufferQueue) (k n : ℕ) (q q' : NodeQueue)
    → IsValid b
    → lookup k b.active_node ≡ some q
    → Validity.IsValid k q'
    → n + q.size ≡ b.size + q'.size
    → IsValid (record b { active_node = insert k q' b.active_node; size = n })
put-IsValid b k n q q' v h v' e = record {
  keys = insert-IsMap k q' b.active_node v.keys;
  distinct = v.distinct;
  active = λ j. ground (arith, lookup-insert k j q' b.active_node, v.active j);
  queues = insert_all Validity.IsValid k q' b.active_node v' v.queues;
  count = omega (arith, v.count, sum_values-insert_old queue_size k q' q b.active_node h);
}

pub put-holds :
    (w : ℕ → ℕ) (b : BufferQueue) (k n : ℕ) (q q' : NodeQueue)
    → lookup k b.active_node ≡ some q
    → holds w (record b { active_node = insert k q' b.active_node; size = n }) + held w q
      ≡ holds w b + held w q'
put-holds w b k n q q' h = sum_values-insert_old (held w) k q' q b.active_node h

-- What an operation that takes a block off leaves.
pub record Drops (b : BufferQueue) (e : Element) (b' : BufferQueue) : Type 0 where
  pub valid : IsValid b'
  pub shrunk : b'.size + 1 ≡ b.size
  pub lost : (w : ℕ → ℕ) → holds w b' + w e.id ≡ holds w b
  pub ring : b'.ring ≡ b.ring
  pub max : b'.max_buffer ≡ b.max_buffer

-- One queue's loss is the buffer's.
pub put-Drops :
    (b : BufferQueue) (k : ℕ) (q q' : NodeQueue) (e : Element)
    → IsValid b
    → lookup k b.active_node ≡ some q
    → Validity.Drops k q e q'
    → Drops b e (record b { active_node = insert k q' b.active_node; size = b.size - 1 })
put-Drops b k q q' e v h d = record {
  valid = put-IsValid b k (b.size - 1) q q' v h d.valid (omega (arith, d.shrunk, pos));
  shrunk = omega (arith, d.shrunk, pos);
  lost = λ w. omega (arith, put-holds w b k (b.size - 1) q q' h, d.lost w);
  ring = refl;
  max = refl;
}
  where
    pos : 0 < b.size
    pos = omega (arith, v.count, d.shrunk, weight-le-sum_values queue_size k q b.active_node h)

-- Unsubmit takes a submitted block of an active node off, and does nothing otherwise.
pub unsubmit_lem :
    (b : BufferQueue) (q : NodeQueue) (e c : Element)
    → IsValid b
    → lookup e.issuer b.active_node ≡ some q
    → lookup e.id q.submitted ≡ some c
    → ((unsubmit b e).0 ≡ true) × Drops b e (unsubmit b e).1
unfolding unsubmit
unsubmit_lem b q e c v h l =
    let (done, d) = Validity.unsubmit_lem e.issuer q e c (v.queues e.issuer q h) l in
    rw (h, unsubmit, done) (refl, put-Drops b e.issuer q (NodeQueue.unsubmit q e).1 e v h d)

pub unsubmit_absent :
    (b : BufferQueue) (e : Element)
    → ((q : NodeQueue) → lookup e.issuer b.active_node ≡ some q → lookup e.id q.submitted ≡ none)
    → unsubmit b e ≡ (false, b)
unfolding unsubmit
unsubmit_absent b e absent = elim (Option-cases (lookup e.issuer b.active_node)) [
  | inl n ↦ rw (n, unsubmit) refl
  | inr (q, h) ↦ rw (h, unsubmit, Validity.unsubmit_absent q e (absent q h)) refl
]

-- Ready, in all cases: the block goes from the submitted to the ready ones of its node, or nothing
-- changes. The buffer stays valid, and holds what it held.
pub record Readies (b : BufferQueue) (e : Element) (b' : BufferQueue) : Type 0 where
  pub valid : IsValid b'
  pub size : b'.size ≡ b.size
  pub same : (w : ℕ → ℕ) → holds w b' ≡ holds w b
  pub waits :
      (k j : ℕ) → waiting b' k j ≡ (if (e.issuer == k) && (e.id == j) then none else waiting b k j)

-- Ready on a valid buffer never panics: the buffer stays valid, and holds the blocks and the
-- number of blocks that it held. The block is not among the submitted blocks of its node that
-- wait, and all other blocks that waited still do.
pub ready_lem :
    (b : BufferQueue) (e : Element) → IsValid b → Returns (λ r. Readies b e r.1) (ready b e)
unfolding ready
ready_lem b e v = elim (Option-cases (lookup e.issuer b.active_node)) [
  | inl n ↦ (
    (false, b),
    rw (n, ready) refl,
    record {
      valid = v;
      size = refl;
      same = λ w. refl;
      waits = λ k j. unwaited b e.issuer e.id k j (rw (n, waiting) refl);
    },
  )
  | inr (q, h) ↦ elim (Option-cases (lookup e.id q.submitted)) [
    | inl n ↦ (
      (false, record b { active_node = insert e.issuer q b.active_node }),
      rw (h, ready, Validity.ready_absent q e n) refl,
      record {
        valid = put-IsValid b e.issuer b.size q q v h (v.queues e.issuer q h) refl;
        size = refl;
        same = λ w. omega (arith, put-holds w b e.issuer b.size q q h);
        waits = λ k j. insert-waiting b q q e.issuer e.id k j h (missing q e.id j n);
      },
    )
    | inr (c, l) ↦
        let ((t, q'), ran, (_, d)) =
          Validity.ready_lem e.issuer q e c (v.queues e.issuer q h) refl l in
        (
          (t, record b { active_node = insert e.issuer q' b.active_node }),
          rw (h, ready, ran) refl,
          record {
            valid = put-IsValid b e.issuer b.size q q' v h d.valid (omega (arith, d.kept));
            size = refl;
            same = λ w. omega (arith, put-holds w b e.issuer b.size q q' h, d.same w);
            waits = λ k j. insert-waiting b q q' e.issuer e.id k j h (d.left j);
          },
        )
  ]
]

-- PopFront on a current node with a ready block.
pub record Pops (b : BufferQueue) (q : NodeQueue) (r : Element × BufferQueue) : Type 0 where
  pub drops : Drops b r.0 r.1
  pub front : get_elem? q.inbox 0 ≡ some r.0
  pub owner : r.0.issuer ≡ q.node_id
  pub earliest :
      (i : ℕ) (e : Element) → get_elem? q.inbox i ≡ some e → r.0.issuing_time ≤ e.issuing_time

-- PopFront on a valid buffer whose current node has a ready block never panics: it takes off
-- that node's front block, no ready block of the node is earlier, and the buffer stays valid
-- and loses that block only.
pub pop_front_lem :
    (b : BufferQueue) (k : ℕ) (rest : List ℕ) (q : NodeQueue)
    → IsValid b
    → b.ring ≡ k ∷ rest
    → lookup k b.active_node ≡ some q
    → 0 < length q.inbox
    → Returns (Pops b q) (pop_front b)
unfolding pop_front current head_queue
pop_front_lem b k rest q v r h p =
    let vq = v.queues k q h in
    let ((e, q'), ran, d) = Validity.pop_front_lem k q vq p in
    (
      (e, record b { active_node = insert k q' b.active_node; size = b.size - 1 }),
      rw (r, head_queue, h, ran, vq.owner) refl,
      record {
        drops = put-Drops b k q q' e v h d.drops;
        front = d.front;
        owner = rw vq.owner d.owner;
        earliest = d.earliest;
      },
    )

-- InsertNode
pub insert_node-IsValid : (b : BufferQueue) (k : ℕ) → IsValid b → IsValid (insert_node b k)
unfolding insert_node ring_insert NodeQueue.create
insert_node-IsValid b k v = elim (Option-cases (lookup k b.active_node)) [
  | inr (q, h) ↦ rw (h, insert_node) v
  | inl n ↦
      rw (n, insert_node)
        (record {
          keys = insert-IsMap k (NodeQueue.create k) b.active_node v.keys;
          distinct = append-IsDistinct b.ring k (ground (arith, v.active k)) v.distinct;
          active = λ j. ground (
            arith,
            elem-append j b.ring (k ∷ []),
            v.active j,
            lookup-insert k j (NodeQueue.create k) b.active_node,
          );
          queues =
              insert_all Validity.IsValid k (NodeQueue.create k) b.active_node
                (Validity.create-IsValid k) v.queues;
          count = omega (
            arith,
            v.count,
            sum_values-insert_new queue_size k (NodeQueue.create k) b.active_node n,
          );
        })
]

-- RemoveNode of the current node of a valid buffer never panics: the node leaves the ring and
-- the map of active nodes, the size goes down by the node's blocks, and the buffer stays
-- valid.
pub remove_node_lem :
    (b : BufferQueue) (k : ℕ) (rest : List ℕ) (q : NodeQueue)
    → IsValid b
    → b.ring ≡ k ∷ rest
    → lookup k b.active_node ≡ some q
    → Returns
        (λ b'.
          IsValid b'
          × (b'.ring ≡ rest)
          × (b'.active_node ≡ delete k b.active_node)
          × (b'.size + q.size ≡ b.size)
          × (b'.max_buffer ≡ b.max_buffer))
        (remove_node b k)
unfolding remove_node ring_remove
remove_node_lem b k rest q v r h =
    let lost = sum_values-delete queue_size k q b.active_node v.keys h in
    let apart : (elem k rest ≡ false) × IsDistinct rest = rw r at v.distinct in
    (
      record b { active_node = delete k b.active_node; ring = rest; size = b.size - q.size },
      rw (h, remove_node, r) (rw (==_refl k) refl),
      (
        record {
          keys = delete-IsMap k b.active_node v.keys;
          distinct = apart.1;
          active = λ j.
              ground (arith, ap (elem j) r, v.active j, apart.0, lookup-delete k j b.active_node);
          queues = delete_all Validity.IsValid k b.active_node v.queues;
          count = omega (arith, v.count);
        },
        refl,
        refl,
        omega (arith, v.count),
        refl,
      ),
    )
