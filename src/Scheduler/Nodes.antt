-- ===== src/Scheduler/Nodes.antt =====
-- updateActiveNodesList of scheduler.go: the two loops on a valid buffer.
use zipp.Base.{
  ℕ, zero, suc, ◌≤◌, ◌≡◌, refl, ap, ◌∙◌, inl, inr, List, [], ◌∷◌, some, true, false, length,
  length-append, arith, ◌>>=◌, deref, Returns, Option-cases, Bool-cases, sum_by,
}
use zipp.Base.Assoc.{
  lookup, insert, delete, lookup-delete, lookup-insert, sum_values, sum_values-delete,
  sum_values-insert_new,
}
use zipp.Base.Floats.{Float64}
use zipp.Schedulerutils.ElementHeap.{Element}
use zipp.Schedulerutils.NodeQueue as QueueModule
use zipp.Schedulerutils.NodeQueue.{NodeQueue}
use zipp.Schedulerutils.NodeQueue.Validity as QueueValidity
use zipp.Schedulerutils.NodeQueue.Validity.{held}
use zipp.Schedulerutils.BufferQueue
use zipp.Schedulerutils.BufferQueue.{BufferQueue}
use zipp.Schedulerutils.BufferQueue.Validity.{
  IsValid, holds, next-IsValid, remove_node_lem, insert_node-IsValid,
}
use zipp.Schedulerutils.BufferQueue.Counts.{length-active_node, current-cons}
use zipp.Scheduler.{Scheduler, prune, activate, is_idle, update_active_nodes_list, min_mana}
use zipp.Scheduler.Rat

-- Two buffers hold the same blocks, under the same limit.
pub record SameBlocks (b b' : BufferQueue) : Type 0 where
  pub size : b'.size ≡ b.size
  pub max : b'.max_buffer ≡ b.max_buffer
  pub same : (w : ℕ → ℕ) → holds w b' ≡ holds w b

empty-held :
    (w : ℕ → ℕ) (k : ℕ) (q : NodeQueue) → QueueValidity.IsValid k q → q.size ≡ 0 → held w q ≡ 0
empty-held w k q v e = omega (
  arith,
  nothing (λ c. w c.id) q.inbox (omega (arith, v.count)),
  nothing (λ (c : ℕ × Element). w c.1.id) q.submitted (omega (arith, v.count)),
)
  where
    nothing : {A : Type 0} (f : A → ℕ) (l : List A) → length l ≡ 0 → sum_by f l ≡ 0
    nothing f [] h = refl
    nothing f (x ∷ l) h = absurd (omega arith)

length-next : (b : BufferQueue) → length (BufferQueue.next b).ring ≡ length b.ring
unfolding BufferQueue.next
length-next b = length-rotate b.ring
  where
    length-rotate : (l : List ℕ) → length (BufferQueue.rotate l) ≡ length l
    length-rotate [] = refl
    length-rotate (x ∷ xs) = omega (arith, length-append xs (x ∷ []))

module _ (fl : Float64) (mana : List (ℕ × fl.F)) where
  -- What pruning keeps: the blocks, and every node that has mana or a block.
  pub record Prunes (s s' : Scheduler fl) : Type 0 where
    pub valid : IsValid s'.buffer
    pub blocks : SameBlocks s.buffer s'.buffer
    pub kept :
        (k : ℕ) (q : NodeQueue)
        → lookup k s.buffer.active_node ≡ some q
        → is_idle fl mana q ≡ false
        → lookup k s'.buffer.active_node ≡ some q

  idle-size : (q : NodeQueue) → is_idle fl mana q ≡ true → q.size ≡ 0
  unfolding is_idle
  idle-size q h = ground arith

  prune_lem :
      (rounds : ℕ) (s : Scheduler fl)
      → IsValid s.buffer
      → rounds ≤ length s.buffer.ring
      → (ring : List ℕ) → s.buffer.ring ≡ ring
      → Returns (Prunes s) (prune fl rounds mana s)
  unfolding prune BufferQueue.next
  prune_lem zero s v h ring r = (
    s,
    refl,
    record {
      valid = v;
      blocks = record { size = refl; max = refl; same = λ w. refl };
      kept = λ k q l p. l;
    },
  )
  prune_lem (suc rounds) s v h [] r = absurd (omega (arith, ap length r))
  prune_lem (suc rounds) s v h (x ∷ xs) r =
      let (q, f, c) = current-cons s.buffer x xs v r in
      let vq = v.queues x q f in
      elim (Bool-cases (is_idle fl mana q)) [
        | inr stay ↦
            let s1 : Scheduler fl = record s { buffer = BufferQueue.next s.buffer } in
            let (s', ran, p) =
              prune_lem rounds s1 (next-IsValid s.buffer v) (omega (arith, length-next s.buffer))
                s1.buffer.ring refl in
            (
              s',
              rw (c, prune, deref, ◌>>=◌, stay) ran,
              record {
                valid = p.valid;
                blocks = record { size = p.blocks.size; max = p.blocks.max; same = p.blocks.same };
                kept = p.kept;
              },
            )
        | inl go ↦
            let (b1, removed, g) = remove_node_lem s.buffer x xs q v r f in
            let none_held : q.size ≡ 0 = idle-size q go in
            let s1 : Scheduler fl = record s {
              buffer = b1;
              deficits = delete q.node_id s.deficits;
            } in
            let (s', ran, p) =
              prune_lem rounds s1 g.0 (omega (arith, ap length r, ap length g.1)) s1.buffer.ring
                refl in
            (
              s',
              rw (c, prune, deref, ◌>>=◌, go) (rw (vq.owner, removed) (rw (← vq.owner) ran)),
              record {
                valid = p.valid;
                blocks = record {
                  size = omega (arith, p.blocks.size, g.3);
                  max = p.blocks.max ∙ g.4;
                  same = λ w. omega (
                    arith,
                    p.blocks.same w,
                    ap (sum_values (held w)) g.2,
                    sum_values-delete (held w) x q s.buffer.active_node v.keys f,
                    empty-held w x q vq none_held,
                  );
                };
                kept = λ k t l stays.
                    p.kept k t
                      (ap (lookup k) g.2
                        ∙ ground (arith, lookup-delete x k s.buffer.active_node, f, l, go, stays))
                      stays;
              },
            )
      ]

  insert_node-blocks : (b : BufferQueue) (k : ℕ) → SameBlocks b (BufferQueue.insert_node b k)
  unfolding BufferQueue.insert_node QueueModule.create
  insert_node-blocks b k = elim (Option-cases (lookup k b.active_node)) [
    | inr (q, h) ↦
        rw (h, BufferQueue.insert_node) (record { size = refl; max = refl; same = λ w. refl })
    | inl n ↦
        rw (n, BufferQueue.insert_node)
          (record {
            size = refl;
            max = refl;
            same = λ w.
                omega
                  (arith, sum_values-insert_new (held w) k (QueueModule.create k) b.active_node n);
          })
  ]

  -- A node that is active stays so.
  insert_node-kept :
      (b : BufferQueue) (i k : ℕ) (q : NodeQueue)
      → lookup k b.active_node ≡ some q
      → lookup k (BufferQueue.insert_node b i).active_node ≡ some q
  unfolding BufferQueue.insert_node
  insert_node-kept b i k q l = elim (Option-cases (lookup i b.active_node)) [
    | inr (p, h) ↦ rw (h, BufferQueue.insert_node) l
    | inl n ↦
        rw (n, BufferQueue.insert_node)
          (ground (arith, lookup-insert i k (QueueModule.create i) b.active_node, n, l))
  ]

  activate_lem :
      (entries : List (ℕ × fl.F)) (s : Scheduler fl)
      → IsValid s.buffer
      → Prunes s (activate fl entries s)
  unfolding activate
  activate_lem [] s v = record {
    valid = v;
    blocks = record { size = refl; max = refl; same = λ w. refl };
    kept = λ k q l p. l;
  }
  activate_lem ((id, m) ∷ entries) s v = elim (Bool-cases (fl.lt m (min_mana fl))) [
    | inl little ↦ rw (activate, little) (activate_lem entries s v)
    | inr enough ↦ elim (Option-cases (lookup id s.deficits)) [
      | inr (d, h) ↦ rw (activate, enough, h) (activate_lem entries s v)
      | inl n ↦
          let s1 : Scheduler fl = record s {
            deficits = insert id (Rat.of_int 0) s.deficits;
            buffer = BufferQueue.insert_node s.buffer id;
          } in
          let p = activate_lem entries s1 (insert_node-IsValid s.buffer id v) in
          let i = insert_node-blocks s.buffer id in
          rw (activate, enough, n)
            (record {
              valid = p.valid;
              blocks = record {
                size = p.blocks.size ∙ i.size;
                max = p.blocks.max ∙ i.max;
                same = λ w. p.blocks.same w ∙ i.same w;
              };
              kept = λ k q l t. p.kept k q (insert_node-kept s.buffer id k q l) t;
            })
    ]
  ]

  -- updateActiveNodesList on a valid buffer never panics: the buffer stays valid and holds the
  -- same blocks under the same limit, and every active node that has blocks, or at least
  -- MinMana, stays active with its queue.
  pub update_active_nodes_list_lem :
      (s : Scheduler fl)
      → IsValid s.buffer
      → Returns (Prunes s) (update_active_nodes_list fl mana s)
  unfolding update_active_nodes_list
  update_active_nodes_list_lem s v =
      let (s1, ran, p) =
        prune_lem (length s.buffer.active_node) s v (omega (arith, length-active_node s.buffer v))
          s.buffer.ring refl in
      let a = activate_lem mana s1 p.valid in
      (
        activate fl mana s1,
        rw ran refl,
        record {
          valid = a.valid;
          blocks = record {
            size = a.blocks.size ∙ p.blocks.size;
            max = a.blocks.max ∙ p.blocks.max;
            same = λ w. a.blocks.same w ∙ p.blocks.same w;
          };
          kept = λ k q l t. a.kept k q (p.kept k q l t) t;
        },
      )
