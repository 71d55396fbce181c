-- ===== src/Schedulerutils/BufferQueue/Drop.antt =====
-- dropHead of BufferQueue: the block that a round drops, and the loop over the rounds.
use mathlib.Core.Path.{subst}
use zipp.Base.{
  ℕ, zero, suc, ◌+◌, ◌-◌, ◌≤◌, ◌<◌, ◌≡◌, refl, sym, ap, ◌∙◌, inl, inr, List, [], ◌∷◌, ◌++◌, none,
  some, true, false, ltb, length, arith, elem, get_elem?, Option-cases, Bool-cases, foldl, All, ok,
  ◌>>=◌, Returns, sum_by, sum_by-append, length-append, is_some, some_of, get_elem?-lt,
  lt-get_elem?,
}
use zipp.Base.Assoc.{lookup, insert, lookup-get_elem?, positive_value}
use zipp.Base.Floats.{Float64}
use zipp.Schedulerutils.ElementHeap.{Element}
use zipp.Schedulerutils.ElementHeap.Contents.{root_least}
use zipp.Schedulerutils.NodeQueue
use zipp.Schedulerutils.NodeQueue.{NodeQueue}
use zipp.Schedulerutils.NodeQueue.Validity
use zipp.Schedulerutils.BufferQueue.{
  BufferQueue, unsubmit, scale_step, oldest_of, drop_from, drop_one, drop_loop, drop_head,
}
use zipp.Schedulerutils.BufferQueue.Round.{queues_of, walk_reads}
use zipp.Schedulerutils.BufferQueue.Longest.{
  Scales, scale, longest_lem, queues_of-get, queues_of-All, IsOldest, oldest_lem,
}
use zipp.Schedulerutils.BufferQueue.Validity.{
  IsValid, Drops, put-Drops, unsubmit_lem, queue_size, holds,
}

-- The block that one round drops: an oldest one of its queue, be it submitted or ready.
pub record DropsOldest (b : BufferQueue) (q : NodeQueue) (r : ℕ × BufferQueue) : Type 0 where
  pub block : Element
  pub id : block.id ≡ r.0
  pub drops : Drops b block r.1
  pub oldest_submitted : All (λ e. block.issuing_time ≤ e.1.issuing_time) q.submitted
  pub oldest_ready :
      (i : ℕ) (e : Element) → get_elem? q.inbox i ≡ some e → block.issuing_time ≤ e.issuing_time

module _ (b : BufferQueue) (q : NodeQueue) (v : IsValid b)
    (h : lookup q.node_id b.active_node ≡ some q) where
  vq : Validity.IsValid q.node_id q
  vq = v.queues q.node_id q h

  All-weaken :
      (m n : ℕ) (l : List (ℕ × Element))
      → m ≤ n
      → All (λ e. n ≤ e.1.issuing_time) l
      → All (λ e. m ≤ e.1.issuing_time) l
  All-weaken m n [] p a = tt
  All-weaken m n (x ∷ l) p a = (omega arith, All-weaken m n l p a.1)

  -- The oldest submitted block goes, if it is no later than what is ready.
  take_submitted :
      (o : Element)
      → IsOldest q.submitted o
      → ((i : ℕ) (e : Element) → get_elem? q.inbox i ≡ some e → o.issuing_time ≤ e.issuing_time)
      → DropsOldest b q (o.id, (unsubmit b o).1)
  take_submitted o old first =
      let at = lookup-get_elem? q.submitted old.index (old.key, o) vq.keys old.at in
      let (id, owner) = vq.ids old.key o at in
      record {
        block = o;
        id = refl;
        drops =
            (unsubmit_lem b q o o v (ap (λ k. lookup k b.active_node) owner ∙ h)
              (ap (λ k. lookup k q.submitted) id ∙ at)).1;
        oldest_submitted = old.earliest;
        oldest_ready = first;
      }

  take_ready :
      0 < length q.inbox
      → (t : ℕ) → ((e : Element) → get_elem? q.inbox 0 ≡ some e → e.issuing_time ≤ t)
      → All (λ e. t ≤ e.1.issuing_time) q.submitted
      → Returns (DropsOldest b q) (do
        (blk, q') ← NodeQueue.pop_front q
        ok (
          blk.id,
          record b { active_node = insert q.node_id q' b.active_node; size = b.size - 1 },
        ))
  take_ready p t first a =
      let ((e, q'), ran, d) = Validity.pop_front_lem q.node_id q vq p in
      (
        (e.id, record b { active_node = insert q.node_id q' b.active_node; size = b.size - 1 }),
        rw ran refl,
        record {
          block = e;
          id = refl;
          drops = put-Drops b q.node_id q q' e v h d.drops;
          oldest_submitted = All-weaken e.issuing_time t q.submitted (first e d.front) a;
          oldest_ready = d.earliest;
        },
      )

  drop_from_lem :
      0 < q.size
      → Returns
          (DropsOldest b q)
          (drop_from b q (oldest_of none q.submitted) (NodeQueue.front (some q)))
  unfolding drop_from NodeQueue.front
  drop_from_lem p = elim (oldest_lem q.submitted) [
    | inl (empty, e) ↦
        let size : 0 < length q.inbox = omega (arith, vq.count, ap length empty) in
        let (f, hf) = get_elem?-lt q.inbox 0 size in
        rw (e, hf, drop_from)
          (take_ready size f.issuing_time (λ c hc. ground arith)
            (subst (All (λ e. f.issuing_time ≤ e.1.issuing_time)) (sym empty) tt))
    | inr (o, e, old) ↦ elim (Option-cases (get_elem? q.inbox 0)) [
      | inl n ↦
          rw (e, n, drop_from)
            (
              (o.id, (unsubmit b o).1),
              refl,
              take_submitted o old (λ i c hc.
                  (let (f, hf) =
                      get_elem?-lt q.inbox 0 (omega (arith, lt-get_elem? q.inbox i c hc)) in
                    ground arith)),
            )
      | inr (f, hf) ↦ elim (Bool-cases (ltb o.issuing_time f.issuing_time)) [
        | inl older ↦
            rw (e, hf, drop_from, older)
              (
                (o.id, (unsubmit b o).1),
                refl,
                take_submitted o old (λ i c hc.
                    ground (arith, root_least q.inbox i vq.order (lt-get_elem? q.inbox i c hc))),
              )
        | inr newer ↦
            rw (e, hf, drop_from, newer)
              (take_ready (lt-get_elem? q.inbox 0 f hf) f.issuing_time (λ c hc. ground arith)
                (All-weaken f.issuing_time o.issuing_time q.submitted (ground arith) old.earliest))
      ]
    ]
  ]

-- What one round of dropHead does: it drops an oldest block of a queue that no active node's queue
-- scales above.
pub record DropsLongest (fl : Float64) (retrieve : ℕ → fl.F) (b : BufferQueue) (r : ℕ × BufferQueue)
    : Type 0 where
  pub queue : NodeQueue
  pub active : lookup queue.node_id b.active_node ≡ some queue
  pub longest :
      (k : ℕ) (p : NodeQueue)
      → lookup k b.active_node ≡ some p
      → fl.lt (scale fl retrieve queue) (scale fl retrieve p) ≡ false
  pub oldest : DropsOldest b queue r

cons_of_elem : (l : List ℕ) (k : ℕ) → elem k l ≡ true → (x : ℕ) × (xs : List ℕ) × (l ≡ x ∷ xs)
cons_of_elem [] k h = ground arith
cons_of_elem (x ∷ xs) k h = (x, xs, refl)

module _ (fl : Float64) (retrieve : ℕ → fl.F) (s : Scales fl retrieve) where
  -- The queue that a round finds is not empty.
  top_positive :
      (b : BufferQueue) (q : NodeQueue)
      → IsValid b
      → 0 < b.size
      → ((k : ℕ) (p : NodeQueue)
          → lookup k b.active_node ≡ some p
          → fl.lt (scale fl retrieve q) (scale fl retrieve p) ≡ false)
      → (n : ℕ) → q.size ≡ n
      → 0 < n
  top_positive b q v p top zero e =
      let (k, r, h, pos) =
        positive_value queue_size b.active_node v.keys (omega (arith, v.count)) in
      let e' : r.size ≡ suc (r.size - 1) = omega arith in
      let above = s.above_empty (r.size - 1) q.node_id r.node_id in
      ground (arith, top k r h, e, e', above)
  top_positive b q v p top (suc n) e = omega arith

  -- The search finds an active node's queue, and none scales above it.
  found_lem :
      (b : BufferQueue) (x : ℕ) (xs : List ℕ)
      → IsValid b
      → b.ring ≡ x ∷ xs
      → let r = foldl (scale_step fl retrieve) (fl.neg_inf, 0) (queues_of b.active_node b.ring) in
        (q : NodeQueue) × (r.1 ≡ q.node_id)
        × (lookup q.node_id b.active_node ≡ some q)
        × ((k : ℕ) (p : NodeQueue)
            → lookup k b.active_node ≡ some p
            → fl.lt (scale fl retrieve q) (scale fl retrieve p) ≡ false)
  found_lem b x xs v r =
      elim (longest_lem fl retrieve s (queues_of b.active_node b.ring) fl.neg_inf 0) [
        | inl (e, t) ↦
            let m : elem x b.ring ≡ true = ap (elem x) r ∙ ground arith in
            let (q, h) = some_of (lookup x b.active_node) (sym (v.active x) ∙ m) in
            ground (
              arith,
              queues_of-All (λ p. fl.lt fl.neg_inf (scale fl retrieve p) ≡ false) b.active_node
                  b.ring x q t m h,
              s.above_neg_inf q.size q.node_id,
            )
        | inr f ↦
            let (k, h) = queues_of-get b.active_node b.ring f.index f.queue f.at in
            let owner = (v.queues k f.queue h).owner in
            (
              f.queue,
              f.node,
              ap (λ j. lookup j b.active_node) owner ∙ h,
              λ j p g.
                  queues_of-All
                    (λ p. fl.lt (scale fl retrieve f.queue) (scale fl retrieve p) ≡ false)
                    b.active_node b.ring j p f.top (v.active j ∙ ap is_some g) g,
            )
      ]

  pub drop_one_lem :
      (b : BufferQueue) (x : ℕ) (xs : List ℕ)
      → IsValid b
      → b.ring ≡ x ∷ xs
      → 0 < b.size
      → Returns (DropsLongest fl retrieve b) (drop_one fl retrieve b.ring b)
  unfolding drop_one
  drop_one_lem b x xs v r p =
      let (q, id, h, top) = found_lem b x xs v r in
      let reads =
        walk_reads (scale_step fl retrieve) (fl.neg_inf, 0) b v.distinct
          (λ k m. sym (v.active k) ∙ m) x xs r in
      let (c, ran, d) = drop_from_lem b q v h (top_positive b q v p top q.size refl) in
      (c, rw reads (rw (id, h) ran), record { queue = q; active = h; longest = top; oldest = d })

  drop_round :
      (b : BufferQueue)
      → IsValid b
      → 0 < b.size
      → Returns (DropsLongest fl retrieve b) (drop_one fl retrieve b.ring b)
  drop_round b v p =
      let (k, q, h, _) = positive_value queue_size b.active_node v.keys (omega (arith, v.count)) in
      let (x, xs, r) = cons_of_elem b.ring k (v.active k ∙ ap is_some h) in
      drop_one_lem b x xs v r p

  -- What dropHead leaves: a valid buffer within its limit, with the dropped blocks gone.
  pub record DropsAll (b : BufferQueue) (before : List ℕ) (r : List ℕ × BufferQueue) : Type 0 where
    pub valid : IsValid r.1
    pub bounded : r.1.size ≤ r.1.max_buffer
    pub max : r.1.max_buffer ≡ b.max_buffer
    pub counted : length r.0 + r.1.size ≡ length before + b.size
    pub lost : (w : ℕ → ℕ) → holds w r.1 + sum_by w r.0 ≡ holds w b + sum_by w before

  drop_loop_lem :
      (fuel : ℕ) (start : List ℕ) (dropped : List ℕ) (b : BufferQueue)
      → b.size < fuel
      → IsValid b
      → start ≡ b.ring
      → Returns (DropsAll b dropped) (drop_loop fl fuel retrieve start dropped b)
  unfolding drop_loop
  drop_loop_lem zero start dropped b f v e = absurd (omega arith)
  drop_loop_lem (suc fuel) start dropped b f v e = elim (Bool-cases (ltb b.max_buffer b.size)) [
    | inr within ↦ (
      (dropped, b),
      rw (within, drop_loop) refl,
      record { valid = v; bounded = ground arith; max = refl; counted = refl; lost = λ w. refl },
    )
    | inl over ↦
        let ((id, b'), ran, d) = drop_round b v (ground arith) in
        let drops = d.oldest.drops in
        let (r, ran', done) =
          drop_loop_lem fuel start (dropped ++ id ∷ []) b' (omega (arith, drops.shrunk)) drops.valid
            (e ∙ sym drops.ring) in
        (
          r,
          rw (over, drop_loop, e, ran) (rw (← e) ran'),
          record {
            valid = done.valid;
            bounded = done.bounded;
            max = done.max ∙ drops.max;
            counted = omega (arith, done.counted, drops.shrunk, length-append dropped (id ∷ []));
            lost = λ w. omega (
              arith,
              done.lost w,
              drops.lost w,
              sum_by-append w dropped (id ∷ []),
              ap w d.oldest.id,
            );
          },
        )
  ]

  -- dropHead on a valid buffer never panics, if the mana makes the scales of the queues
  -- comparable: it leaves a valid buffer within its limit, the blocks it reports as dropped are
  -- the ones that the buffer has lost, and none is lost without being reported.
  pub drop_head_lem :
      (b : BufferQueue) → IsValid b → Returns (DropsAll b []) (drop_head fl retrieve b)
  unfolding drop_head
  drop_head_lem b v = drop_loop_lem (suc b.size) b.ring [] b (omega arith) v refl
