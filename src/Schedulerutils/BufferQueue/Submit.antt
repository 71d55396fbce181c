-- ===== src/Schedulerutils/BufferQueue/Submit.antt =====
-- Submit of BufferQueue on every path: refused, accepted within the limit, accepted with a drop.
use zipp.Base.{
  ℕ, ◌+◌, ◌≤◌, ◌≡◌, refl, ap, ◌∙◌, inl, inr, List, [], ◌∷◌, Option, none, some, true, ltb, length,
  arith, elem-append, append-IsDistinct, Option-cases, Bool-cases, Returns, sum_by, ok,
}
use zipp.Base.Assoc.{lookup, lookup-insert, insert-IsMap, insert_all, sum_values-insert_new}
use zipp.Base.Floats.{Float64}
use zipp.Schedulerutils.ElementHeap.{Element}
use zipp.Schedulerutils.NodeQueue
use zipp.Schedulerutils.NodeQueue.{NodeQueue}
use zipp.Schedulerutils.NodeQueue.Validity
use zipp.Schedulerutils.NodeQueue.Validity.{held}
use zipp.Schedulerutils.BufferQueue.{
  BufferQueue, submit, queue_or_new, ring_with, filed, ring_insert,
}
use zipp.Schedulerutils.BufferQueue.Longest.{Scales}
use zipp.Schedulerutils.BufferQueue.Drop.{drop_head_lem}
use zipp.Schedulerutils.BufferQueue.Validity.{IsValid, put-IsValid, put-holds, queue_size, holds}

-- The block is in the buffer under its issuer, and was not before.
pub record Files (b : BufferQueue) (e : Element) (b' : BufferQueue) : Type 0 where
  pub valid : IsValid b'
  pub grown : b'.size ≡ b.size + 1
  pub gained : (w : ℕ → ℕ) → holds w b' ≡ holds w b + w e.id
  pub max : b'.max_buffer ≡ b.max_buffer

filed-Files :
    (b : BufferQueue) (e : Element) (q' : NodeQueue)
    → IsValid b
    → Validity.Adds e.issuer (queue_or_new b e.issuer) e q'
    → Files b e (filed b e q')
unfolding queue_or_new filed ring_insert NodeQueue.create
filed-Files b e q' v d = elim (Option-cases (lookup e.issuer b.active_node)) [
  | inr (q, h) ↦
      let a : Validity.Adds e.issuer q e q' = rw (h, queue_or_new) at d in
      rw (h, filed, ring_with)
        (record {
          valid = put-IsValid b e.issuer (b.size + 1) q q' v h a.valid (omega (arith, a.grown));
          grown = refl;
          gained = λ w. omega (arith, put-holds w b e.issuer (b.size + 1) q q' h, a.gained w);
          max = refl;
        })
  | inl n ↦
      let a : Validity.Adds e.issuer (NodeQueue.create e.issuer) e q' = rw (n, queue_or_new) at d in
      rw (n, filed, ring_with)
        (record {
          valid = record {
            keys = insert-IsMap e.issuer q' b.active_node v.keys;
            distinct =
                append-IsDistinct b.ring e.issuer (ground (arith, v.active e.issuer)) v.distinct;
            active = λ j. ground (
              arith,
              elem-append j b.ring (e.issuer ∷ []),
              v.active j,
              lookup-insert e.issuer j q' b.active_node,
            );
            queues = insert_all Validity.IsValid e.issuer q' b.active_node a.valid v.queues;
            count = omega (
              arith,
              v.count,
              a.grown,
              sum_values-insert_new queue_size e.issuer q' b.active_node n,
            );
          };
          grown = refl;
          gained = λ w.
              omega (arith, a.gained w, sum_values-insert_new (held w) e.issuer q' b.active_node n);
          max = refl;
        })
]

-- What an accepted Submit returns: the buffer is valid and within its limit, and what it holds and
-- what was dropped is what it held and the new block.
pub record Accepts (b : BufferQueue) (e : Element) (dropped : List ℕ) (b' : BufferQueue)
    : Type 0 where
  pub valid : IsValid b'
  pub bounded : b'.size ≤ b.max_buffer
  pub max : b'.max_buffer ≡ b.max_buffer
  pub counted : length dropped + b'.size ≡ b.size + 1
  pub kept : (w : ℕ → ℕ) → holds w b' + sum_by w dropped ≡ holds w b + w e.id

abbrev pub Submitted : BufferQueue → Element → Option (List ℕ) × BufferQueue → Type 0
Submitted b e (none, b') =
    (b' ≡ b)
    × ((q : NodeQueue) × (c : Element) × (lookup e.issuer b.active_node ≡ some q)
        × (lookup e.id q.submitted ≡ some c))
Submitted b e (some dropped, b') = Accepts b e dropped b'

module _ (fl : Float64) (retrieve : ℕ → fl.F) (s : Scales fl retrieve) where
  accept :
      (b : BufferQueue) (e : Element) (q' : NodeQueue)
      → IsValid b
      → b.size ≤ b.max_buffer
      → NodeQueue.submit (queue_or_new b e.issuer) e ≡ ok (true, q')
      → Files b e (filed b e q')
      → Returns (Submitted b e) (submit fl retrieve b e)
  unfolding submit
  accept b e q' v within ran f =
      elim (Bool-cases (ltb (filed b e q').max_buffer (filed b e q').size)) [
        | inr fits ↦ (
          (some [], filed b e q'),
          rw (ran, submit, fits) refl,
          record {
            valid = f.valid;
            bounded = ground (arith, f.max);
            max = f.max;
            counted = omega (arith, f.grown);
            kept = λ w. omega (arith, f.gained w);
          },
        )
        | inl over ↦
            let ((dropped, b'), ran', d) = drop_head_lem fl retrieve s (filed b e q') f.valid in
            (
              (some dropped, b'),
              rw (ran, submit, over, ran') refl,
              record {
                valid = d.valid;
                bounded = omega (arith, d.bounded, d.max, f.max);
                max = d.max ∙ f.max;
                counted = omega (arith, d.counted, f.grown);
                kept = λ w. omega (arith, d.lost w, f.gained w);
              },
            )
      ]

  queue_or_new-IsValid :
      (b : BufferQueue) (k : ℕ) → IsValid b → Validity.IsValid k (queue_or_new b k)
  unfolding queue_or_new
  queue_or_new-IsValid b k v = elim (Option-cases (lookup k b.active_node)) [
    | inl n ↦ rw (n, queue_or_new) (Validity.create-IsValid k)
    | inr (q, h) ↦ rw (h, queue_or_new) (v.queues k q h)
  ]

  queued_before :
      (b : BufferQueue) (e c : Element)
      → lookup e.id (queue_or_new b e.issuer).submitted ≡ some c
      → (q : NodeQueue) × (c : Element) × (lookup e.issuer b.active_node ≡ some q)
        × (lookup e.id q.submitted ≡ some c)
  unfolding queue_or_new NodeQueue.create lookup
  queued_before b e c l = elim (Option-cases (lookup e.issuer b.active_node)) [
    | inl n ↦ ground (arith, l, n)
    | inr (q, h) ↦ (q, c, h, ground (arith, l, h))
  ]

  -- Submit on a valid buffer within its limit never panics, if the mana makes the scales of the
  -- queues comparable. It either refuses a block that its issuer has submitted already, and
  -- changes nothing, or takes the block: the buffer is then valid and within its limit, and the
  -- blocks that it and the list of dropped ones hold are those it held before and the new one.
  pub submit_lem :
      (b : BufferQueue) (e : Element)
      → IsValid b
      → b.size ≤ b.max_buffer
      → Returns (Submitted b e) (submit fl retrieve b e)
  unfolding submit
  submit_lem b e v within =
      elim (Validity.submit_lem e.issuer (queue_or_new b e.issuer) e
        (queue_or_new-IsValid b e.issuer v) refl) [
          | inl (c, l, ran) ↦ ((none, b), rw (ran, submit) refl, (refl, queued_before b e c l))
          | inr (_, r) ↦
              let ((t, q'), ran, (done, d)) = r in
              accept b e q' v within (ran ∙ ap (λ u. ok (u, q')) done) (filed-Files b e q' v d)
        ]
