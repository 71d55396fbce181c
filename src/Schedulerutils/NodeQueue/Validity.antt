-- ===== src/Schedulerutils/NodeQueue/Validity.antt =====
-- The invariant of NodeQueue, and what each operation does to a valid queue.
use zipp.Base.{
  if◌then◌else◌, ◌==◌, ℕ, ◌+◌, ◌-◌, ◌≤◌, ◌<◌, ◌≡◌, refl, List, ◌∷◌, none, some, true, false, length,
  get_elem?, ◌==◌, if◌then◌else◌, ok, arith, Returns, sum_by, SameItems, sum_by-one,
  weight-le-sum_by, lt-get_elem?, Option-cases, inl, inr, ◌⊎◌,
}
use zipp.Base.Assoc.{
  lookup, insert, delete, IsMap, sum_values, lookup-insert, lookup-delete, insert-IsMap,
  delete-IsMap, sum_values-insert_new, sum_values-delete,
}
use zipp.Schedulerutils.ElementHeap.{Element}
use zipp.Schedulerutils.ElementHeap.Contents.{IsHeap, push_lem, pop_lem}
use zipp.Schedulerutils.NodeQueue.{NodeQueue, create, submit, unsubmit, ready, pop_front}

-- 1 for an element of another issuer.
abbrev pub foreign : ℕ → Element → ℕ
foreign k e = if e.issuer == k then 0 else 1

-- The queue of node `k`: it counts its elements, files each submitted one under its ID, keeps the
-- ready ones in heap order, and holds elements of `k` only.
pub record IsValid (k : ℕ) (q : NodeQueue) : Type 0 where
  pub owner : q.node_id ≡ k
  pub count : q.size ≡ length q.submitted + length q.inbox
  pub keys : IsMap q.submitted
  pub ids : (j : ℕ) (e : Element) → lookup j q.submitted ≡ some e → (e.id ≡ j) × (e.issuer ≡ k)
  pub ready_owner : sum_by (foreign k) q.inbox ≡ 0
  pub order : IsHeap q.inbox

-- The weight of the IDs that the queue holds, submitted or ready.
abbrev pub held : (ℕ → ℕ) → NodeQueue → ℕ
held w q = sum_values (λ e. w e.id) q.submitted + sum_by (λ e. w e.id) q.inbox

pub create-IsValid : (k : ℕ) → IsValid k (create k)
unfolding create lookup
create-IsValid k = record {
  owner = refl;
  count = omega arith;
  keys = tt;
  ids = λ j e h. ground arith;
  ready_owner = refl;
  order = λ c p r. absurd (omega arith);
}

length-insert_new :
    (k : ℕ) (e : Element) (m : List (ℕ × Element))
    → lookup k m ≡ none
    → length (insert k e m) ≡ length m + 1
length-insert_new k e m h =
    ground (arith, sum_values-insert_new (λ _. 1) k e m h, sum_by-one m, sum_by-one (insert k e m))

length-delete :
    (k : ℕ) (e : Element) (m : List (ℕ × Element))
    → IsMap m
    → lookup k m ≡ some e
    → length (delete k m) + 1 ≡ length m
length-delete k e m d h =
    ground (arith, sum_values-delete (λ _. 1) k e m d h, sum_by-one m, sum_by-one (delete k m))

length-SameItems : (xs ys : List Element) → SameItems xs ys → length xs ≡ length ys
length-SameItems xs ys s = omega (arith, s (λ _. 1), sum_by-one xs, sum_by-one ys)

-- What an accepted Submit leaves.
pub record Adds (k : ℕ) (q : NodeQueue) (e : Element) (q' : NodeQueue) : Type 0 where
  pub valid : IsValid k q'
  pub grown : q'.size ≡ q.size + 1
  pub gained : (w : ℕ → ℕ) → held w q' ≡ held w q + w e.id

-- What taking one element off leaves.
pub record Drops (k : ℕ) (q : NodeQueue) (e : Element) (q' : NodeQueue) : Type 0 where
  pub valid : IsValid k q'
  pub shrunk : q'.size + 1 ≡ q.size
  pub lost : (w : ℕ → ℕ) → held w q' + w e.id ≡ held w q

-- An element of the node is refused if its ID is among the submitted, and added otherwise.
pub submit_lem :
    (k : ℕ) (q : NodeQueue) (e : Element)
    → IsValid k q
    → e.issuer ≡ k
    → ((b : Element) × (lookup e.id q.submitted ≡ some b) × (submit q e ≡ ok (false, q)))
      ⊎ ((lookup e.id q.submitted ≡ none)
          × Returns (λ r. (r.0 ≡ true) × Adds k q e r.1) (submit q e))
unfolding submit
submit_lem k q e v o = elim (Option-cases (lookup e.id q.submitted)) [
  | inr (b, h) ↦ inl (b, h, ground (arith, v.owner))
  | inl h ↦ inr (
    h,
    (
      (true, record q { submitted = insert e.id e q.submitted; size = q.size + 1 }),
      ground (arith, v.owner),
      (
        refl,
        record {
          valid = record {
            owner = v.owner;
            count = omega (arith, v.count, length-insert_new e.id e q.submitted h);
            keys = insert-IsMap e.id e q.submitted v.keys;
            ids = λ j b p. ground (arith, lookup-insert e.id j e q.submitted, v.ids j b);
            ready_owner = v.ready_owner;
            order = v.order;
          };
          grown = refl;
          gained = λ w. omega (arith, sum_values-insert_new (λ b. w b.id) e.id e q.submitted h);
        },
      ),
    ),
  )
]

-- Unsubmit takes a submitted element off.
pub unsubmit_lem :
    (k : ℕ) (q : NodeQueue) (e b : Element)
    → IsValid k q
    → lookup e.id q.submitted ≡ some b
    → ((unsubmit q e).0 ≡ true) × Drops k q e (unsubmit q e).1
unfolding unsubmit
unsubmit_lem k q e b v h =
    rw (h, unsubmit)
      (
        refl,
        record {
          valid = record {
            owner = v.owner;
            count = omega (arith, v.count, length-delete e.id b q.submitted v.keys h);
            keys = delete-IsMap e.id q.submitted v.keys;
            ids = λ j c p. ground (arith, lookup-delete e.id j q.submitted, v.ids j c);
            ready_owner = v.ready_owner;
            order = v.order;
          };
          shrunk = omega (arith, v.count, length-delete e.id b q.submitted v.keys h);
          lost = λ w.
              ground (
                arith,
                v.ids e.id b h,
                sum_values-delete (λ c. w c.id) e.id b q.submitted v.keys h,
              );
        },
      )

-- What Ready leaves: the same IDs and the same size, with the element in the inbox.
pub record Readies (k : ℕ) (q : NodeQueue) (e : Element) (q' : NodeQueue) : Type 0 where
  pub valid : IsValid k q'
  pub kept : q'.size ≡ q.size
  pub same : (w : ℕ → ℕ) → held w q' ≡ held w q
  pub gone : lookup e.id q'.submitted ≡ none
  pub left : (j : ℕ) → lookup j q'.submitted ≡ (if e.id == j then none else lookup j q.submitted)
  pub inbox : SameItems q'.inbox (e ∷ q.inbox)

-- Ready moves a submitted element to the inbox.
pub ready_lem :
    (k : ℕ) (q : NodeQueue) (e b : Element)
    → IsValid k q
    → e.issuer ≡ k
    → lookup e.id q.submitted ≡ some b
    → Returns (λ r. (r.0 ≡ true) × Readies k q e r.1) (ready q e)
unfolding ready
ready_lem k q e b v o h =
    let (inbox, pushed, (heap, same)) = push_lem q.inbox e v.order in
    (
      (true, record q { submitted = delete e.id q.submitted; inbox = inbox }),
      rw (h, ready, pushed) refl,
      (
        refl,
        record {
          valid = record {
            owner = v.owner;
            count = omega (
              arith,
              v.count,
              length-delete e.id b q.submitted v.keys h,
              length-SameItems inbox (e ∷ q.inbox) same,
            );
            keys = delete-IsMap e.id q.submitted v.keys;
            ids = λ j c p. ground (arith, lookup-delete e.id j q.submitted, v.ids j c);
            ready_owner = ground (arith, same (foreign k), v.ready_owner);
            order = heap;
          };
          kept = refl;
          same = λ w. ground (
            arith,
            v.ids e.id b h,
            same (λ c. w c.id),
            sum_values-delete (λ c. w c.id) e.id b q.submitted v.keys h,
          );
          gone = ground (arith, lookup-delete e.id e.id q.submitted);
          left = λ j. lookup-delete e.id j q.submitted;
          inbox = same;
        },
      ),
    )

pub ready_absent :
    (q : NodeQueue) (e : Element) → lookup e.id q.submitted ≡ none → ready q e ≡ ok (false, q)
unfolding ready
ready_absent q e h = rw (h, ready) refl

pub unsubmit_absent :
    (q : NodeQueue) (e : Element) → lookup e.id q.submitted ≡ none → unsubmit q e ≡ (false, q)
unfolding unsubmit
unsubmit_absent q e h = rw (h, unsubmit) refl

-- What PopFront hands out: the front of the inbox, which no ready element is earlier than.
pub record Pops (k : ℕ) (q : NodeQueue) (r : Element × NodeQueue) : Type 0 where
  pub drops : Drops k q r.0 r.1
  pub front : get_elem? q.inbox 0 ≡ some r.0
  pub owner : r.0.issuer ≡ k
  pub earliest :
      (i : ℕ) (e : Element) → get_elem? q.inbox i ≡ some e → r.0.issuing_time ≤ e.issuing_time
  pub submitted : r.1.submitted ≡ q.submitted

pub front-owner :
    (k : ℕ) (q : NodeQueue) (e : Element)
    → IsValid k q
    → get_elem? q.inbox 0 ≡ some e
    → e.issuer ≡ k
front-owner k q e v h = ground (arith, v.ready_owner, weight-le-sum_by (foreign k) q.inbox 0 e h)

pub pop_front_lem :
    (k : ℕ) (q : NodeQueue) → IsValid k q → 0 < length q.inbox → Returns (Pops k q) (pop_front q)
unfolding pop_front
pop_front_lem k q v p =
    let ((e, rest), popped, s) = pop_lem q.inbox v.order p in
    let size = length-SameItems (e ∷ rest) q.inbox s.same in
    (
      (e, record q { inbox = rest; size = q.size - 1 }),
      rw popped refl,
      record {
        drops = record {
          valid = record {
            owner = v.owner;
            count = omega (arith, v.count, size);
            keys = v.keys;
            ids = v.ids;
            ready_owner = ground (arith, s.same (foreign k), v.ready_owner);
            order = s.order;
          };
          shrunk = omega (arith, v.count, size);
          lost = λ w. omega (arith, s.same (λ c. w c.id));
        };
        front = s.front;
        owner = front-owner k q e v s.front;
        earliest = λ i c h. ground (arith, s.earliest i, lt-get_elem? q.inbox i c h);
        submitted = refl;
      },
    )
