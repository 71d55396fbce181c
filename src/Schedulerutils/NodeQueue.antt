-- ===== src/Schedulerutils/NodeQueue.antt =====
-- packages/core/mesh_old/schedulerutils/nodequeue.go: NodeQueue, the blocks of one node. The
-- atomic size is a number of the record; a map is walked in the order of its association list.
pub mod Validity
use zipp.Base.{
  ℕ, ◌+◌, ◌-◌, List, [], ◌++◌, map, Option, none, some, Bool, true, false, get_elem?, ◌==◌,
  if◌then◌else◌, Result, ok, panic, ◌>>=◌,
}
use zipp.Base.Assoc.{lookup, insert, delete}
use zipp.Schedulerutils.ElementHeap
use zipp.Schedulerutils.ElementHeap.{Element}

pub record NodeQueue : Type 0 where
  pub node_id : ℕ
  pub submitted : List (ℕ × Element)
  pub inbox : List Element
  pub size : ℕ

-- NewNodeQueue
unfoldable pub create : ℕ → NodeQueue
create node_id = record { node_id = node_id; submitted = []; inbox = []; size = 0 }

-- Size, which a nil receiver may call.
unfoldable pub queue_size : Option NodeQueue → ℕ
queue_size none = 0
queue_size (some q) = q.size

unfoldable pub submit : NodeQueue → Element → Result (Bool × NodeQueue)
submit q element =
    if q.node_id == element.issuer
    then (elim (lookup element.id q.submitted) [
      | some _ ↦ ok (false, q)
      | none ↦
          ok (
            true,
            record q { submitted = insert element.id element q.submitted; size = q.size + 1 },
          )
    ])
    else panic

unfoldable pub unsubmit : NodeQueue → Element → Bool × NodeQueue
unsubmit q element = elim (lookup element.id q.submitted) [
  | none ↦ (false, q)
  | some _ ↦ (true, record q { submitted = delete element.id q.submitted; size = q.size - 1 })
]

unfoldable pub ready : NodeQueue → Element → Result (Bool × NodeQueue)
ready q element = elim (lookup element.id q.submitted) [
  | none ↦ ok (false, q)
  | some _ ↦ do
    inbox ← ElementHeap.push q.inbox element
    ok (true, record q { submitted = delete element.id q.submitted; inbox = inbox })
]

-- IDs
unfoldable pub ids : NodeQueue → List ℕ
ids q = map (λ e. e.0) q.submitted ++ map (λ e. e.id) q.inbox

-- Front, which a nil receiver may call.
unfoldable pub front : Option NodeQueue → Option Element
front none = none
front (some q) = get_elem? q.inbox 0

-- PopFront
unfoldable pub pop_front : NodeQueue → Result (Element × NodeQueue)
pop_front q = do
  (element, inbox) ← ElementHeap.pop q.inbox
  ok (element, record q { inbox = inbox; size = q.size - 1 })
