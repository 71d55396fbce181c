-- ===== src/Schedulerutils/BufferQueue/Removal.antt =====
-- RemoveNode of bufferqueue.go on a node that is not current.
use mathlib.Core.Path.{subst}
use zipp.Base.{
  ℕ, ◌-◌, ◌≡◌, refl, ap, ◌∙◌, List, [], ◌∷◌, ◌++◌, true, false, ok, arith, elem, elem-append, ◌==◌,
  Returns, some, none, is_some, IsDistinct, ==_refl,
}
use zipp.Base.Assoc.{lookup, delete, lookup-delete}
use zipp.Schedulerutils.NodeQueue.{NodeQueue}
use zipp.Schedulerutils.BufferQueue.{BufferQueue, remove_node, ring_remove, from}
use zipp.Schedulerutils.BufferQueue.Validity.{IsValid}

from-append :
    (r : ℕ) (before after : List ℕ)
    → elem r before ≡ false
    → from r (before ++ (r ∷ after)) ≡ r ∷ after
unfolding from
from-append r [] after h = rw (==_refl r) refl
from-append r (x ∷ before) after h = ground (arith, from-append r before after)

distinct_middle :
    (r : ℕ) (before after : List ℕ)
    → IsDistinct (before ++ (r ∷ after))
    → (elem r before ≡ false) × ((k : ℕ) → elem k before ≡ true → elem k (r ∷ after) ≡ false)
distinct_middle r [] after d = (refl, λ k m. ground arith)
distinct_middle r (x ∷ before) after d =
    let (l, m) = distinct_middle r before after d.1 in
    (
      ground (arith, elem-append x before (r ∷ after)),
      λ k h. ground (arith, m k, elem-append x before (r ∷ after), h, d.0),
    )

removed :
    (c r : ℕ) (before after : List ℕ)
    → (c == r) ≡ false
    → elem r before ≡ false
    → ring_remove (c ∷ (before ++ (r ∷ after))) r ≡ ok (c ∷ r ∷ after)
unfolding ring_remove
removed c r before after d m = rw d (ap (λ l. ok (c ∷ l)) (from-append r before after m))

-- For every valid buffer and every active node `r` other than the current node `c`, RemoveNode
-- takes `r` from the map of active nodes but leaves it on the ring, and takes the nodes between
-- `c` and `r` off the ring though they are still active; what it returns is not a valid buffer.
pub remove_node_other :
    (b : BufferQueue) (c r : ℕ) (before after : List ℕ) (q : NodeQueue)
    → IsValid b
    → b.ring ≡ c ∷ (before ++ (r ∷ after))
    → lookup r b.active_node ≡ some q
    → Returns
        (λ b'.
          (b'.ring ≡ c ∷ r ∷ after)
          × (lookup r b'.active_node ≡ none)
          × ((k : ℕ)
              → elem k before ≡ true
              → (elem k b'.ring ≡ false) × (is_some (lookup k b'.active_node) ≡ true))
          × (¬ IsValid b'))
        (remove_node b r)
unfolding remove_node
remove_node_other b c r before after q v e h =
    let apart : IsDistinct (c ∷ (before ++ (r ∷ after))) = subst IsDistinct e v.distinct in
    let middle = distinct_middle r before after apart.1 in
    let result : BufferQueue = record {
      max_buffer = b.max_buffer;
      active_node = delete r b.active_node;
      ring = c ∷ r ∷ after;
      size = b.size - q.size;
    } in
    let links : ring_remove b.ring r ≡ ok (c ∷ r ∷ after) =
      ap (λ l. ring_remove l r) e
      ∙ removed c r before after (ground (arith, apart.0, elem-append c before (r ∷ after)))
          middle.0 in
    let gone : lookup r (delete r b.active_node) ≡ none =
      ground (arith, lookup-delete r r b.active_node, ==_refl r) in
    (
      result,
      rw (h, remove_node) (rw links refl),
      (
        refl,
        gone,
        λ k m. (
          ground (arith, middle.1 k m, apart.0, elem-append c before (r ∷ after)),
          ground (
            arith,
            lookup-delete r k b.active_node,
            middle.0,
            v.active k,
            ap (elem k) e,
            elem-append k before (r ∷ after),
          ),
        ),
        λ w. ground (arith, w.active r, gone, ==_refl r),
      ),
    )
