-- ===== src/Schedulerutils/Tests.antt =====
-- The theorems of the directory at a concrete buffer.
use zipp.Base.{
  ℕ, ◌+◌, ◌≡◌, refl, List, [], ◌∷◌, Option, none, some, true, false, arith, ok, Returns, elem,
  is_some, SameItems,
}
use zipp.Base.Assoc.{lookup, insert, delete}
use zipp.Base.Fractions.{frac, fractions, lt_num, div_num}
use zipp.Schedulerutils.ElementHeap.{Element}
use zipp.Schedulerutils.ElementHeap
use zipp.Schedulerutils.ElementHeap.Contents.{IsHeap, IsPop, push_lem, pop_lem}
use zipp.Schedulerutils.NodeQueue.{NodeQueue}
use zipp.Schedulerutils.NodeQueue as NodeQueueModule
use zipp.Schedulerutils.BufferQueue.{BufferQueue}
use zipp.Schedulerutils.BufferQueue
use zipp.Schedulerutils.BufferQueue.Validity.{
  IsValid, Readies, Pops, ready_lem, pop_front_lem, remove_node_lem,
}
use zipp.Schedulerutils.BufferQueue.Counts.{total_blocks_count-size}
use zipp.Schedulerutils.BufferQueue.Removal.{remove_node_other}
use zipp.Schedulerutils.AccessManaCache.{AccessManaCache}
use zipp.Schedulerutils.BufferQueue.Submit.{submit_lem, Submitted}
use zipp.Schedulerutils.BufferQueue.Drop.{DropsAll, drop_head_lem}
use zipp.Schedulerutils.Examples.{
  mana, mana-Scales, block, queue7, queue9, full, queue7-IsValid, full-IsValid,
}

-- Node 7 has two blocks at mana 8, and node 8 two at mana 9: the oldest block of node 7 goes.
full_drops :
    (elim (BufferQueue.submit fractions mana full (block 4 8 30)) as (λ _. Option (List ℕ × ℕ)) [
      | ok (some l, b) ↦ some (l, b.size)
      | _ ↦ none
    ])
    ≡ some (1 ∷ [], 3)
unfolding BufferQueue.submit BufferQueue.queue_or_new BufferQueue.filed NodeQueueModule.submit
    BufferQueue.drop_head BufferQueue.drop_loop BufferQueue.drop_one BufferQueue.walk
    BufferQueue.visit BufferQueue.current BufferQueue.scale_step BufferQueue.drop_from
    BufferQueue.oldest_of BufferQueue.unsubmit NodeQueueModule.unsubmit NodeQueueModule.front
    NodeQueueModule.pop_front ElementHeap.pop ElementHeap.pop_last ElementHeap.swap ElementHeap.down
    BufferQueue.next BufferQueue.is_at lookup insert lt_num div_num
full_drops = refl

submit_lem_example :
    Returns (Submitted full (block 4 8 30)) (BufferQueue.submit fractions mana full (block 4 8 30))
submit_lem_example =
    submit_lem fractions mana mana-Scales full (block 4 8 30) full-IsValid (omega arith)

drop_head_lem_example :
    Returns
      (DropsAll fractions mana mana-Scales (record full { max_buffer = 1 }) [])
      (BufferQueue.drop_head fractions mana (record full { max_buffer = 1 }))
drop_head_lem_example =
    drop_head_lem fractions mana mana-Scales (record full { max_buffer = 1 })
      (record {
        keys = full-IsValid.keys;
        distinct = full-IsValid.distinct;
        active = full-IsValid.active;
        queues = full-IsValid.queues;
        count = full-IsValid.count;
      })

ready_lem_example :
    Returns (λ r. Readies full (block 3 8 5) r.1) (BufferQueue.ready full (block 3 8 5))
ready_lem_example = ready_lem full (block 3 8 5) full-IsValid

pop_front_lem_example : Returns (Pops full queue7) (BufferQueue.pop_front full)
unfolding lookup
pop_front_lem_example =
    pop_front_lem full 7 (8 ∷ 9 ∷ []) queue7 full-IsValid refl refl (omega arith)

remove_node_lem_example :
    Returns
      (λ b'.
        IsValid b'
        × (b'.ring ≡ 8 ∷ 9 ∷ [])
        × (b'.active_node ≡ delete 7 full.active_node)
        × (b'.size + 2 ≡ 3)
        × (b'.max_buffer ≡ 3))
      (BufferQueue.remove_node full 7)
unfolding lookup
remove_node_lem_example = remove_node_lem full 7 (8 ∷ 9 ∷ []) queue7 full-IsValid refl refl

remove_node_other_example :
    Returns
      (λ b'.
        (b'.ring ≡ 7 ∷ 9 ∷ [])
        × (lookup 9 b'.active_node ≡ none)
        × ((k : ℕ)
            → elem k (8 ∷ []) ≡ true
            → (elem k b'.ring ≡ false) × (is_some (lookup k b'.active_node) ≡ true))
        × (¬ IsValid b'))
      (BufferQueue.remove_node full 9)
unfolding lookup
remove_node_other_example = remove_node_other full 7 9 (8 ∷ []) [] queue9 full-IsValid refl refl

total_blocks_count-size_example : BufferQueue.total_blocks_count full ≡ ok (3, full)
total_blocks_count-size_example = total_blocks_count-size full full-IsValid

push_lem_example :
    Returns
      (λ h'. IsHeap h' × SameItems h' (block 5 7 3 ∷ queue7.inbox))
      (ElementHeap.push queue7.inbox (block 5 7 3))
push_lem_example = push_lem queue7.inbox (block 5 7 3) queue7-IsValid.order

pop_lem_example : Returns (IsPop queue7.inbox) (ElementHeap.pop queue7.inbox)
pop_lem_example = pop_lem queue7.inbox queue7-IsValid.order (omega arith)

abbrev cache : AccessManaCache fractions
cache = record {
  raw_access_mana_vector = (7, frac 1 1) ∷ [];
  cache_refresh_time = 0;
  min_mana = frac 1 0;
  total_mana = frac 9 0;
}
