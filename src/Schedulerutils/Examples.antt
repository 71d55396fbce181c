-- ===== src/Schedulerutils/Examples.antt =====
-- A concrete buffer of packages/core/mesh_old/schedulerutils, for the tests. Floats are fractions here.
use zipp.Base.{ℕ, suc, refl, [], ◌∷◌, arith}
use zipp.Base.Assoc.{lookup, insert, insert_all}
use zipp.Base.Fractions.{Num, frac, fractions, lt_num, div_num, lt_num_trans, lt_num_irrefl}
use zipp.Schedulerutils.ElementHeap.{Element}
use zipp.Schedulerutils.NodeQueue.{NodeQueue}
use zipp.Schedulerutils.NodeQueue as NodeQueueModule
use zipp.Schedulerutils.NodeQueue.Validity as QueueValidity
use zipp.Schedulerutils.BufferQueue.{BufferQueue}
use zipp.Schedulerutils.BufferQueue.Longest.{Scales}
use zipp.Schedulerutils.BufferQueue.Validity.{IsValid}

-- Node k has mana k + 1.
abbrev pub mana : ℕ → Num
mana k = frac (suc k) 0

pub mana-Scales : Scales fractions mana
unfolding lt_num div_num
mana-Scales = record {
  positive = λ k. ground arith;
  above_neg_inf = λ n k. refl;
  above_empty = λ n k j. ground arith;
  irrefl = lt_num_irrefl;
  trans = lt_num_trans;
}

abbrev pub block : ℕ → ℕ → ℕ → Element
block id issuer time = record { id = id; size = 100; issuer = issuer; issuing_time = time }

abbrev pub queue7 : NodeQueue
queue7 = record {
  node_id = 7;
  submitted = (2, block 2 7 20) ∷ [];
  inbox = block 1 7 10 ∷ [];
  size = 2;
}

abbrev pub queue8 : NodeQueue
queue8 = record { node_id = 8; submitted = (3, block 3 8 5) ∷ []; inbox = []; size = 1 }

abbrev pub queue9 : NodeQueue
queue9 = record { node_id = 9; submitted = []; inbox = []; size = 0 }

-- Node 7 is current, with a ready block; the buffer is full.
abbrev pub full : BufferQueue
full = record {
  max_buffer = 3;
  active_node = (7, queue7) ∷ (8, queue8) ∷ (9, queue9) ∷ [];
  ring = 7 ∷ 8 ∷ 9 ∷ [];
  size = 3;
}

pub queue7-IsValid : QueueValidity.IsValid 7 queue7
unfolding lookup
queue7-IsValid = record {
  owner = refl;
  count = refl;
  keys = (refl, tt);
  ids = λ j e h. ground arith;
  ready_owner = refl;
  order = λ c p q. absurd (omega arith);
}

queue8-IsValid : QueueValidity.IsValid 8 queue8
unfolding lookup
queue8-IsValid = record {
  owner = refl;
  count = refl;
  keys = (refl, tt);
  ids = λ j e h. ground arith;
  ready_owner = refl;
  order = λ c p q. absurd (omega arith);
}

queue9-IsValid : QueueValidity.IsValid 9 queue9
unfolding NodeQueueModule.create
queue9-IsValid = QueueValidity.create-IsValid 9

pub full-IsValid : IsValid full
unfolding lookup insert
full-IsValid = record {
  keys = (refl, (refl, (refl, tt)));
  distinct = (refl, (refl, (refl, tt)));
  active = λ k. ground arith;
  queues =
      insert_all QueueValidity.IsValid 9 queue9 ((7, queue7) ∷ (8, queue8) ∷ []) queue9-IsValid (
        insert_all QueueValidity.IsValid 8 queue8 ((7, queue7) ∷ []) queue8-IsValid
          (insert_all QueueValidity.IsValid 7 queue7 [] queue7-IsValid (λ j u h. ground arith)));
  count = refl;
}
