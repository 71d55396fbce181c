-- ===== src/Scheduler.antt =====
-- packages/core/mesh_old/scheduler.go: Scheduler, the deficit round robin over the nodes' queues.
-- The methods run under the scheduler's locks, one after another. The clock, the confirmation
-- oracle, the mana retrievers and the stored blocks are arguments; the times and flags that the
-- scheduler writes into the block metadata, and the events that it triggers, are state. The ticker
-- and the shutdown channel drive the main loop from outside and are left out.
pub mod Rat
pub mod Schedule
pub mod Nodes
pub mod Safety
pub mod Handlers
pub mod Children
mod Tests
use zipp.Base.{
  ℕ, zero, suc, ◌+◌, ◌-◌, ◌*◌, ◌^◌, List, [], ◌∷◌, ◌++◌, Option, none, some, Bool, true, false,
  length, ltb, ◌==◌, ◌&&◌, ◌||◌, not, if◌then◌else◌, Result, ok, panic, ◌>>=◌, deref,
}
use zipp.Base.Assoc.{lookup, insert, delete}
use zipp.Base.Floats.{Float64}
use zipp.Schedulerutils.ElementHeap.{Element}
use zipp.Schedulerutils.NodeQueue as QueueModule
use zipp.Schedulerutils.NodeQueue.{NodeQueue}
use zipp.Schedulerutils.BufferQueue
use zipp.Schedulerutils.BufferQueue.{BufferQueue}
use zipp.Schedulerutils.AccessManaCache as Cache
use zipp.Schedulerutils.AccessManaCache.{AccessManaCache}
use Rat

-- MaxBlockSize, and MaxDeficit as a rational.
abbrev pub max_block_size : ℕ
max_block_size = 64 * 1024

unfoldable pub max_deficit : Rat.Rat
unfolding Rat.of_int
max_deficit = Rat.of_int max_block_size

unfoldable pub min_rat : Rat.Rat → Rat.Rat → Rat.Rat
unfolding Rat.lt
min_rat x y = if Rat.lt x y then x else y

unfoldable pub max_rat : Rat.Rat → Rat.Rat → Rat.Rat
unfolding Rat.lt
max_rat x y = if Rat.lt y x then x else y

-- The events that the scheduler triggers.
pub data Event : Type 0 where
  discarded skipped scheduled : ℕ → Event
  failed : Event

-- The part of BlockMetadata that the scheduler reads and writes.
pub record Metadata : Type 0 where
  pub is_scheduled : Bool
  pub queued_time : ℕ
  pub discarded_time : ℕ

-- A stored block: what the queues see of it, and its parents.
pub record Block : Type 0 where
  pub element : Element
  pub parents : List ℕ

-- What a method that returns an error returned.
pub data Reply : Type 0 where
  done not_running not_stored : Reply

abbrev pub deficit_of : List (ℕ × Rat.Rat) → ℕ → Rat.Rat
deficit_of m id = elim (lookup id m) [ none ↦ Rat.of_int 0 | some d ↦ d ]

-- updateDeficit, on the map of deficits.
unfoldable pub update_deficit : List (ℕ × Rat.Rat) → ℕ → Rat.Rat → Result (List (ℕ × Rat.Rat))
unfolding min_rat max_deficit Rat.add Rat.is_negative
update_deficit deficits id d =
    let deficit = Rat.add (deficit_of deficits id) d in
    if Rat.is_negative deficit then panic else ok (insert id (min_rat deficit max_deficit) deficits)

module _ (fl : Float64) where
  open fl use {F, lt, le, of_int, ceil, trunc}

  -- MinMana
  abbrev pub min_mana : F
  min_mana = of_int 1

  pub record Scheduler : Type 0 where
    pub buffer : BufferQueue
    pub deficits : List (ℕ × Rat.Rat)
    pub cache : AccessManaCache fl
    pub started : Bool
    pub stopped : Bool
    pub rate : ℕ
    pub confirmed_threshold : ℕ
    pub metadata : List (ℕ × Metadata)
    pub events : List Event

  -- NewScheduler
  unfoldable pub create : ℕ → ℕ → ℕ → Scheduler
  create max_buffer rate threshold = record {
    buffer = BufferQueue.create max_buffer;
    deficits = [];
    cache = Cache.create fl min_mana;
    started = false;
    stopped = false;
    rate = rate;
    confirmed_threshold = threshold;
    metadata = [];
    events = [];
  }

  -- What a call sees of the rest of the node.
  pub record World : Type 0 where
    pub now : ℕ
    pub mana_vector : List (ℕ × F)
    pub total_mana : F
    pub blocks : List (ℕ × Block)
    pub children : ℕ → List ℕ
    pub is_confirmed : ℕ → Bool

  -- Shutdown
  unfoldable pub shutdown : Scheduler → Scheduler
  shutdown s = record s { stopped = true }

  unfoldable pub set_rate : Scheduler → ℕ → Scheduler
  set_rate s rate = if not s.stopped then record s { rate = rate } else s

  unfoldable pub node_queue_size : Scheduler → ℕ → ℕ
  unfolding BufferQueue.node_queue
  node_queue_size s id = QueueModule.queue_size (BufferQueue.node_queue s.buffer id)

  -- GetManaFromCache
  unfoldable pub get_mana_from_cache : Scheduler → ℕ → ℕ
  get_mana_from_cache s id = ceil (Cache.get_cached_mana fl s.cache id)

  -- Quanta
  unfoldable pub quanta : Scheduler → ℕ → Result Rat.Rat
  quanta s id =
      Rat.new_rat (get_mana_from_cache s id) (trunc (Cache.get_cached_total_mana fl s.cache))

  unfoldable pub refresh : World → Scheduler → Scheduler
  refresh w s = record s {
    cache = Cache.refresh_cache_if_necessary fl s.cache w.now w.mana_vector w.total_mana;
  }

  -- A write to the metadata of a stored block.
  unfoldable pub consume : (Metadata → Metadata) → ℕ → List (ℕ × Metadata) → List (ℕ × Metadata)
  consume f id m = elim (lookup id m) [ none ↦ m | some d ↦ insert id (f d) m ]

  -- The loop of submit over the dropped blocks.
  unfoldable pub discard : World → List ℕ → Scheduler → Scheduler
  unfolding consume
  discard w [] s = s
  discard w (id ∷ ids) s = discard w ids (record s {
    metadata = consume (λ d. record d { discarded_time = w.now }) id s.metadata;
    events = s.events ++ discarded id ∷ [];
  })

  -- The buffer's part of submit: an error of the buffer is a panic.
  unfoldable pub submit_buffer : World → Element → Scheduler → Result (Reply × Scheduler)
  submit_buffer w blk s = do
    (result, buffer) ← BufferQueue.submit fl (Cache.get_cached_mana fl s.cache) s.buffer blk
    ids ← deref result
    ok (done, discard w ids (record s { buffer = buffer }))

  -- submit
  unfoldable pub submit_block : World → Element → Scheduler → Result (Reply × Scheduler)
  unfolding consume
  submit_block w blk s =
      if s.stopped
      then ok (not_running, s)
      else submit_buffer w blk (
          refresh w (record s {
            metadata = consume (λ d. record d { queued_time = w.now }) blk.id s.metadata;
          }))

  unfoldable pub submit : World → ℕ → Scheduler → Result (Reply × Scheduler)
  submit w id s = elim (lookup id w.blocks) [
    | none ↦ ok (not_stored, s)
    | some block ↦ submit_block w block.element s
  ]

  unfoldable pub unsubmit : World → ℕ → Scheduler → Reply × Scheduler
  unsubmit w id s = elim (lookup id w.blocks) [
    | none ↦ (not_stored, s)
    | some block ↦ (done, record s { buffer = (BufferQueue.unsubmit s.buffer block.element).1 })
  ]

  -- ready
  unfoldable pub ready_block : Element → Scheduler → Result Scheduler
  ready_block blk s = do
    (_, buffer) ← BufferQueue.ready s.buffer blk
    ok (record s { buffer = buffer })

  unfoldable pub ready : World → ℕ → Scheduler → Result (Reply × Scheduler)
  ready w id s = elim (lookup id w.blocks) [
    | none ↦ ok (not_stored, s)
    | some block ↦ do s' ← ready_block block.element s; ok (done, s')
  ]

  unfoldable pub submit_and_ready : World → Element → Scheduler → Result (Reply × Scheduler)
  submit_and_ready w blk s = do
    (reply, s') ← submit_block w blk s
    elim reply [ done ↦ do s'' ← ready_block blk s'; ok (done, s'') | other ↦ ok (other, s') ]

  -- isEligible: `false` without metadata.
  unfoldable pub is_eligible : World → Scheduler → ℕ → Bool
  is_eligible w s id = elim (lookup id s.metadata) [
    | none ↦ false
    | some d ↦ d.is_scheduled || w.is_confirmed id
  ]

  -- The loop over the parents.
  unfoldable pub all_eligible : World → Scheduler → List ℕ → Bool
  all_eligible w s [] = true
  all_eligible w s (id ∷ ids) = is_eligible w s id && all_eligible w s ids

  -- isReady
  unfoldable pub is_ready : World → Scheduler → ℕ → Bool
  is_ready w s id = elim (lookup id w.blocks) [
    | none ↦ true
    | some block ↦ all_eligible w s block.parents
  ]

  -- tryReady
  unfoldable pub try_ready : World → ℕ → Scheduler → Result Scheduler
  try_ready w id s =
      if is_ready w s id
      then (do
        (reply, s') ← ready w id s
        ok (elim reply [ done ↦ s' | _ ↦ record s' { events = s'.events ++ failed ∷ [] } ]))
      else ok s

  -- updateChildren
  unfoldable pub update_children : World → List ℕ → Scheduler → Result Scheduler
  update_children w [] s = ok s
  update_children w (id ∷ ids) s = do s' ← try_ready w id s; update_children w ids s'

  -- A node without an entry, or with less than MinMana.
  unfoldable pub is_poor : List (ℕ × F) → ℕ → Bool
  is_poor mana id = elim (lookup id mana) [ none ↦ true | some m ↦ lt m min_mana ]

  -- A poor node with no blocks.
  unfoldable pub is_idle : List (ℕ × F) → NodeQueue → Bool
  is_idle mana node = is_poor mana node.node_id && node.size == 0

  -- The first loop of updateActiveNodesList: nodes with too little mana and no blocks go.
  unfoldable pub prune : ℕ → List (ℕ × F) → Scheduler → Result Scheduler
  prune zero mana s = ok s
  prune (suc rounds) mana s = do
    node ← deref (BufferQueue.current s.buffer)
    elim (is_idle mana node) [
      | Bool.true ↦ do
        buffer ← BufferQueue.remove_node s.buffer node.node_id
        prune rounds mana (record s { buffer = buffer; deficits = delete node.node_id s.deficits })
      | Bool.false ↦ prune rounds mana (record s { buffer = BufferQueue.next s.buffer })
    ]

  -- The second loop: nodes with enough mana get a deficit and a queue.
  unfoldable pub activate : List (ℕ × F) → Scheduler → Scheduler
  activate [] s = s
  activate ((id, m) ∷ mana) s = activate mana (
      if lt m min_mana then s else (elim (lookup id s.deficits) [
        | some _ ↦ s
        | none ↦ record s {
          deficits = insert id (Rat.of_int 0) s.deficits;
          buffer = BufferQueue.insert_node s.buffer id;
        }
      ]))

  -- updateActiveNodesList
  unfoldable pub update_active_nodes_list : List (ℕ × F) → Scheduler → Result Scheduler
  update_active_nodes_list mana s = do
    s' ← prune (length s.buffer.active_node) mana s
    ok (activate mana s')
