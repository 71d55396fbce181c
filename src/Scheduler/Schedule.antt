-- ===== src/Scheduler/Schedule.antt =====
-- packages/core/mesh_old/scheduler.go: schedule, and the two handlers that pass its result on.
use zipp.Base.{
  ℕ, zero, suc, ◌+◌, ◌-◌, ◌^◌, List, [], ◌∷◌, ◌++◌, Option, none, some, Bool, true, false, length,
  ltb, ◌==◌, ◌&&◌, if◌then◌else◌, Result, ok, panic, ◌>>=◌, deref,
}
use zipp.Base.Assoc.{lookup, insert}
use zipp.Base.Floats.{Float64}
use zipp.Schedulerutils.ElementHeap.{Element}
use zipp.Schedulerutils.NodeQueue as QueueModule
use zipp.Schedulerutils.NodeQueue.{NodeQueue}
use zipp.Schedulerutils.BufferQueue
use zipp.Schedulerutils.BufferQueue.{BufferQueue}
use zipp.Scheduler.{
  Scheduler, World, Event, skipped, scheduled, deficit_of, update_deficit, max_rat, quanta, refresh,
  update_active_nodes_list, update_children, unsubmit,
}
use zipp.Scheduler.Rat

-- math.MaxInt64
abbrev pub max_int64 : ℕ
max_int64 = 2 ^ 63 - 1

-- What the search for the scheduling node carries: `rounds`, `schedulingNode`, and the events.
pub record Search : Type 0 where
  pub rounds : Rat.Rat
  pub node : Option ℕ
  pub events : List Event

module _ (fl : Float64) (w : World fl) (s : Scheduler fl) where
  -- How often the deficit of a node needs to be incremented until the block can be scheduled.
  unfoldable pub rounds_for : ℕ → Element → Result Rat.Rat
  rounds_for id blk = do
    let remaining =
        max_rat (Rat.sub (Rat.of_int blk.size) (deficit_of s.deficits id)) (Rat.of_int 0)
    q ← quanta fl s id
    i ← Rat.inv q
    ok (Rat.mul remaining i)

  -- The block is confirmed and was issued some time ago.
  unfoldable pub is_skipped : Element → Bool
  is_skipped blk = w.is_confirmed blk.id && ltb (blk.issuing_time + s.confirmed_threshold) w.now

  -- The body of the first loop: skips confirmed blocks, and looks at the first other one.
  unfoldable pub scan : ℕ → Search → BufferQueue → Result (Search × BufferQueue)
  scan zero a b = panic
  scan (suc fuel) a b = do
    q ← deref (BufferQueue.current b)
    elim (QueueModule.front (some q)) [
      | none ↦ ok (a, b)
      | some blk ↦ elim (ltb w.now blk.issuing_time) [
        | Bool.true ↦ ok (a, b)
        | Bool.false ↦ elim (is_skipped blk) [
          | Bool.true ↦ do
            (_, b') ← BufferQueue.pop_front b
            scan fuel (record a { events = a.events ++ skipped blk.id ∷ [] }) b'
          | Bool.false ↦ do
            r ← rounds_for q.node_id blk
            ok (if Rat.lt r a.rounds then record a { rounds = r; node = some q.node_id } else a, b)
        ]
      ]
    ]

  unfoldable pub scan_queue : Search → BufferQueue → NodeQueue → Result (Search × BufferQueue)
  scan_queue a b q = scan (suc (length q.inbox)) a b

  -- The second loop: every node's deficit grows by the number of rounds.
  unfoldable pub grow :
      Rat.Rat
      → List (ℕ × Rat.Rat)
      → BufferQueue
      → NodeQueue
      → Result (List (ℕ × Rat.Rat) × BufferQueue)
  grow rounds deficits b q = do
    u ← quanta fl s q.node_id
    deficits' ← update_deficit deficits q.node_id (Rat.mul u rounds)
    ok (deficits', b)

  -- The third loop: every node before the scheduling one gets its quanta once more.
  unfoldable pub top_up :
      ℕ → ℕ → List (ℕ × Rat.Rat) → BufferQueue → Result (List (ℕ × Rat.Rat) × BufferQueue)
  top_up zero node deficits b = panic
  top_up (suc fuel) node deficits b = do
    q ← deref (BufferQueue.current b)
    elim (q.node_id == node) [
      | Bool.true ↦ ok (deficits, b)
      | Bool.false ↦ do
        u ← quanta fl s q.node_id
        deficits' ← update_deficit deficits q.node_id u
        top_up fuel node deficits' (BufferQueue.next b)
    ]

  -- What follows the search, for the node that it found.
  unfoldable pub take : Search → ℕ → BufferQueue → Result (Option Element × Scheduler fl)
  take a node b = do
    (deficits, b') ←
        (if Rat.lt (Rat.of_int 0) a.rounds
          then BufferQueue.walk (length b.ring) (grow a.rounds) b.ring s.deficits b
          else ok (s.deficits, b))
    (deficits', b'') ← top_up (suc (length b'.ring)) node deficits b'
    (blk, b3) ← BufferQueue.pop_front b''
    deficits'' ← update_deficit deficits' blk.issuer (Rat.neg_int blk.size)
    ok (some blk, record s { buffer = b3; deficits = deficits''; events = a.events })

  -- schedule, from the active nodes on.
  unfoldable pub schedule_active : Result (Option Element × Scheduler fl)
  schedule_active = elim (BufferQueue.current s.buffer) [
    | none ↦ ok (none, s)
    | some _ ↦ do
      (a, b) ←
          BufferQueue.walk (length s.buffer.ring) scan_queue s.buffer.ring
            (record { rounds = Rat.of_int max_int64; node = none; events = s.events }) s.buffer
      elim a.node [
        | none ↦ ok (none, record s { buffer = b; events = a.events })
        | some node ↦ take a node b
      ]
  ]

module _ (fl : Float64) where
  -- schedule
  unfoldable pub schedule : World fl → Scheduler fl → Result (Option Element × Scheduler fl)
  schedule w s = do
    let s1 = refresh fl w s
    s2 ← update_active_nodes_list fl s1.cache.raw_access_mana_vector s1
    schedule_active fl w s2

  -- SetScheduled(true) and the event, if the block was not scheduled before.
  unfoldable pub mark_scheduled : ℕ → Scheduler fl → Bool × Scheduler fl
  mark_scheduled id s = elim (lookup id s.metadata) [
    | none ↦ (false, s)
    | some d ↦ if d.is_scheduled then (false, s) else (
      true,
      record s {
        metadata = insert id (record d { is_scheduled = true }) s.metadata;
        events = s.events ++ scheduled id ∷ [];
      },
    )
  ]

  -- One tick of mainLoop, with the handler of BlockScheduled.
  unfoldable pub tick : World fl → Scheduler fl → Result (Scheduler fl)
  tick w s = do
    (blk, s') ← schedule w s
    elim blk [
      | none ↦ ok s'
      | some e ↦
          let (fresh, s'') = mark_scheduled e.id s' in
          if fresh then update_children fl w (w.children e.id) s'' else ok s''
    ]

  unfoldable pub was_scheduled : Scheduler fl → ℕ → Bool
  was_scheduled s id = elim (lookup id s.metadata) [ none ↦ false | some d ↦ d.is_scheduled ]

  -- The handler of BlockAccepted.
  unfoldable pub on_block_confirmed : World fl → ℕ → Scheduler fl → Result (Scheduler fl)
  on_block_confirmed w id s = elim (was_scheduled s id) [
    | Bool.true ↦ ok s
    | Bool.false ↦ update_children fl w (w.children id) (elim (lookup id w.blocks) [
      | none ↦ s
      | some block ↦
          if ltb (block.element.issuing_time + s.confirmed_threshold) w.now
          then (let s' = (unsubmit fl w id s).1 in
              record s' { events = s'.events ++ skipped id ∷ [] })
          else s
    ])
  ]
