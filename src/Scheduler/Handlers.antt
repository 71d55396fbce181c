-- ===== src/Scheduler/Handlers.antt =====
-- packages/core/mesh_old/scheduler.go: Start, the plain readers, and the handler that passes a
-- booked block to the scheduler.
use zipp.Base.{ℕ, List, [], ◌∷◌, ◌++◌, Bool, true, foldl, Result, ok, ◌>>=◌}
use zipp.Base.Assoc.{insert}
use zipp.Base.Floats.{Float64}
use zipp.Schedulerutils.NodeQueue as QueueModule
use zipp.Schedulerutils.BufferQueue
use zipp.Scheduler.{Scheduler, World, done, failed, submit, try_ready}

module _ (fl : Float64) where
  -- Start; the main loop is a sequence of ticks.
  unfoldable pub start : Scheduler fl → Scheduler fl
  start s = record s { started = true }

  unfoldable pub running : Scheduler fl → Bool
  running s = s.started

  unfoldable pub max_buffer_size : Scheduler fl → ℕ
  max_buffer_size s = s.buffer.max_buffer

  unfoldable pub buffer_size : Scheduler fl → ℕ
  buffer_size s = s.buffer.size

  unfoldable pub ready_blocks_count : Scheduler fl → Result (ℕ × Scheduler fl)
  ready_blocks_count s = do
    (n, b) ← BufferQueue.ready_blocks_count s.buffer
    ok (n, record s { buffer = b })

  unfoldable pub total_blocks_count : Scheduler fl → Result (ℕ × Scheduler fl)
  total_blocks_count s = do
    (n, b) ← BufferQueue.total_blocks_count s.buffer
    ok (n, record s { buffer = b })

  -- NodeQueueSizes
  unfoldable pub node_queue_sizes : Scheduler fl → Result (List (ℕ × ℕ) × Scheduler fl)
  node_queue_sizes s = do
    (ids, b) ← BufferQueue.node_ids s.buffer
    let size_of : ℕ → ℕ = λ id. QueueModule.queue_size (BufferQueue.node_queue b id)
    ok (foldl (λ sizes id. insert id (size_of id) sizes) [] ids, record s { buffer = b })

  -- The handler of BlockProcessed: an error of Submit is an event.
  unfoldable pub on_block_processed : World fl → ℕ → Scheduler fl → Result (Scheduler fl)
  on_block_processed w id s = do
    (reply, s') ← submit fl w id s
    try_ready fl w id
        (elim reply [ done ↦ s' | _ ↦ record s' { events = s'.events ++ failed ∷ [] } ])
