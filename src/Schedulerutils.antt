-- ===== src/Schedulerutils.antt =====
-- packages/core/mesh_old/schedulerutils: the queue of each node and the buffer over all of them.
pub mod ElementHeap
pub mod NodeQueue
pub mod BufferQueue
pub mod AccessManaCache
pub mod Examples
mod Tests
