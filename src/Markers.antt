-- ===== src/Markers.antt =====
-- packages/core/markers: the marker sequences over the DAG of blocks.
pub mod Collection
pub mod Sequence
pub mod Manager
mod Tests
