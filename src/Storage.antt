-- ===== src/Storage.antt =====
-- src/annex/storage: segments (`Segment`) and the log-structured store over them (`Lsm`). The others have
-- the proofs about the store.
pub mod Segment
pub mod Lsm
pub mod Replay
pub mod Keyed
pub mod Recovery
pub mod Images
pub mod Compacted
pub mod Flush
pub mod Restart
pub mod Tables
