-- ===== src/Tests.antt =====
-- Runs of the models, and the theorems at concrete states.
mod Raft
mod Matching
mod Storage
mod Collection
mod Committed
mod Replication
mod Filter
mod Text
mod Wal
mod Index
mod Query
mod Rebuild
mod Restart
mod Database
mod Simulator
