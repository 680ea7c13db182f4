-- ===== src/Raft.antt =====
-- src/annex/cluster/raft.py: one replica of the consensus protocol. `Types` has the messages and the
-- state, `Log` what the handlers read and write of the log, `Calls` and `Handlers` the entry points,
-- `Start` a new node, `Cluster` replicas and their network. The others have the proofs: about the log
-- (`Index`, `Refine`, `Replication`, `Commit`), about elections (`Frame`, `Ballot`, `Votes`, `Plain`,
-- `Winning`, `Safe`, `Network`) and about the logs of all replicas (`Links`, `Crown`, `Moves`, `Calm`,
-- `Yields`, `Grows`, `Matching`, `Advance`, `Appends`, `Prefix`).
pub mod Types
pub mod Log
pub mod Calls
pub mod Handlers
pub mod Start
pub mod Links
pub mod Frame
pub mod Index
pub mod Refine
pub mod Replication
pub mod Commit
pub mod Ballot
pub mod Votes
pub mod Plain
pub mod Winning
pub mod Crown
pub mod Moves
pub mod Calm
pub mod Yields
pub mod Grows
pub mod Cluster
pub mod Safe
pub mod Network
pub mod Matching
pub mod Advance
pub mod Appends
pub mod Prefix
