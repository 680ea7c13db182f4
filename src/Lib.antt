-- ===== src/Lib.antt =====
-- Annex, an embedded vector database: its replication, storage and multi-version parts.
--
-- The program. A Database (annex/db.py) is a directory of collections. A Collection writes every
-- document to an LSM store (annex/storage/lsm.py), which logs it in a write-ahead log, keeps a memtable
-- and the table of newest records, and flushes to immutable segments (annex/storage/segment.py) that it
-- merges. Beside the store a collection keeps the versions of each document under dense integer keys
-- (annex/mvcc.py), which the vector index and the text index share, so that readers at a snapshot are
-- not disturbed by writers. A cluster replicates the commands of a collection by Raft
-- (annex/cluster/raft.py). All paths here are under src/.
--
-- The files.
--   Prelude      lists, Booleans, Python's dict as an association list in insertion order, membership.
--   Raft         cluster/raft.py. Types: messages and RaftNode's fields. Log: the helpers and the
--                commit, apply and compaction code. Calls: tick, propose and the membership
--                changes. Handlers: handle and the `_on_` methods. Each is a function from the node to
--                the node and the messages it returns. Start: __init__. Cluster: the step relation of
--                nodes on a network. Proofs on one node's log: Index, Refine, Replication, Commit.
--                Proofs on elections: Frame, Ballot, Votes, Plain, Winning, Safe, Network. Proofs on
--                the logs of all nodes: Links, Crown, Moves, Calm, Yields, Grows, Matching, Advance,
--                Appends, Prefix.
--   Storage      storage/lsm.py and storage/segment.py. Segment and Lsm: the definitions. Replay,
--                Keyed and Tables: what applying records in order gives. Recovery: the invariant
--                Durable, which relates the table and the memtable to the files. Images, Compacted,
--                Flush and Restart: the operations and it.
--   Mvcc         mvcc.py.
--   Collection   db.py: upsert, delete, transactions, vacuum; Reads: reading, batches, rebuilding after
--                a restart; Query: search; Rebuild: rebuilding the indexes. Snapshots, Deletes, Vacuum,
--                Conflict, Committed, Meanwhile, Batches, Visible, Rebuilt, Carried, Kept, Reopened,
--                Mirror: the proofs.
--   Database     db.py: the directory of collections. Open, Names, Dropped: the proofs.
--   Simulator    cluster/simulator.py: the virtual network and clock. Refines: the proof that it
--                moves as the network of Raft does.
--   Replica      cluster/state_machine.py: applying commands to a collection, restoring a snapshot.
--   Settings     config.py and types.py: the configurations with their validation. Serial: the dict
--                that a configuration is stored as, and the proof that it is read back.
--   Text         text/tokenizer.py and text/bm25.py: the stemmer, the postings.
--   Planner      query/planner.py: the choice of a strategy, over the operations of floats.
--   Index        index/hnsw.py, index/flat.py (Flat) and index/space.py (Exact). Heap: the heaps.
--                Beam: the walks on a layer. Neighbors: the selection of neighbours. Hnsw: the index and
--                its operations, over an interface of the space of vectors. Sorted, Rounds, Descent,
--                Found, Reach, Chosen, Tidy, Entry, Levels, Sound, Adding, Search, Shuffled, Nearest: the
--                proofs, from the heaps up.
--   Ranking      query/fusion.py and the search of text/bm25.py, over the operations of floats.
--   Filter       query/filter.py: the compiler. Meaning: what a specification means; Sound and
--                Refuse: the proofs.
--   Wal          storage/codec.py and storage/wal.py: frames as bytes, the log file. Payload: the
--                payloads. Bytes, RoundTrip, Replay, Rounds, Decoding: the proofs.
--   Tests        the theorems at concrete states, and runs.
--
-- The correspondence. A method that mutates `self` is a function from the state to the state, with what
-- it returns beside it; one that raises returns none, and the state at that moment is not kept. A Python
-- int that cannot be negative is a natural number, a dict an association list whose keys are written
-- once, a set a list. The types of vectors, metadata values, client commands, machine states and
-- snapshots are parameters. The random generator is a function from the number of draws made; the clock
-- is an argument. The write-ahead log of the store and its segment files hold decoded values (Wal
-- models the bytes of frames and payloads by themselves), so the store's model rests on the codec giving
-- back what it was given.
--
-- Loops and fuel. _apply_committed runs for commit_index less last_applied rounds, _advance_commit for
-- last_index less commit_index, which are the rounds of the source's loops. WriteAheadLog.replay has as
-- many rounds as the file has bytes, and each takes a frame of 24 bytes or more. _search_layer has as
-- many rounds as there are entry points and links on the layer, _greedy_descend as many as the layer has
-- nodes. wait_for_leader has its argument. Every other loop follows a list.
--
-- The network of the proofs of election safety and of log matching is a set of messages that only
-- grows: any message ever sent may be delivered at any time, any number of times, to the node it names,
-- which covers loss, delay, repetition and reordering. A replica keeps its state: there are no crashes
-- in it.
--
-- Distances and scores are values of a type with the operations and the order that the code uses, and the
-- order is that of floats without NaN. The random level of a new node of the graph is an argument.
--
-- Not modelled: the product quantiser, which computes with matrices of floats through numpy, and the
-- factory that builds an index from a configuration; threads and locks; the HTTP server and the
-- transport; the command line; names of collections that are ".." or have a
-- slash, which lead elsewhere in the file system; what the writes of a transaction or a batch leave
-- behind when a later one raises; and a crash in the middle of one storage operation.
pub mod Prelude
pub mod Raft
pub mod Storage
pub mod Mvcc
pub mod Collection
pub mod Simulator
pub mod Settings
pub mod Text
pub mod Replica
pub mod Planner
pub mod Ranking
pub mod Wal
pub mod Filter
pub mod Index
pub mod Database
pub mod Tests
