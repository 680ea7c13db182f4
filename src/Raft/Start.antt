-- ===== src/Raft/Start.antt =====
-- src/annex/cluster/raft.py: a new node.
use python_pj.Prelude.{ℕ, String, Option, none, List, [], ◌∷◌}
use python_pj.Raft.Types.{follower, RaftNode}
use python_pj.Raft.Log.{sorted_set}
use python_pj.Raft.Calls.{new_deadline}

module _ {A M D : Type 0} (election_low election_high heartbeat_interval : ℕ)
    (randint : ℕ → ℕ → ℕ → ℕ) (apply_fn : Option (A → M → M)) (snapshot_fn : Option (M → D))
    (restore_fn : Option (Option D → M → M)) (machine : M) where
  -- `RaftNode(node_id, peers, …)`
  unfoldable pub new_node : String → List String → RaftNode A M D
  unfolding new_deadline sorted_set
  new_node node_id peer_ids = new_deadline 0 (record {
    id = node_id;
    members = sorted_set (node_id ∷ peer_ids);
    role = follower;
    current_term = 0;
    voted_for = none;
    log = [];
    commit_index = 0;
    last_applied = 0;
    leader_id = none;
    snapshot_index = 0;
    snapshot_term = 0;
    snapshot_data = none;
    next_index = [];
    match_index = [];
    votes = [];
    randint = randint;
    draws = 0;
    election_low = election_low;
    election_high = election_high;
    heartbeat_interval = heartbeat_interval;
    election_deadline = 0;
    next_heartbeat = 0;
    apply_fn = apply_fn;
    snapshot_fn = snapshot_fn;
    restore_fn = restore_fn;
    machine = machine;
    applied_commands = [];
  })
