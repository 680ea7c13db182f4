-- ===== src/Raft/Types.antt =====
-- src/annex/cluster/raft.py: log entries, the messages, and the state of a node.
-- `A` is the type of client commands, `M` the state machine's state, `D` its snapshots.
use python_pj.Prelude.{ℕ, String, Bool, true, false, Option, List}
use python_pj.Prelude.Dict.{Dict}

pub data Role : Type 0 where
  follower candidate leader : Role

-- `role is Role.LEADER` and so on
abbrev pub is_leader : Role → Bool
is_leader leader = true
is_leader _ = false

abbrev pub is_candidate : Role → Bool
is_candidate candidate = true
is_candidate _ = false

abbrev pub is_follower : Role → Bool
is_follower follower = true
is_follower _ = false

-- A command is a membership, under the key CONFIG_KEY, or the state machine's.
pub data Command (A : Type 0) : Type 0 where
  config : List String → Command A
  client : A → Command A

pub record LogEntry (A : Type 0) : Type 0 where
  pub term : ℕ
  pub index : ℕ
  pub command : Command A

pub record RequestVote : Type 0 where
  pub term : ℕ
  pub candidate_id : String
  pub last_log_index : ℕ
  pub last_log_term : ℕ

pub record RequestVoteReply : Type 0 where
  pub term : ℕ
  pub vote_granted : Bool
  pub voter : String

pub record AppendEntries (A : Type 0) : Type 0 where
  pub term : ℕ
  pub leader_id : String
  pub prev_log_index : ℕ
  pub prev_log_term : ℕ
  pub entries : List (LogEntry A)
  pub leader_commit : ℕ

pub record AppendEntriesReply : Type 0 where
  pub term : ℕ
  pub success : Bool
  pub follower_id : String
  pub match_index : ℕ
  pub conflict_index : ℕ

pub record InstallSnapshot (D : Type 0) : Type 0 where
  pub term : ℕ
  pub leader_id : String
  pub last_included_index : ℕ
  pub last_included_term : ℕ
  pub members : List String
  pub snapshot : Option D

pub record InstallSnapshotReply : Type 0 where
  pub term : ℕ
  pub follower_id : String
  pub match_index : ℕ

pub data Payload (A D : Type 0) : Type 0 where
  request_vote : RequestVote → Payload A D
  vote_reply : RequestVoteReply → Payload A D
  append_entries : AppendEntries A → Payload A D
  append_reply : AppendEntriesReply → Payload A D
  install_snapshot : InstallSnapshot D → Payload A D
  install_reply : InstallSnapshotReply → Payload A D

pub record Message (A D : Type 0) : Type 0 where
  pub src : String
  pub dst : String
  pub payload : Payload A D

-- `randint k lo hi` is what the k-th draw of the node's random generator gives for that range;
-- `draws` counts the draws made. `machine` is what the three callbacks read and write.
pub record RaftNode (A M D : Type 0) : Type 0 where
  pub id : String
  pub members : List String
  pub role : Role
  pub current_term : ℕ
  pub voted_for : Option String
  pub log : List (LogEntry A)
  pub commit_index : ℕ
  pub last_applied : ℕ
  pub leader_id : Option String
  pub snapshot_index : ℕ
  pub snapshot_term : ℕ
  pub snapshot_data : Option D
  pub next_index : Dict String ℕ
  pub match_index : Dict String ℕ
  pub votes : List String
  pub randint : ℕ → ℕ → ℕ → ℕ
  pub draws : ℕ
  pub election_low : ℕ
  pub election_high : ℕ
  pub heartbeat_interval : ℕ
  pub election_deadline : ℕ
  pub next_heartbeat : ℕ
  pub apply_fn : Option (A → M → M)
  pub snapshot_fn : Option (M → D)
  pub restore_fn : Option (Option D → M → M)
  pub machine : M
  pub applied_commands : List A
