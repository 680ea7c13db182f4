-- ===== src/Raft/Cluster.antt =====
-- src/annex/cluster/raft.py and simulator.py: replicas that exchange messages. The network may delay,
-- drop, repeat and reorder: any message that was ever sent may be delivered, at any time.
use python_pj.Prelude.{ℕ, ◌≡◌, Option, List, [], ◌++◌, String, ◌==◌, string_eq, if◌then◌else◌}
use python_pj.Prelude.Members.{In}
use python_pj.Raft.Types.{follower, Command, Message, RaftNode}
use python_pj.Raft.Log.{compact}
use python_pj.Raft.Calls.{tick, propose}
use python_pj.Raft.Handlers.{handle}
use python_pj.Raft.Frame.{core}

pub record System (A M D : Type 0) : Type 0 where
  pub nodes : String → RaftNode A M D
  pub sent : List (Message A D)

module _ {A M D : Type 0} where
  -- one replica has a new state, and its messages are sent
  abbrev pub after : System A M D → String → RaftNode A M D × List (Message A D) → System A M D
  after s i r = record { nodes = λ j. if i == j then r.0 else s.nodes j; sent = r.1 ++ s.sent }

  -- The moves of a cluster with members `ms`: a replica's clock, a message that arrives, a client's
  -- command, and log compaction.
  pub data Step (ms : List String) (s t : System A M D) : Type 0 where
    ticks : (i : String) (now : ℕ) → In i ms → t ≡ after s i (tick now (s.nodes i)) → Step ms s t
    delivers :
        (m : Message A D) (now : ℕ)
        → In m s.sent
        → In m.dst ms
        → t ≡ after s m.dst (handle m now (s.nodes m.dst))
        → Step ms s t
    proposes :
        (i : String) (c : Command A)
        → In i ms
        → t ≡ after s i ((propose c (s.nodes i)).0, [])
        → Step ms s t
    compacts :
        (i : String) (up_to : Option ℕ)
        → In i ms
        → t ≡ after s i ((compact up_to (s.nodes i)).0, [])
        → Step ms s t

  -- The membership is `ms` at every replica.
  abbrev pub Stable : List String → System A M D → Type 0
  Stable ms s = (i : String) → (s.nodes i).members ≡ ms

  -- Before any message every replica is a follower with no votes, under its own name.
  abbrev pub Booted : System A M D → Type 0
  Booted s =
      (s.sent ≡ [])
      × ((i : String) → (core (s.nodes i)).id ≡ i)
      × ((i : String) → (s.nodes i).role ≡ follower)
      × ((i : String) → (s.nodes i).votes ≡ [])

  -- The states that a cluster reaches while its membership does not change.
  pub data Reached (ms : List String) : System A M D → Type 0 where
    start : (s : System A M D) → Booted s → Stable ms s → Reached ms s
    next : {s t : System A M D} → Reached ms s → Step ms s t → Stable ms t → Reached ms t
