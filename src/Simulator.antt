-- ===== src/Simulator.antt =====
-- src/annex/cluster/simulator.py: the virtual network, its clock and its queue. `drops` and
-- `randint` are the random generator: what its k-th call gives, for `random() < drop_rate` and for
-- `randint(*latency)`.
pub mod Refines
use python_pj.Prelude.{
  ℕ, zero, suc, ◌+◌, String, Bool, true, false, not, ◌&&◌, ◌||◌, Option, none, some, List, [], ◌∷◌,
  ◌++◌, if◌then◌else◌, ltb, leb, eqb, string_eq, contains, keep, length,
}
use python_pj.Prelude.Dict.{Dict, get, insert, keys, values}
use python_pj.Raft.Types.{Message, RaftNode, is_leader}
use python_pj.Raft.Calls.{tick}
use python_pj.Raft.Handlers.{handle}

pub record Scheduled (A D : Type 0) : Type 0 where
  pub at : ℕ
  pub seq : ℕ
  pub message : Message A D

pub record ClusterSimulator (A M D : Type 0) : Type 0 where
  pub nodes : Dict String (RaftNode A M D)
  pub time : ℕ
  pub latency_low : ℕ
  pub latency_high : ℕ
  pub drops : ℕ → Bool
  pub randint : ℕ → ℕ → ℕ → ℕ
  pub calls : ℕ
  pub queue : List (Scheduled A D)
  pub seq : ℕ
  pub partitions : List (List String)
  pub delivered : ℕ
  pub dropped : ℕ

-- `any(src in g and dst in g for g in partitions)`
abbrev in_group : String → String → List (List String) → Bool
in_group src dst [] = false
in_group src dst (g ∷ gs) = (contains src g && contains dst g) || in_group src dst gs

abbrev no_groups : List (List String) → Bool
no_groups [] = true
no_groups (g ∷ gs) = false

module _ {A D : Type 0} where
  -- `_Scheduled` orders by time, then by number; the numbers are different.
  abbrev before : Scheduled A D → Scheduled A D → Bool
  before a b = ltb a.at b.at || (eqb a.at b.at && leb a.seq b.seq)

  unfoldable pub insert_scheduled : Scheduled A D → List (Scheduled A D) → List (Scheduled A D)
  insert_scheduled a [] = a ∷ []
  insert_scheduled a (b ∷ bs) =
      let rest = insert_scheduled a bs in if before a b then a ∷ b ∷ bs else b ∷ rest

  -- `self._queue.sort()`
  unfoldable pub sort_queue : List (Scheduled A D) → List (Scheduled A D)
  unfolding insert_scheduled
  sort_queue [] = []
  sort_queue (a ∷ bs) = insert_scheduled a (sort_queue bs)

  abbrev is_due : ℕ → Scheduled A D → Bool
  is_due time m = leb m.at time

  abbrev is_later : ℕ → Scheduled A D → Bool
  is_later time m = ltb time m.at

module _ {A M D : Type 0} where
  unfoldable pub partition : List (List String) → ClusterSimulator A M D → ClusterSimulator A M D
  partition groups s = record s { partitions = groups }

  unfoldable pub heal : ClusterSimulator A M D → ClusterSimulator A M D
  heal s = record s { partitions = [] }

  unfoldable pub reachable : ClusterSimulator A M D → String → String → Bool
  reachable s src dst = no_groups s.partitions || in_group src dst s.partitions

  -- one message of `_enqueue`: out of reach, dropped by chance, or put in the queue
  unfoldable pub enqueue_one : Message A D → ClusterSimulator A M D → ClusterSimulator A M D
  unfolding reachable
  enqueue_one msg s =
      if not (reachable s msg.src msg.dst)
      then record s { dropped = suc s.dropped }
      else if s.drops s.calls
      then record s { dropped = suc s.dropped; calls = suc s.calls }
      else record s {
        seq = suc s.seq;
        calls = suc (suc s.calls);
        queue =
            s.queue
            ++ record {
              at = s.time + s.randint (suc s.calls) s.latency_low s.latency_high;
              seq = suc s.seq;
              message = msg;
            }
              ∷ [];
      }

  unfoldable pub enqueue_each : List (Message A D) → ClusterSimulator A M D → ClusterSimulator A M D
  unfolding enqueue_one
  enqueue_each [] s = s
  enqueue_each (msg ∷ msgs) s = enqueue_each msgs (enqueue_one msg s)

  unfoldable pub enqueue : List (Message A D) → ClusterSimulator A M D → ClusterSimulator A M D
  unfolding enqueue_each sort_queue
  enqueue msgs s = let t = enqueue_each msgs s in record t { queue = sort_queue t.queue }

  -- the tick of one node
  unfoldable pub tick_at : String → ClusterSimulator A M D → ClusterSimulator A M D
  unfolding enqueue
  tick_at id s = elim (get s.nodes id) [
    | none ↦ s
    | some node ↦
        let (left, msgs) = tick s.time node in
        enqueue msgs (record s { nodes = insert s.nodes id left })
  ]

  unfoldable pub tick_all : List String → ClusterSimulator A M D → ClusterSimulator A M D
  unfolding tick_at
  tick_all [] s = s
  tick_all (id ∷ ids) s = tick_all ids (tick_at id s)

  unfoldable pub deliver : Scheduled A D → ClusterSimulator A M D → ClusterSimulator A M D
  unfolding enqueue
  deliver scheduled s = elim (get s.nodes scheduled.message.dst) [
    | none ↦ s
    | some target ↦
        let (left, msgs) = handle scheduled.message s.time target in
        enqueue msgs (record s {
          delivered = suc s.delivered;
          nodes = insert s.nodes scheduled.message.dst left;
        })
  ]

  unfoldable pub deliver_all :
      List (Scheduled A D) → ClusterSimulator A M D → ClusterSimulator A M D
  unfolding deliver
  deliver_all [] s = s
  deliver_all (m ∷ ms) s = deliver_all ms (deliver m s)

  unfoldable pub step : ℕ → ClusterSimulator A M D → ClusterSimulator A M D
  unfolding tick_all deliver_all
  step dt s =
      let s1 = record s { time = s.time + dt } in
      let s2 = tick_all (keys s1.nodes) s1 in
      deliver_all (keep (is_due s2.time) s2.queue)
        (record s2 { queue = keep (is_later s2.time) s2.queue })

  unfoldable pub run_steps : ℕ → ℕ → ClusterSimulator A M D → ClusterSimulator A M D
  unfolding step
  run_steps zero dt s = s
  run_steps (suc n) dt s = run_steps n dt (step dt s)

  unfoldable pub leaders : ClusterSimulator A M D → List (RaftNode A M D)
  leaders s = keep (λ n. is_leader n.role) (values s.nodes)

  -- `max(…, key=lambda n: n.current_term)`, the first of those with the highest term
  abbrev latest : RaftNode A M D → List (RaftNode A M D) → RaftNode A M D
  latest n [] = n
  latest n (m ∷ ms) = latest (if ltb n.current_term m.current_term then m else n) ms

  abbrev latest_of : List (RaftNode A M D) → Option (RaftNode A M D)
  latest_of [] = none
  latest_of (n ∷ ns) = some (latest n ns)

  unfoldable pub leader_of : ClusterSimulator A M D → Option (RaftNode A M D)
  unfolding leaders
  leader_of s = latest_of (leaders s)

  -- `wait_for_leader`: none where the source raises TimeoutError after `max_ms` steps
  unfoldable pub wait_for_leader :
      ℕ → ClusterSimulator A M D → Option (RaftNode A M D × ClusterSimulator A M D)
  unfolding step leaders leader_of
  wait_for_leader zero s = none
  wait_for_leader (suc n) s =
      let t = step 1 s in
      let rest = wait_for_leader n t in
      elim (leader_of t) [
        | none ↦ rest
        | some c ↦ if eqb (length (leaders t)) 1 then some (c, t) else rest
      ]
