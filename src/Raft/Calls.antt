-- ===== src/Raft/Calls.antt =====
-- src/annex/cluster/raft.py: what a node does when its host calls it: `tick`, `propose`, `add_server` and
-- `remove_server`, each with the node that it leaves and the messages to send or the index.
use python_pj.Prelude.{
  ℕ, suc, ◌+◌, ◌-◌, String, Bool, true, false, not, Option, none, some, List, [], ◌∷◌, ◌++◌, map,
  leb, if◌then◌else◌, ◌==◌, string_eq, contains, drop, keep,
}
use python_pj.Prelude.Dict.{get, from_keys}
use python_pj.Raft.Types.{
  follower, candidate, leader, is_leader, Command, AppendEntries, request_vote, append_entries,
  install_snapshot, Message, RaftNode,
}
use python_pj.Raft.Log.{
  config_command, peers, last_index, last_term, term_at, push_entry, apply_committed,
}

abbrev pub get_or : Option ℕ → ℕ → ℕ
get_or none d = d
get_or (some v) d = v

abbrev pub is_nil : List String → Bool
is_nil [] = true
is_nil (x ∷ xs) = false

module _ {A M D : Type 0} where
  -- `self._election_deadline = self._new_deadline(now)`
  unfoldable pub new_deadline : ℕ → RaftNode A M D → RaftNode A M D
  new_deadline now n = record n {
    election_deadline = now + n.randint n.draws n.election_low n.election_high;
    draws = suc n.draws;
  }

  unfoldable pub become_follower : ℕ → ℕ → RaftNode A M D → RaftNode A M D
  unfolding new_deadline
  become_follower term now n =
      new_deadline now
        (record n { role = follower; current_term = term; voted_for = none; votes = [] })

  unfoldable pub become_leader : ℕ → RaftNode A M D → RaftNode A M D
  become_leader now n = record n {
    role = leader;
    leader_id = some n.id;
    next_index = from_keys (peers n) (last_index n + 1);
    match_index = from_keys (peers n) 0;
    next_heartbeat = now;
  }

  -- the `AppendEntries` that follows on from `prev_index`
  unfoldable pub append_from : RaftNode A M D → ℕ → AppendEntries A
  append_from n prev_index = record {
    term = n.current_term;
    leader_id = n.id;
    prev_log_index = prev_index;
    prev_log_term = term_at n prev_index;
    entries = drop (prev_index - n.snapshot_index) n.log;
    leader_commit = n.commit_index;
  }

  -- `prev_index < snapshot_index` for `prev_index = next_idx - 1`, which may be -1
  unfoldable pub append_to : RaftNode A M D → String → List (Message A D)
  unfolding append_from
  append_to n peer =
      let next_idx = get_or (get n.next_index peer) (last_index n + 1) in
      if leb next_idx n.snapshot_index
      then record {
        src = n.id;
        dst = peer;
        payload = install_snapshot (record {
          term = n.current_term;
          leader_id = n.id;
          last_included_index = n.snapshot_index;
          last_included_term = n.snapshot_term;
          members = n.members;
          snapshot = n.snapshot_data;
        });
      }
        ∷ []
      else record {
        src = n.id;
        dst = peer;
        payload = append_entries (append_from n (next_idx - 1));
      }
        ∷ []

  unfoldable pub send_all : RaftNode A M D → List String → List (Message A D)
  send_all n [] = []
  send_all n (p ∷ ps) = append_to n p ++ send_all n ps

  unfoldable pub broadcast_append : RaftNode A M D → List (Message A D)
  unfolding send_all
  broadcast_append n = send_all n (peers n)

  unfoldable pub start_election : ℕ → RaftNode A M D → RaftNode A M D × List (Message A D)
  unfolding new_deadline become_leader
  start_election now n =
      let n1 = new_deadline now (record n {
        role = candidate;
        current_term = n.current_term + 1;
        voted_for = some n.id;
        votes = n.id ∷ [];
        leader_id = none;
      }) in
      if is_nil (peers n1) then (become_leader now n1, []) else (
        n1,
        map
            (λ p. record {
              src = n1.id;
              dst = p;
              payload = request_vote (record {
                term = n1.current_term;
                candidate_id = n1.id;
                last_log_index = last_index n1;
                last_log_term = last_term n1;
              });
            })
            (peers n1),
      )

  unfoldable pub tick : ℕ → RaftNode A M D → RaftNode A M D × List (Message A D)
  unfolding start_election
  tick now n =
      if is_leader n.role
      then (if leb n.next_heartbeat now
          then (let n1 = record n { next_heartbeat = now + n.heartbeat_interval } in
              (n1, broadcast_append n1))
          else (n, []))
      else if leb n.election_deadline now
      then start_election now n
      else (n, [])

  unfoldable pub propose : Command A → RaftNode A M D → RaftNode A M D × Option ℕ
  propose command n =
      let index = last_index n + 1 in
      let n1 = push_entry (record { term = n.current_term; index = index; command = command }) n in
      if not (is_leader n.role)
      then (n, none)
      else if is_nil (peers n1)
      then (apply_committed (record n1 { commit_index = index }), some index)
      else (n1, some index)

  unfoldable pub add_server : String → RaftNode A M D → RaftNode A M D × Option ℕ
  add_server node n =
      if contains node n.members
      then (n, none)
      else propose (config_command (n.members ++ node ∷ [])) n

  unfoldable pub remove_server : String → RaftNode A M D → RaftNode A M D × Option ℕ
  remove_server node n =
      if contains node n.members
      then propose (config_command (keep (λ m. not (m == node)) n.members)) n
      else (n, none)
