-- ===== src/Tests/Replication.antt =====
-- src/annex/cluster/raft.py: a follower that takes an entry, a leader that sends and commits one.
use python_pj.Prelude.{
  ℕ, zero, suc, ◌+◌, ◌≤◌, ◌<◌, max, ◌≡◌, ◌⊎◌, refl, inl, inr, true, Option, none, some, [], ◌∷◌,
  ◌++◌, string_eq, nat_eq, arith, length, get_elem?, All,
}
use python_pj.Prelude.Dict.{get}
use python_pj.Raft.Types.{
  leader, client, LogEntry, AppendEntries, append_reply, append_entries, RaftNode,
}
use python_pj.Raft.Log.{last_index, entry_at, term_at, apply_committed, advance_commit}
use python_pj.Raft.Calls.{new_deadline, append_to, append_from}
use python_pj.Raft.Handlers.{on_append, follow, conflicts, answer}
use python_pj.Raft.Start.{new_node}
use python_pj.Raft.Index.{Agrees}
use python_pj.Raft.Refine.{NoHole}
use python_pj.Raft.Replication.{
  IsWellFormed, Accepts, Termed, grown, on_append-Agrees, on_append-match, append_to-IsWellFormed,
}
use python_pj.Raft.Commit.{
  Advances, pending, client_commands, run_all, advance_commit-Advances, apply_committed-Applied,
}

abbrev adder : Option (ℕ → ℕ → ℕ)
adder = some (λ command total. command + total)

abbrev node : RaftNode ℕ ℕ ℕ
node = new_node 150 300 50 (λ k low high. low) adder none none 0 "b" ("a" ∷ "c" ∷ [])

abbrev entry : LogEntry ℕ
entry = record { term = 1; index = 1; command = client 5 }

abbrev sent_entries : AppendEntries ℕ
sent_entries = record {
  term = 1;
  leader_id = "a";
  prev_log_index = 0;
  prev_log_term = 0;
  entries = entry ∷ [];
  leader_commit = 0;
}

-- a leader of term 1 whose entry is at one follower
abbrev lead : RaftNode ℕ ℕ ℕ
lead = record node {
  role = leader;
  current_term = 1;
  log = entry ∷ [];
  next_index = ("a", 1) ∷ [];
  match_index = ("a", 1) ∷ ("c", 0) ∷ [];
}

abbrev committed : RaftNode ℕ ℕ ℕ
committed = record lead { commit_index = 1 }

node-NoHole : NoHole node
unfolding new_node new_deadline
node-NoHole = tt

sent-IsWellFormed : IsWellFormed sent_entries
sent-IsWellFormed = record { follow_on = (refl, tt); has_term = inr (inl refl) }

sent-Accepts : Accepts "a" sent_entries 10 node
unfolding new_node new_deadline follow conflicts term_at entry_at
sent-Accepts = (refl, refl)

on_append-Agrees_example :
    NoHole (on_append "a" sent_entries 10 node).0
    × All
        (Agrees node.snapshot_index (on_append "a" sent_entries 10 node).0.log)
        sent_entries.entries
    × ((i : ℕ)
        → node.snapshot_index + i < 0
        → get_elem? (on_append "a" sent_entries 10 node).0.log i ≡ get_elem? node.log i)
on_append-Agrees_example =
    on_append-Agrees "a" sent_entries 10 node node-NoHole sent-IsWellFormed sent-Accepts

lead-behind : lead.commit_index ≤ last_index lead
unfolding new_node new_deadline last_index
lead-behind = omega arith

committed-ahead : max committed.last_applied committed.snapshot_index ≤ committed.commit_index
unfolding new_node new_deadline
committed-ahead = omega arith

advance_commit-Advances_example : Advances lead (last_index lead) (advance_commit lead).commit_index
advance_commit-Advances_example = advance_commit-Advances lead lead-behind

apply_committed-Applied_example :
    ((apply_committed committed).applied_commands
      ≡ committed.applied_commands ++ client_commands (pending committed))
    × ((apply_committed committed).machine
        ≡ run_all committed.apply_fn (client_commands (pending committed)) committed.machine)
apply_committed-Applied_example = apply_committed-Applied committed committed-ahead

on_append-match_example :
    (m : ℕ) × ((on_append "a" sent_entries 10 node).1
      ≡ answer (grown "a" sent_entries 10 node) "a" (
          append_reply (record {
            term = (grown "a" sent_entries 10 node).current_term;
            success = true;
            follower_id = (grown "a" sent_entries 10 node).id;
            match_index = m;
            conflict_index = 0;
          })))
    × ((sent_entries.entries ≡ []) ⊎ (0 + length sent_entries.entries ≤ m))
    × (sent_entries.entries ≡ [] → m ≡ last_index node)
on_append-match_example =
    on_append-match "a" sent_entries 10 node node-NoHole sent-IsWellFormed sent-Accepts

lead-NoHole : NoHole lead
unfolding new_node new_deadline
lead-NoHole = (refl, tt)

lead-terms : (i : ℕ) (x : LogEntry ℕ) → get_elem? lead.log i ≡ some x → 0 < x.term
lead-terms zero x e = ground (arith, e)
lead-terms (suc i) x e = ground (arith, e)

lead-Termed : Termed lead "a"
unfolding new_node new_deadline
lead-Termed = record { entry_terms = lead-terms; snapshot_has_term = inl refl }

lead-sends :
    append_to lead "a"
    ≡ record {
      src = "b";
      dst = "a";
      payload = append_entries (record sent_entries { leader_id = "b" });
    }
      ∷ []
unfolding new_node new_deadline append_to append_from get last_index term_at entry_at
lead-sends = refl

append_to-IsWellFormed_example : IsWellFormed (record sent_entries { leader_id = "b" })
unfolding new_node
append_to-IsWellFormed_example =
    append_to-IsWellFormed lead "a" lead-NoHole lead-Termed
      (record sent_entries { leader_id = "b" }) lead-sends
