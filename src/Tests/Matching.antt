-- ===== src/Tests/Matching.antt =====
-- src/annex/cluster/raft.py: an entry that a leader appends and a follower takes over.
use python_pj.Prelude.{
  ℕ, ◌≡◌, refl, inl, inr, String, some, List, [], ◌∷◌, ◌==◌, string_eq, nat_eq, Bool-cases,
  contains, arith, str_ltb, get_elem?,
}
use python_pj.Prelude.Dict.{get, insert, remove, from_keys}
use python_pj.Prelude.Members.{In}
use python_pj.Raft.Types.{client, LogEntry, append_entries, Message, RaftNode}
use python_pj.Raft.Log.{
  sorted_set, sorted, peers, quorum, last_index, last_term, insert_sorted, push_entry,
  append_command, term_at, entry_at, append_all, append_entry, place_entry,
}
use python_pj.Raft.Calls.{
  new_deadline, become_follower, become_leader, append_from, append_to, send_all, broadcast_append,
  start_election, tick, propose,
}
use python_pj.Raft.Handlers.{
  catch_up, up_to_date, cast_vote, on_request_vote, on_vote_reply, handle_payload, handle,
  on_append, follow, conflicts, follow_commit,
}
use python_pj.Raft.Start.{new_node}
use python_pj.Raft.Cluster.{System, after, Stable, ticks, delivers, proposes}
use python_pj.Raft.Prefix.{Whole, Uncompacted, begins, goes_on, log_matching}
use python_pj.Tests.Raft.{
  three, booted, ticked, ballot, voted, vote, elected, three-Distinct, Stable-after, booted-Stable,
  booted-Booted, ticked-Stable, voted-Stable, elected-Stable, ballot-sent, vote-sent,
}

abbrev first_entry : LogEntry ℕ
first_entry = record { term = 1; index = 1; command = client 7 }

abbrev asked : System ℕ ℕ ℕ
asked = after elected "a" ((propose (client 7) (elected.nodes "a")).0, [])

abbrev told : System ℕ ℕ ℕ
told = after asked "a" (tick 203 (asked.nodes "a"))

-- the leader's message to "b"
abbrev entry_message : Message ℕ ℕ
entry_message = record {
  src = "a";
  dst = "b";
  payload = append_entries (record {
    term = 1;
    leader_id = "a";
    prev_log_index = 0;
    prev_log_term = 0;
    entries = first_entry ∷ [];
    leader_commit = 0;
  });
}

abbrev taken : System ℕ ℕ ℕ
taken = after told "b" (handle entry_message 204 (told.nodes "b"))

Whole-after :
    (s : System ℕ ℕ ℕ) (i : String) (r : RaftNode ℕ ℕ ℕ × List (Message ℕ ℕ))
    → Whole s
    → r.0.snapshot_index ≡ 0
    → Whole (after s i r)
Whole-after s i r w e j = elim (Bool-cases (i == j)) [ inl y ↦ rw y e | inr y ↦ rw y (w j) ]

entry_message-sent : In entry_message told.sent
unfolding tick start_election become_follower send_all new_deadline new_node sorted_set sorted
    insert_sorted peers quorum last_index last_term handle handle_payload on_request_vote up_to_date
    cast_vote catch_up on_vote_reply become_leader broadcast_append append_to append_from get insert
    remove from_keys str_ltb contains propose push_entry append_command term_at entry_at on_append
    follow conflicts append_all append_entry place_entry follow_commit
entry_message-sent = inl refl

asked-Stable : Stable three asked
unfolding tick start_election become_follower send_all new_deadline new_node sorted_set sorted
    insert_sorted peers quorum last_index last_term handle handle_payload on_request_vote up_to_date
    cast_vote catch_up on_vote_reply become_leader broadcast_append append_to append_from get insert
    remove from_keys str_ltb contains propose push_entry append_command term_at entry_at on_append
    follow conflicts append_all append_entry place_entry follow_commit
asked-Stable =
    Stable-after elected "a" ((propose (client 7) (elected.nodes "a")).0, []) elected-Stable refl

told-Stable : Stable three told
unfolding tick start_election become_follower send_all new_deadline new_node sorted_set sorted
    insert_sorted peers quorum last_index last_term handle handle_payload on_request_vote up_to_date
    cast_vote catch_up on_vote_reply become_leader broadcast_append append_to append_from get insert
    remove from_keys str_ltb contains propose push_entry append_command term_at entry_at on_append
    follow conflicts append_all append_entry place_entry follow_commit
told-Stable = Stable-after asked "a" (tick 203 (asked.nodes "a")) asked-Stable refl

taken-Stable : Stable three taken
unfolding tick start_election become_follower send_all new_deadline new_node sorted_set sorted
    insert_sorted peers quorum last_index last_term handle handle_payload on_request_vote up_to_date
    cast_vote catch_up on_vote_reply become_leader broadcast_append append_to append_from get insert
    remove from_keys str_ltb contains propose push_entry append_command term_at entry_at on_append
    follow conflicts append_all append_entry place_entry follow_commit
taken-Stable = Stable-after told "b" (handle entry_message 204 (told.nodes "b")) told-Stable refl

booted-Whole : Whole booted
unfolding tick start_election become_follower send_all new_deadline new_node sorted_set sorted
    insert_sorted peers quorum last_index last_term handle handle_payload on_request_vote up_to_date
    cast_vote catch_up on_vote_reply become_leader broadcast_append append_to append_from get insert
    remove from_keys str_ltb contains propose push_entry append_command term_at entry_at on_append
    follow conflicts append_all append_entry place_entry follow_commit
booted-Whole = λ i. refl

booted-empty : (i : String) → (booted.nodes i).log ≡ []
unfolding tick start_election become_follower send_all new_deadline new_node sorted_set sorted
    insert_sorted peers quorum last_index last_term handle handle_payload on_request_vote up_to_date
    cast_vote catch_up on_vote_reply become_leader broadcast_append append_to append_from get insert
    remove from_keys str_ltb contains propose push_entry append_command term_at entry_at on_append
    follow conflicts append_all append_entry place_entry follow_commit
booted-empty = λ i. refl

ticked-Whole : Whole ticked
unfolding tick start_election become_follower send_all new_deadline new_node sorted_set sorted
    insert_sorted peers quorum last_index last_term handle handle_payload on_request_vote up_to_date
    cast_vote catch_up on_vote_reply become_leader broadcast_append append_to append_from get insert
    remove from_keys str_ltb contains propose push_entry append_command term_at entry_at on_append
    follow conflicts append_all append_entry place_entry follow_commit
ticked-Whole = Whole-after booted "a" (tick 200 (booted.nodes "a")) booted-Whole refl

voted-Whole : Whole voted
unfolding tick start_election become_follower send_all new_deadline new_node sorted_set sorted
    insert_sorted peers quorum last_index last_term handle handle_payload on_request_vote up_to_date
    cast_vote catch_up on_vote_reply become_leader broadcast_append append_to append_from get insert
    remove from_keys str_ltb contains propose push_entry append_command term_at entry_at on_append
    follow conflicts append_all append_entry place_entry follow_commit
voted-Whole = Whole-after ticked "b" (handle ballot 201 (ticked.nodes "b")) ticked-Whole refl

elected-Whole : Whole elected
unfolding tick start_election become_follower send_all new_deadline new_node sorted_set sorted
    insert_sorted peers quorum last_index last_term handle handle_payload on_request_vote up_to_date
    cast_vote catch_up on_vote_reply become_leader broadcast_append append_to append_from get insert
    remove from_keys str_ltb contains propose push_entry append_command term_at entry_at on_append
    follow conflicts append_all append_entry place_entry follow_commit
elected-Whole = Whole-after voted "a" (handle vote 202 (voted.nodes "a")) voted-Whole refl

asked-Whole : Whole asked
unfolding tick start_election become_follower send_all new_deadline new_node sorted_set sorted
    insert_sorted peers quorum last_index last_term handle handle_payload on_request_vote up_to_date
    cast_vote catch_up on_vote_reply become_leader broadcast_append append_to append_from get insert
    remove from_keys str_ltb contains propose push_entry append_command term_at entry_at on_append
    follow conflicts append_all append_entry place_entry follow_commit
asked-Whole =
    Whole-after elected "a" ((propose (client 7) (elected.nodes "a")).0, []) elected-Whole refl

told-Whole : Whole told
unfolding tick start_election become_follower send_all new_deadline new_node sorted_set sorted
    insert_sorted peers quorum last_index last_term handle handle_payload on_request_vote up_to_date
    cast_vote catch_up on_vote_reply become_leader broadcast_append append_to append_from get insert
    remove from_keys str_ltb contains propose push_entry append_command term_at entry_at on_append
    follow conflicts append_all append_entry place_entry follow_commit
told-Whole = Whole-after asked "a" (tick 203 (asked.nodes "a")) asked-Whole refl

taken-Whole : Whole taken
unfolding tick start_election become_follower send_all new_deadline new_node sorted_set sorted
    insert_sorted peers quorum last_index last_term handle handle_payload on_request_vote up_to_date
    cast_vote catch_up on_vote_reply become_leader broadcast_append append_to append_from get insert
    remove from_keys str_ltb contains propose push_entry append_command term_at entry_at on_append
    follow conflicts append_all append_entry place_entry follow_commit
taken-Whole = Whole-after told "b" (handle entry_message 204 (told.nodes "b")) told-Whole refl

taken-Uncompacted : Uncompacted three taken
taken-Uncompacted =
    let s0 = begins booted booted-Booted booted-Stable booted-Whole booted-empty in
    let s1 : Uncompacted three ticked =
      goes_on s0 (ticks "a" 200 (inl refl) refl) ticked-Stable ticked-Whole in
    let s2 : Uncompacted three voted =
      goes_on s1 (delivers ballot 201 ballot-sent (inr (inl refl)) refl) voted-Stable voted-Whole in
    let s3 : Uncompacted three elected =
      goes_on s2 (delivers vote 202 vote-sent (inl refl) refl) elected-Stable elected-Whole in
    let s4 : Uncompacted three asked =
      goes_on s3 (proposes "a" (client 7) (inl refl) refl) asked-Stable asked-Whole in
    let s5 : Uncompacted three told =
      goes_on s4 (ticks "a" 203 (inl refl) refl) told-Stable told-Whole in
    goes_on s5 (delivers entry_message 204 entry_message-sent (inr (inl refl)) refl) taken-Stable
      taken-Whole

a-entry : get_elem? (taken.nodes "a").log 0 ≡ some first_entry
unfolding tick start_election become_follower send_all new_deadline new_node sorted_set sorted
    insert_sorted peers quorum last_index last_term handle handle_payload on_request_vote up_to_date
    cast_vote catch_up on_vote_reply become_leader broadcast_append append_to append_from get insert
    remove from_keys str_ltb contains propose push_entry append_command term_at entry_at on_append
    follow conflicts append_all append_entry place_entry follow_commit
a-entry = refl

b-entry : get_elem? (taken.nodes "b").log 0 ≡ some first_entry
unfolding tick start_election become_follower send_all new_deadline new_node sorted_set sorted
    insert_sorted peers quorum last_index last_term handle handle_payload on_request_vote up_to_date
    cast_vote catch_up on_vote_reply become_leader broadcast_append append_to append_from get insert
    remove from_keys str_ltb contains propose push_entry append_command term_at entry_at on_append
    follow conflicts append_all append_entry place_entry follow_commit
b-entry = refl

log_matching_example : get_elem? (taken.nodes "a").log 0 ≡ get_elem? (taken.nodes "b").log 0
log_matching_example =
    log_matching three three-Distinct taken-Uncompacted "a" "b" 0 first_entry first_entry a-entry
      b-entry refl 0 (omega arith)
