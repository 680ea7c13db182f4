-- ===== src/Tests/Raft.antt =====
-- src/annex/cluster/raft.py: an election among three nodes, and a follower's log.
use python_pj.Prelude.{
  ℕ, ◌+◌, ◌≡◌, ◌≢◌, refl, text_eq_iff, inl, inr, String, true, false, Option, none, some, List, [],
  ◌∷◌, ◌==◌, string_eq, nat_eq, Bool-cases, contains, arith, str_ltb,
}
use python_pj.Prelude.Dict.{get, insert, remove, from_keys}
use python_pj.Prelude.Members.{In, Distinct}
use python_pj.Raft.Types.{leader, request_vote, vote_reply, Message, RaftNode}
use python_pj.Raft.Log.{sorted_set, sorted, peers, quorum, last_index, last_term, insert_sorted}
use python_pj.Raft.Calls.{
  new_deadline, become_follower, become_leader, append_from, append_to, send_all, broadcast_append,
  start_election, tick,
}
use python_pj.Raft.Handlers.{
  catch_up, up_to_date, cast_vote, on_request_vote, on_vote_reply, handle_payload, handle,
}
use python_pj.Raft.Start.{new_node}
use python_pj.Raft.Winning.{poll, asking, start_election-wins}
use python_pj.Raft.Cluster.{System, after, Stable, Booted, Reached, start, next, ticks, delivers}
use python_pj.Raft.Network.{election_safety}

abbrev pub three : List String
three = "a" ∷ "b" ∷ "c" ∷ []

abbrev count_machine : Option (ℕ → ℕ → ℕ)
count_machine = some (λ command total. command + total)

abbrev pub base : RaftNode ℕ ℕ ℕ
base = new_node 150 300 50 (λ k low high. low) count_machine none none 0 "a" ("b" ∷ "c" ∷ [])

abbrev pub booted : System ℕ ℕ ℕ
booted = record { nodes = λ i. record base { id = i }; sent = [] }

abbrev pub ticked : System ℕ ℕ ℕ
ticked = after booted "a" (tick 200 (booted.nodes "a"))

abbrev pub ballot : Message ℕ ℕ
ballot = record {
  src = "a";
  dst = "b";
  payload =
      request_vote (record { term = 1; candidate_id = "a"; last_log_index = 0; last_log_term = 0 });
}

abbrev pub voted : System ℕ ℕ ℕ
voted = after ticked "b" (handle ballot 201 (ticked.nodes "b"))

abbrev pub vote : Message ℕ ℕ
vote = record {
  src = "b";
  dst = "a";
  payload = vote_reply (record { term = 1; vote_granted = true; voter = "b" });
}

abbrev pub elected : System ℕ ℕ ℕ
elected = after voted "a" (handle vote 202 (voted.nodes "a"))

pub apart : (s t : String) → (s == t) ≡ false → s ≢ t
apart s t e q = ground (arith, e, q, text_eq_iff s t)

pub three-Distinct : Distinct three
three-Distinct = (
  (λ i. elim i [
    | inl y ↦ apart "a" "b" refl y
    | inr j ↦ elim j [ inl y ↦ apart "a" "c" refl y | inr z ↦ z ]
  ]),
  ((λ i. elim i [ inl y ↦ apart "b" "c" refl y | inr z ↦ z ]), ((λ i. i), tt)),
)

elected-leader : (elected.nodes "a").role ≡ leader
unfolding tick start_election become_follower send_all new_deadline new_node sorted_set sorted
    insert_sorted peers quorum last_index last_term handle handle_payload on_request_vote up_to_date
    cast_vote catch_up on_vote_reply become_leader broadcast_append append_to append_from get insert
    remove from_keys str_ltb contains
elected-leader = refl

pub Stable-after :
    (s : System ℕ ℕ ℕ) (i : String) (r : RaftNode ℕ ℕ ℕ × List (Message ℕ ℕ))
    → Stable three s
    → r.0.members ≡ three
    → Stable three (after s i r)
Stable-after s i r st e j = elim (Bool-cases (i == j)) [ inl y ↦ rw y e | inr y ↦ rw y (st j) ]

pub booted-Stable : Stable three booted
unfolding tick start_election become_follower send_all new_deadline new_node sorted_set sorted
    insert_sorted peers quorum last_index last_term handle handle_payload on_request_vote up_to_date
    cast_vote catch_up on_vote_reply become_leader broadcast_append append_to append_from get insert
    remove from_keys str_ltb contains
booted-Stable i = refl

pub booted-Booted : Booted booted
unfolding tick start_election become_follower send_all new_deadline new_node sorted_set sorted
    insert_sorted peers quorum last_index last_term handle handle_payload on_request_vote up_to_date
    cast_vote catch_up on_vote_reply become_leader broadcast_append append_to append_from get insert
    remove from_keys str_ltb contains
booted-Booted = (refl, (λ i. refl), (λ i. refl), λ i. refl)

pub ticked-Stable : Stable three ticked
unfolding tick start_election become_follower send_all new_deadline new_node sorted_set sorted
    insert_sorted peers quorum last_index last_term handle handle_payload on_request_vote up_to_date
    cast_vote catch_up on_vote_reply become_leader broadcast_append append_to append_from get insert
    remove from_keys str_ltb contains
ticked-Stable = Stable-after booted "a" (tick 200 (booted.nodes "a")) booted-Stable refl

pub voted-Stable : Stable three voted
unfolding tick start_election become_follower send_all new_deadline new_node sorted_set sorted
    insert_sorted peers quorum last_index last_term handle handle_payload on_request_vote up_to_date
    cast_vote catch_up on_vote_reply become_leader broadcast_append append_to append_from get insert
    remove from_keys str_ltb contains
voted-Stable = Stable-after ticked "b" (handle ballot 201 (ticked.nodes "b")) ticked-Stable refl

pub elected-Stable : Stable three elected
unfolding tick start_election become_follower send_all new_deadline new_node sorted_set sorted
    insert_sorted peers quorum last_index last_term handle handle_payload on_request_vote up_to_date
    cast_vote catch_up on_vote_reply become_leader broadcast_append append_to append_from get insert
    remove from_keys str_ltb contains
elected-Stable = Stable-after voted "a" (handle vote 202 (voted.nodes "a")) voted-Stable refl

pub ballot-sent : In ballot ticked.sent
unfolding tick start_election become_follower send_all new_deadline new_node sorted_set sorted
    insert_sorted peers quorum last_index last_term handle handle_payload on_request_vote up_to_date
    cast_vote catch_up on_vote_reply become_leader broadcast_append append_to append_from get insert
    remove from_keys str_ltb contains
ballot-sent = inl refl

pub vote-sent : In vote voted.sent
unfolding tick start_election become_follower send_all new_deadline new_node sorted_set sorted
    insert_sorted peers quorum last_index last_term handle handle_payload on_request_vote up_to_date
    cast_vote catch_up on_vote_reply become_leader broadcast_append append_to append_from get insert
    remove from_keys str_ltb contains
vote-sent = inl refl

elected-Reached : Reached three elected
elected-Reached =
    next
      (next
        (next (start booted booted-Booted booted-Stable) (ticks "a" 200 (inl refl) refl)
          ticked-Stable)
        (delivers ballot 201 ballot-sent (inr (inl refl)) refl) voted-Stable)
      (delivers vote 202 vote-sent (inl refl) refl) elected-Stable

abbrev first : String
first = "a"

election_safety_example : first ≡ first
election_safety_example =
    election_safety three three-Distinct elected-Reached first first elected-leader elected-leader
      refl

start_election-wins_example :
    (poll 200 base ((booted.nodes "b") ∷ []) (tick 200 base).0).role ≡ leader
    × (poll 200 base ((booted.nodes "b") ∷ []) (tick 200 base).0).current_term
      ≡ base.current_term + 1
    × ((d : String) → In d (peers base) → In (asking base d) (tick 200 base).1)
unfolding tick start_election become_follower send_all new_deadline new_node sorted_set sorted
    insert_sorted peers quorum last_index last_term handle handle_payload on_request_vote up_to_date
    cast_vote catch_up on_vote_reply become_leader broadcast_append append_to append_from get insert
    remove from_keys str_ltb contains
start_election-wins_example =
    start_election-wins 200 base ((booted.nodes "b") ∷ []) (λ e. cc e) (omega arith) (omega arith)
      (((omega arith), refl), tt) (refl, tt) (omega arith)
