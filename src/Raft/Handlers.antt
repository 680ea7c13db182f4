-- ===== src/Raft/Handlers.antt =====
-- src/annex/cluster/raft.py: `handle` and the message handlers. Each returns the node that it leaves
-- and the messages to send.
use python_pj.Prelude.{
  ℕ, zero, suc, ◌+◌, ◌-◌, min, max, String, Bool, true, false, not, ◌&&◌, ◌||◌, Option, none, some,
  List, [], ◌∷◌, ltb, leb, eqb, if◌then◌else◌, ◌==◌, string_eq, contains, length, keep,
}
use python_pj.Prelude.Dict.{get, insert}
use python_pj.Raft.Types.{
  is_leader, is_candidate, is_follower, LogEntry, RequestVote, RequestVoteReply, AppendEntries,
  AppendEntriesReply, InstallSnapshot, InstallSnapshotReply, Payload, request_vote, vote_reply,
  append_entries, append_reply, install_snapshot, install_reply, Message, RaftNode,
}
use python_pj.Raft.Log.{
  quorum, last_index, last_term, term_at, adopt_members, append_all, apply_committed,
  advance_commit, back_off,
}
use python_pj.Raft.Calls.{
  get_or, new_deadline, become_follower, become_leader, append_to, broadcast_append,
}

-- `self.voted_for in (None, candidate)`
abbrev pub may_vote : Option String → String → Bool
may_vote none c = true
may_vote (some v) c = v == c

-- `self._votes.add(voter)`
abbrev pub add_vote : String → List String → List String
add_vote v votes = if contains v votes then votes else v ∷ votes

-- `conflict_index or self.next_index.get(follower, 1) - 1`
abbrev hint_or : ℕ → ℕ → ℕ
hint_or zero d = d
hint_or (suc c) d = suc c

abbrev call_restore : {M D : Type 0} → Option (Option D → M → M) → Option D → M → M
call_restore none d m = m
call_restore (some f) d m = f d m

module _ {A M D : Type 0} where
  -- the messages that a handler answers with
  abbrev pub answer : RaftNode A M D → String → Payload A D → List (Message A D)
  answer n dst p = record { src = n.id; dst = dst; payload = p } ∷ []

  -- `if term > self.current_term: self._become_follower(term, now)`
  unfoldable pub catch_up : ℕ → ℕ → RaftNode A M D → RaftNode A M D
  unfolding become_follower
  catch_up term now n = if ltb n.current_term term then become_follower term now n else n

  unfoldable pub up_to_date : RequestVote → RaftNode A M D → Bool
  up_to_date rv n =
      ltb (last_term n) rv.last_log_term
      || (eqb rv.last_log_term (last_term n) && leb (last_index n) rv.last_log_index)

  unfoldable pub cast_vote : RequestVote → ℕ → RaftNode A M D → RaftNode A M D × Bool
  unfolding new_deadline up_to_date
  cast_vote rv now n =
      if eqb rv.term n.current_term && (may_vote n.voted_for rv.candidate_id && up_to_date rv n)
      then (new_deadline now (record n { voted_for = some rv.candidate_id }), true)
      else (n, false)

  unfoldable pub on_request_vote :
      String → RequestVote → ℕ → RaftNode A M D → RaftNode A M D × List (Message A D)
  unfolding catch_up cast_vote
  on_request_vote src rv now n =
      let (n1, granted) = cast_vote rv now (catch_up rv.term now n) in
      (
        n1,
        answer n1 src
            (vote_reply (record { term = n1.current_term; vote_granted = granted; voter = n1.id })),
      )

  unfoldable pub on_vote_reply :
      RequestVoteReply → ℕ → RaftNode A M D → RaftNode A M D × List (Message A D)
  unfolding become_follower become_leader
  on_vote_reply reply now n =
      if ltb n.current_term reply.term
      then (become_follower reply.term now n, [])
      else if not (is_candidate n.role) || not (eqb reply.term n.current_term)
      then (n, [])
      else if reply.vote_granted
      then (let n1 = record n { votes = add_vote reply.voter n.votes } in
          if leb (quorum n1) (length n1.votes)
          then (become_leader now n1, broadcast_append (become_leader now n1))
          else (n1, []))
      else (n, [])

  -- `if term > self.current_term or self.role is not Role.FOLLOWER: self._become_follower(…)`, then
  -- the leader is noted and the deadline renewed
  unfoldable pub follow : ℕ → String → ℕ → RaftNode A M D → RaftNode A M D
  unfolding become_follower new_deadline
  follow term leader_id now n =
      let n1 =
        if ltb n.current_term term || not (is_follower n.role)
        then become_follower term now n
        else n in
      new_deadline now (record n1 { leader_id = some leader_id })

  unfoldable pub conflict_hint : ℕ → RaftNode A M D → ℕ
  conflict_hint prev n =
      let conflict = min prev (last_index n + 1) in
      if leb conflict (last_index n) && ltb 0 conflict
      then back_off n (term_at n conflict) conflict
      else conflict

  -- `if leader_commit > commit_index: …`
  unfoldable pub follow_commit : ℕ → RaftNode A M D → RaftNode A M D
  follow_commit leader_commit n =
      if ltb n.commit_index leader_commit
      then apply_committed (record n { commit_index = min leader_commit (last_index n) })
      else n

  -- `prev_log_index > 0 and self.term_at(prev_log_index) != prev_log_term`
  unfoldable pub conflicts : AppendEntries A → RaftNode A M D → Bool
  conflicts ae n =
      ltb 0 ae.prev_log_index && not (eqb (term_at n ae.prev_log_index) ae.prev_log_term)

  unfoldable pub on_append :
      String → AppendEntries A → ℕ → RaftNode A M D → RaftNode A M D × List (Message A D)
  on_append src ae now n =
      if ltb ae.term n.current_term
      then (
        n,
        answer n src (
            append_reply (record {
              term = n.current_term;
              success = false;
              follower_id = n.id;
              match_index = 0;
              conflict_index = 0;
            })),
      )
      else (let n1 = follow ae.term ae.leader_id now n in
          let n2 = follow_commit ae.leader_commit (append_all ae.entries n1) in
          if conflicts ae n1
          then (
            n1,
            answer n1 src (
                append_reply (record {
                  term = n1.current_term;
                  success = false;
                  follower_id = n1.id;
                  match_index = 0;
                  conflict_index = conflict_hint ae.prev_log_index n1;
                })),
          )
          else (
            n2,
            answer n2 src (
                append_reply (record {
                  term = n2.current_term;
                  success = true;
                  follower_id = n2.id;
                  match_index = last_index n2;
                  conflict_index = 0;
                })),
          ))

  -- a follower's progress on success
  unfoldable pub note_match : String → ℕ → RaftNode A M D → RaftNode A M D
  note_match peer index n = record n {
    match_index = insert n.match_index peer index;
    next_index = insert n.next_index peer (index + 1);
  }

  unfoldable pub on_append_reply :
      AppendEntriesReply → ℕ → RaftNode A M D → RaftNode A M D × List (Message A D)
  unfolding become_follower note_match
  on_append_reply reply now n =
      if ltb n.current_term reply.term
      then (become_follower reply.term now n, [])
      else if not (is_leader n.role)
      then (n, [])
      else if reply.success
      then (advance_commit (note_match reply.follower_id reply.match_index n), [])
      else (let n1 = record n {
        next_index = insert n.next_index reply.follower_id (
            max 1
              (hint_or reply.conflict_index (get_or (get n.next_index reply.follower_id) 1 - 1)));
      } in
          (n1, append_to n1 reply.follower_id))

  -- what `_on_install_snapshot` does with a snapshot that is ahead of its own
  unfoldable pub install : InstallSnapshot D → RaftNode A M D → RaftNode A M D
  install snap n =
      let n1 = adopt_members snap.members (record n {
        log =
            if eqb (term_at n snap.last_included_index) snap.last_included_term
            then keep (λ (e : LogEntry A). ltb snap.last_included_index e.index) n.log
            else [];
        snapshot_index = snap.last_included_index;
        snapshot_term = snap.last_included_term;
        snapshot_data = snap.snapshot;
        commit_index = max n.commit_index snap.last_included_index;
        last_applied = max n.last_applied snap.last_included_index;
      }) in
      record n1 { machine = call_restore n1.restore_fn snap.snapshot n1.machine }

  unfoldable pub on_install_snapshot :
      String → InstallSnapshot D → ℕ → RaftNode A M D → RaftNode A M D × List (Message A D)
  unfolding install
  on_install_snapshot src snap now n =
      let n1 = follow snap.term snap.leader_id now n in
      let n2 = if ltb n1.snapshot_index snap.last_included_index then install snap n1 else n1 in
      let n3 = if ltb snap.term n.current_term then n else n2 in
      (
        n3,
        answer n3 src (
            install_reply (record {
              term = n3.current_term;
              follower_id = n3.id;
              match_index = n3.snapshot_index;
            })),
      )

  unfoldable pub on_install_reply :
      InstallSnapshotReply → ℕ → RaftNode A M D → RaftNode A M D × List (Message A D)
  unfolding become_follower note_match
  on_install_reply reply now n =
      let n1 = advance_commit (note_match reply.follower_id reply.match_index n) in
      if ltb n.current_term reply.term
      then (become_follower reply.term now n, [])
      else if not (is_leader n.role)
      then (n, [])
      else (n1, append_to n1 reply.follower_id)

  unfoldable pub handle_payload :
      String → Payload A D → ℕ → RaftNode A M D → RaftNode A M D × List (Message A D)
  handle_payload src (request_vote rv) now n = on_request_vote src rv now n
  handle_payload src (vote_reply r) now n = on_vote_reply r now n
  handle_payload src (append_entries ae) now n = on_append src ae now n
  handle_payload src (append_reply r) now n = on_append_reply r now n
  handle_payload src (install_snapshot s) now n = on_install_snapshot src s now n
  handle_payload src (install_reply r) now n = on_install_reply r now n

  unfoldable pub handle : Message A D → ℕ → RaftNode A M D → RaftNode A M D × List (Message A D)
  unfolding handle_payload
  handle msg now n = handle_payload msg.src msg.payload now n
