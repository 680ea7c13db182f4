-- ===== src/Raft/Plain.antt =====
-- src/annex/cluster/raft.py: the handlers other than that of vote requests, and what a replica knows
-- of an election.
use python_pj.Prelude.{
  ℕ, ◌+◌, ◌/◌, ◌≤◌, ◌<◌, ◌≡◌, refl, sym, ap, subst, ◌∙◌, inl, inr, true, false, not, ◌||◌, Option,
  List, [], ◌∷◌, arith, String, ◌==◌, string_eq, text_eq_iff, if◌then◌else◌, ltb, leb, eqb, length,
  keep, All, Bool-cases, ltb→lt, leb→le,
}
use python_pj.Prelude.Members.{In, Distinct}
use python_pj.Raft.Types.{
  Role, follower, candidate, leader, is_leader, is_candidate, is_follower, Command, LogEntry,
  RequestVoteReply, AppendEntries, AppendEntriesReply, InstallSnapshot, InstallSnapshotReply,
  Message, RaftNode,
}
use python_pj.Raft.Log.{
  peers, quorum, last_index, apply_committed, append_all, advance_commit, push_entry, min_or,
  compact,
}
use python_pj.Raft.Calls.{
  is_nil, broadcast_append, start_election, tick, propose, become_follower, become_leader,
}
use python_pj.Raft.Handlers.{
  catch_up, on_vote_reply, follow, follow_commit, conflicts, on_append, on_append_reply, install,
  on_install_snapshot, on_install_reply, note_match, add_vote,
}
use python_pj.Raft.Frame.{
  Core, core, Stored, adopt_members-core, push_entry-core, append_all-core, apply_committed-stored,
  advance_commit-core,
}
use python_pj.Raft.Ballot.{
  Votes, Knows, stepped_down-Knows, standing-Knows, counted-Knows, promoted-Knows,
}
use python_pj.Raft.Votes.{Fair, append_to-Fair, broadcast-Fair, to_peers-Fair}

pub is_candidate-candidate : (r : Role) → is_candidate r ≡ true → r ≡ candidate
is_candidate-candidate follower h = cc
is_candidate-candidate candidate h = refl
is_candidate-candidate leader h = cc

module _ {A M D : Type 0} where
  pub follow_commit-core : (i : ℕ) (n : RaftNode A M D) → core (follow_commit i n) ≡ core n
  unfolding follow_commit
  follow_commit-core i n = elim (Bool-cases (ltb n.commit_index i)) [
    | inl h ↦ rw h (ap (λ (s : Stored A). s.stored_core) (apply_committed-stored _))
    | inr h ↦ rw h refl
  ]

  install-core : (s : InstallSnapshot D) (n : RaftNode A M D) → core (install s n) ≡ core n
  unfolding install
  install-core s n = adopt_members-core s.members _

-- A replica's step that grants no vote: it knows what it has to, and sends fair messages.
pub record Plain {A M D : Type 0} (ms : List String) (G : Votes) (me : String)
    (r : RaftNode A M D × List (Message A D)) : Type 0 where
  pub knows : Knows ms G me (core r.0)
  pub fair : All Fair r.1

module _ {A M D : Type 0} (ms : List String) (one_each : Distinct ms) (G : Votes)
    (n : RaftNode A M D) (k : Knows ms G n.id (core n)) (same : n.members ≡ ms)
    (mine : In n.id ms) where
  become_follower-Knows :
      (t now : ℕ) → n.current_term < t → Knows ms G n.id (core (become_follower t now n))
  unfolding become_follower
  become_follower-Knows t now h = stepped_down-Knows ms G n.id (core n) k t (omega arith) (inl h)

  -- peers are the members but the node itself
  alone :
      (xs : List String)
      → Distinct xs
      → is_nil (keep (λ m. not (m == n.id)) xs) ≡ true
      → length xs ≤ 1
  alone [] d h = omega arith
  alone (x ∷ []) d h = omega arith
  alone (x ∷ y ∷ xs) d h = ground (arith, text_eq_iff x n.id, text_eq_iff y n.id, d.0)

  start_election-Plain : (now : ℕ) → Plain ms G n.id (start_election now n)
  unfolding start_election peers
  start_election-Plain now =
      let stands = standing-Knows ms G n.id (core n) k mine in
      elim (Bool-cases (is_nil (keep (λ m. not (m == n.id)) n.members))) [
        | inl e ↦ rw e (record {
          knows =
              promoted-Knows ms G n.id _ stands (λ r. cc r)
                (omega (
                  arith,
                  alone ms one_each (
                      subst (λ (xs : List String). is_nil (keep (λ m. not (m == n.id)) xs) ≡ true)
                        same e),
                ));
          fair = tt;
        })
        | inr e ↦ rw e (record {
          knows = stands;
          fair = to_peers-Fair n.id _ (λ p ne. ((refl, ne), tt)) n.members;
        })
      ]

  pub tick-Plain : (now : ℕ) → Plain ms G n.id (tick now n)
  unfolding tick
  tick-Plain now = elim (Bool-cases (is_leader n.role)) [
    | inl l ↦ rw l (elim (Bool-cases (leb n.next_heartbeat now)) [
      | inl due ↦ rw due (record { knows = k; fair = broadcast-Fair _ })
      | inr h ↦ rw h (record { knows = k; fair = tt })
    ])
    | inr l ↦ rw l (elim (Bool-cases (leb n.election_deadline now)) [
      | inl due ↦ rw due (start_election-Plain now)
      | inr h ↦ rw h (record { knows = k; fair = tt })
    ])
  ]

  idle : Plain ms G n.id (n, [])
  idle = record { knows = k; fair = tt }

  newer : (t now : ℕ) → ltb n.current_term t ≡ true → Plain ms G n.id (become_follower t now n, [])
  unfolding become_follower
  newer t now h = record { knows = become_follower-Knows t now (ltb→lt _ _ h); fair = tt }

  count_one :
      (r : RequestVoteReply) (now : ℕ)
      → n.role ≡ candidate
      → G r.voter n.id n.current_term
      → let n1 = record n { votes = add_vote r.voter n.votes } in
        Plain ms G n.id (
          if leb (quorum n1) (length n1.votes)
          then (become_leader now n1, broadcast_append (become_leader now n1))
          else (n1, []))
  unfolding become_leader quorum
  count_one r now c g =
      let counted = counted-Knows ms G n.id (core n) k r.voter c g in
      elim (Bool-cases (leb (length n.members / 2 + 1) (length (add_vote r.voter n.votes)))) [
        | inl q ↦ rw q (record {
          knows =
              promoted-Knows ms G n.id _ counted (λ e. cc (c, e))
                (omega (arith, leb→le _ _ q, ap (λ (xs : List String). length xs) same));
          fair = broadcast-Fair _;
        })
        | inr q ↦ rw q (record { knows = counted; fair = tt })
      ]

  pub on_vote_reply-Plain :
      (r : RequestVoteReply) (now : ℕ)
      → (r.vote_granted ≡ true → G r.voter n.id r.term)
      → Plain ms G n.id (on_vote_reply r now n)
  unfolding on_vote_reply
  on_vote_reply-Plain r now g = elim (Bool-cases (ltb n.current_term r.term)) [
    | inl h ↦ rw h (newer r.term now h)
    | inr h ↦
        rw h (elim (Bool-cases (not (is_candidate n.role) || not (eqb r.term n.current_term))) [
          | inl off ↦ rw off idle
          | inr on ↦ rw on (elim (Bool-cases r.vote_granted) [
            | inl yea ↦ rw yea (
                count_one r now (is_candidate-candidate n.role (ground (arith, on)))
                  (subst (λ (t : ℕ). G r.voter n.id t) (ground (arith, on)) (g yea)))
            | inr nay ↦ rw nay idle
          ])
        ])
  ]

  follow-Knows :
      (t : ℕ) (l : String) (now : ℕ)
      → ltb t n.current_term ≡ false
      → Knows ms G n.id (core (follow t l now n))
  unfolding follow
  follow-Knows t l now h = elim (Bool-cases (ltb n.current_term t || not (is_follower n.role))) [
    | inl d ↦ rw d (
        stepped_down-Knows ms G n.id (core n) k t (ground (arith, h))
          (elim (Bool-cases (ltb n.current_term t)) [
            | inl lt ↦ inl (ltb→lt _ _ lt)
            | inr ge ↦ inr (λ e. ground (arith, d, ge, e))
          ]))
    | inr s ↦ rw s k
  ]

  -- a state with the same election data as one that is known
  like-Knows :
      (m f : RaftNode A M D) → core m ≡ core f → Knows ms G n.id (core f) → Knows ms G n.id (core m)
  like-Knows m f e h = subst (λ (c : Core). Knows ms G n.id c) (sym e) h

  pub propose-Plain : (c : Command A) → Knows ms G n.id (core (propose c n).0)
  unfolding propose
  propose-Plain c =
      let e : LogEntry A = record {
        term = n.current_term;
        index = last_index n + 1;
        command = c;
      } in
      let n1 = push_entry e n in
      elim (Bool-cases (is_leader n.role)) [
        | inl l ↦ rw l (elim (Bool-cases (is_nil (peers n1))) [
          | inl p ↦ rw p (
              like-Knows (apply_committed (record n1 { commit_index = last_index n + 1 })) n
                (ap (λ (s : Stored A). s.stored_core)
                    (apply_committed-stored (record n1 { commit_index = last_index n + 1 }))
                  ∙ push_entry-core e n)
                k)
          | inr p ↦ rw p (like-Knows n1 n (push_entry-core e n) k)
        ])
        | inr l ↦ rw l k
      ]

  pub compact-Plain : (i : Option ℕ) → Knows ms G n.id (core (compact i n).0)
  unfolding compact
  compact-Plain i = elim (Bool-cases (leb (min_or i n.last_applied) n.snapshot_index)) [
    | inl h ↦ rw h k
    | inr h ↦ rw h k
  ]

  pub catch_up-Knows : (t now : ℕ) → Knows ms G n.id (core (catch_up t now n))
  unfolding catch_up
  catch_up-Knows t now = elim (Bool-cases (ltb n.current_term t)) [
    | inl h ↦ rw h (become_follower-Knows t now (ltb→lt _ _ h))
    | inr h ↦ rw h k
  ]

  pub on_append-Plain :
      (src : String) (ae : AppendEntries A) (now : ℕ) → Plain ms G n.id (on_append src ae now n)
  unfolding on_append
  on_append-Plain src ae now = elim (Bool-cases (ltb ae.term n.current_term)) [
    | inl old ↦ rw old (record { knows = k; fair = ((tt, tt), tt) })
    | inr new ↦
        let f = follow ae.term ae.leader_id now n in
        let kf = follow-Knows ae.term ae.leader_id now new in
        rw new (elim (Bool-cases (conflicts ae f)) [
          | inl bad ↦ rw bad (record { knows = like-Knows f f refl kf; fair = ((tt, tt), tt) })
          | inr good ↦ rw good (record {
            knows =
                like-Knows (follow_commit ae.leader_commit (append_all ae.entries f)) f
                  (follow_commit-core ae.leader_commit (append_all ae.entries f)
                    ∙ append_all-core ae.entries f)
                  kf;
            fair = ((tt, tt), tt);
          })
        ])
  ]

  pub on_append_reply-Plain :
      (r : AppendEntriesReply) (now : ℕ) → Plain ms G n.id (on_append_reply r now n)
  unfolding on_append_reply
  on_append_reply-Plain r now =
      let n1 = note_match r.follower_id r.match_index n in
      elim (Bool-cases (ltb n.current_term r.term)) [
        | inl h ↦ rw h (newer r.term now h)
        | inr h ↦ rw h (elim (Bool-cases (is_leader n.role)) [
          | inl l ↦ rw l (elim (Bool-cases r.success) [
            | inl s ↦ rw s (record {
              knows = like-Knows (advance_commit n1) n (advance_commit-core n1) k;
              fair = tt;
            })
            | inr s ↦ rw s (record { knows = k; fair = append_to-Fair _ _ })
          ])
          | inr l ↦ rw l idle
        ])
      ]

  pub on_install_snapshot-Plain :
      (src : String) (s : InstallSnapshot D) (now : ℕ)
      → Plain ms G n.id (on_install_snapshot src s now n)
  unfolding on_install_snapshot
  on_install_snapshot-Plain src s now = elim (Bool-cases (ltb s.term n.current_term)) [
    | inl old ↦ rw old (record { knows = k; fair = ((tt, tt), tt) })
    | inr new ↦
        let f = follow s.term s.leader_id now n in
        let kf = follow-Knows s.term s.leader_id now new in
        rw new (elim (Bool-cases (ltb f.snapshot_index s.last_included_index)) [
          | inl ahead ↦ rw ahead (record {
            knows = like-Knows (install s f) f (install-core s f) kf;
            fair = ((tt, tt), tt);
          })
          | inr behind ↦
              rw behind (record { knows = like-Knows f f refl kf; fair = ((tt, tt), tt) })
        ])
  ]

  pub on_install_reply-Plain :
      (r : InstallSnapshotReply) (now : ℕ) → Plain ms G n.id (on_install_reply r now n)
  unfolding on_install_reply
  on_install_reply-Plain r now =
      let n1 = note_match r.follower_id r.match_index n in
      elim (Bool-cases (ltb n.current_term r.term)) [
        | inl h ↦ rw h (newer r.term now h)
        | inr h ↦ rw h (elim (Bool-cases (is_leader n.role)) [
          | inl l ↦ rw l (record {
            knows = like-Knows (advance_commit n1) n (advance_commit-core n1) k;
            fair = append_to-Fair _ _;
          })
          | inr l ↦ rw l idle
        ])
      ]
