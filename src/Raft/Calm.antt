-- ===== src/Raft/Calm.antt =====
-- src/annex/cluster/raft.py: the handlers that keep the log.
use python_pj.Prelude.{
  ℕ, zero, suc, ◌+◌, ◌≤◌, ◌≡◌, ◌≢◌, refl, sym, ap, subst, ◌∙◌, inl, inr, true, not, ◌||◌, ◌&&◌,
  List, [], arith, string_eq, ltb, leb, eqb, length, Bool-cases,
}
use python_pj.Raft.Types.{
  leader, is_leader, is_candidate, LogEntry, RequestVoteReply, AppendEntriesReply,
  InstallSnapshotReply, RaftNode,
}
use python_pj.Raft.Log.{quorum, term_at, replicated, apply_committed, advance_loop, advance_commit}
use python_pj.Raft.Calls.{become_leader, become_follower}
use python_pj.Raft.Handlers.{add_vote, on_vote_reply, note_match, on_append_reply, on_install_reply}
use python_pj.Raft.Frame.{Core, core, Stored, apply_committed-stored, advance_commit-core}
use python_pj.Raft.Plain.{is_candidate-candidate}
use python_pj.Raft.Moves.{Calm, idle-Calm, broadcast-SentBy, append_to-SentBy, is_leader-leader}

module _ {A M D : Type 0} where
  pub newer-Calm :
      (t now : ℕ) (n : RaftNode A M D)
      → ltb n.current_term t ≡ true
      → Calm n (become_follower t now n, [])
  unfolding become_follower
  newer-Calm t now n h = record {
    move = record {
      up = ground (arith, h);
      crowned = λ l. cc l;
      positive = λ p e. absurd (e refl);
      sends = tt;
    };
    stays = λ l e. absurd (ground (arith, h, e));
    keeps = (refl, refl, refl);
  }

  pub on_vote_reply-Calm :
      (r : RequestVoteReply) (now : ℕ) (n : RaftNode A M D) → Calm n (on_vote_reply r now n)
  unfolding on_vote_reply become_leader
  on_vote_reply-Calm r now n = elim (Bool-cases (ltb n.current_term r.term)) [
    | inl h ↦ rw h (newer-Calm r.term now n h)
    | inr h ↦
        rw h (elim (Bool-cases (not (is_candidate n.role) || not (eqb r.term n.current_term))) [
          | inl off ↦ rw off (idle-Calm n)
          | inr on ↦
              let standing = is_candidate-candidate n.role (ground (arith, on)) in
              rw on (elim (Bool-cases r.vote_granted) [
                | inr nay ↦ rw nay (idle-Calm n)
                | inl yea ↦
                    let n1 = record n { votes = add_vote r.voter n.votes } in
                    rw yea (elim (Bool-cases (leb (quorum n1) (length n1.votes))) [
                      | inl won ↦ rw won (record {
                        move = record {
                          up = omega arith;
                          crowned = λ l. inr (inl (standing, refl));
                          positive = λ p e. p (λ f. cc (standing, f));
                          sends = broadcast-SentBy (become_leader now n1) refl;
                        };
                        stays = λ l e. refl;
                        keeps = (refl, refl, refl);
                      })
                      | inr short ↦ rw short (record {
                        move = record {
                          up = omega arith;
                          crowned = λ l. inl (l, refl);
                          positive = λ p. p;
                          sends = tt;
                        };
                        stays = λ l e. l;
                        keeps = (refl, refl, refl);
                      })
                    ])
              ])
        ])
  ]

  -- what a commit leaves alone
  abbrev pub kept_by : RaftNode A M D → List (LogEntry A) × ℕ × ℕ
  kept_by n = (n.log, n.snapshot_index, n.snapshot_term)

  pub apply_committed-kept : (n : RaftNode A M D) → kept_by (apply_committed n) ≡ kept_by n
  apply_committed-kept n =
      ap
        (λ (s : Stored A).
          let p : List (LogEntry A) × ℕ × ℕ =
            (s.stored_log, s.stored_snapshot_index, s.stored_snapshot_term) in
          p)
        (apply_committed-stored n)

  advance_loop-kept : (k : ℕ) (n : RaftNode A M D) → kept_by (advance_loop k n) ≡ kept_by n
  unfolding advance_loop
  advance_loop-kept zero n = refl
  advance_loop-kept (suc k) n =
      elim (Bool-cases (
        eqb (term_at n (suc (n.commit_index + k))) n.current_term
        && leb (quorum n) (replicated n (suc (n.commit_index + k))))) [
          | inl h ↦ rw h (apply_committed-kept _)
          | inr h ↦ rw h (advance_loop-kept k n)
        ]

  advance_commit-kept : (n : RaftNode A M D) → kept_by (advance_commit n) ≡ kept_by n
  unfolding advance_commit
  advance_commit-kept n = advance_loop-kept _ n

  -- A step that ends in a state with the role, the term, the log and the name of another.
  pub like-Calm :
      (n m f : RaftNode A M D)
      → core m ≡ core f
      → kept_by m ≡ kept_by f
      → Calm n (f, [])
      → Calm n (m, [])
  like-Calm n m f e k c =
      let term : m.current_term ≡ f.current_term = ap (λ (x : Core). x.term) e in
      let role : m.role ≡ f.role = ap (λ (x : Core). x.role) e in
      record {
        move = record {
          up = subst (λ t. n.current_term ≤ t) (sym term) c.move.up;
          crowned = rw (term, role) c.move.crowned;
          positive = rw (term, role) c.move.positive;
          sends = tt;
        };
        stays = rw (term, role) c.stays;
        keeps =
            (ap (λ p. p.0) k ∙ c.keeps.0, ap (λ p. p.1) k ∙ c.keeps.1, ap (λ p. p.2) k ∙ c.keeps.2);
      }

  pub on_append_reply-Calm :
      (r : AppendEntriesReply) (now : ℕ) (n : RaftNode A M D)
      → r.follower_id ≢ n.id
      → Calm n (on_append_reply r now n)
  unfolding on_append_reply note_match
  on_append_reply-Calm r now n ne =
      let n1 = note_match r.follower_id r.match_index n in
      elim (Bool-cases (ltb n.current_term r.term)) [
        | inl h ↦ rw h (newer-Calm r.term now n h)
        | inr h ↦ rw h (elim (Bool-cases (is_leader n.role)) [
          | inr l ↦ rw l (idle-Calm n)
          | inl l ↦ rw l (elim (Bool-cases r.success) [
            | inl s ↦ rw s (
                like-Calm n (advance_commit n1) n (advance_commit-core n1) (advance_commit-kept n1)
                  (idle-Calm n))
            | inr s ↦ rw s (record {
              move = record {
                up = omega arith;
                crowned = λ m. inl (m, refl);
                positive = λ p. p;
                sends = append_to-SentBy _ r.follower_id (is_leader-leader n.role l) ne;
              };
              stays = λ m e. m;
              keeps = (refl, refl, refl);
            })
          ])
        ])
      ]

  pub on_install_reply-Calm :
      (r : InstallSnapshotReply) (now : ℕ) (n : RaftNode A M D)
      → r.follower_id ≢ n.id
      → Calm n (on_install_reply r now n)
  unfolding on_install_reply note_match
  on_install_reply-Calm r now n ne =
      let n1 = note_match r.follower_id r.match_index n in
      let n2 = advance_commit n1 in
      elim (Bool-cases (ltb n.current_term r.term)) [
        | inl h ↦ rw h (newer-Calm r.term now n h)
        | inr h ↦ rw h (elim (Bool-cases (is_leader n.role)) [
          | inr l ↦ rw l (idle-Calm n)
          | inl l ↦
              let quiet : Calm n (n2, []) =
                like-Calm n n2 n (advance_commit-core n1) (advance_commit-kept n1) (idle-Calm n) in
              let leads : n2.role ≡ leader =
                ap (λ (x : Core). x.role) (advance_commit-core n1) ∙ is_leader-leader n.role l in
              let named : n2.id ≡ n.id = ap (λ (x : Core). x.id) (advance_commit-core n1) in
              rw l (record {
                move = record {
                  up = quiet.move.up;
                  crowned = quiet.move.crowned;
                  positive = quiet.move.positive;
                  sends = append_to-SentBy n2 r.follower_id leads (λ e. ne (e ∙ named));
                };
                stays = quiet.stays;
                keeps = quiet.keeps;
              })
        ])
      ]
