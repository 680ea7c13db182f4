-- ===== src/Raft/Yields.antt =====
-- src/annex/cluster/raft.py: the handlers that follow another replica and keep the log, and compaction.
use python_pj.Prelude.{
  ℕ, ◌≡◌, ◌≢◌, refl, sym, ◌∙◌, inl, inr, true, false, not, ◌||◌, ◌&&◌, Option, List, [], arith,
  String, string_eq, text_eq_iff, ltb, leb, eqb, Bool-cases,
}
use python_pj.Raft.Types.{
  Role, follower, candidate, leader, is_follower, RequestVote, InstallSnapshot, RaftNode,
}
use python_pj.Raft.Log.{min_or, compact}
use python_pj.Raft.Calls.{become_follower}
use python_pj.Raft.Handlers.{
  catch_up, cast_vote, on_request_vote, up_to_date, may_vote, follow, on_install_snapshot,
}
use python_pj.Raft.Frame.{Core, core}
use python_pj.Raft.Ballot.{Votes, Knows}
use python_pj.Raft.Moves.{Calm, idle-Calm}
use python_pj.Raft.Calm.{newer-Calm}

-- A replica that can vote for another is a follower.
free-follower :
    (ms : List String) (G : Votes) (me d : String) (c : Core) (r : Role)
    → Knows ms G me c
    → c.role ≡ r
    → me ≢ d
    → may_vote c.voted_for d ≡ true
    → c.role ≡ follower
free-follower ms G me d c follower k e ne free = e
free-follower ms G me d c candidate k e ne free =
    let own = (k.own_vote (λ f. cc (e, f))).0 in
    absurd (ground (arith, own, free, ne, text_eq_iff me d))
free-follower ms G me d c leader k e ne free =
    let own = (k.own_vote (λ f. cc (e, f))).0 in
    absurd (ground (arith, own, free, ne, text_eq_iff me d))

module _ {A M D : Type 0} where
  catch_up-Calm : (t now : ℕ) (n : RaftNode A M D) → Calm n (catch_up t now n, [])
  unfolding catch_up
  catch_up-Calm t now n = elim (Bool-cases (ltb n.current_term t)) [
    | inl h ↦ rw h (newer-Calm t now n h)
    | inr h ↦ rw h (idle-Calm n)
  ]

  catch_up-id : (t now : ℕ) (n : RaftNode A M D) → (catch_up t now n).id ≡ n.id
  unfolding catch_up become_follower
  catch_up-id t now n = elim (Bool-cases (ltb n.current_term t)) [
    | inl h ↦ rw h refl
    | inr h ↦ rw h refl
  ]

  pub on_request_vote-Calm :
      (ms : List String) (G : Votes) (src : String) (rv : RequestVote) (now : ℕ)
      (n : RaftNode A M D)
      → Knows ms G n.id (core (catch_up rv.term now n))
      → n.id ≢ rv.candidate_id
      → src ≢ n.id
      → Calm n (on_request_vote src rv now n)
  unfolding on_request_vote cast_vote
  on_request_vote-Calm ms G src rv now n k ne other =
      let n1 = catch_up rv.term now n in
      let caught = catch_up-Calm rv.term now n in
      let away : src ≢ n1.id = λ e. other (e ∙ catch_up-id rv.term now n) in
      elim (Bool-cases (
        eqb rv.term n1.current_term
        && (may_vote n1.voted_for rv.candidate_id && up_to_date rv n1))) [
          | inl yea ↦ rw yea (record {
            move = record {
              up = caught.move.up;
              crowned = caught.move.crowned;
              positive = caught.move.positive;
              sends = (
                (
                  refl,
                  away,
                  λ g. (
                    refl,
                    free-follower ms G n.id rv.candidate_id (core n1) n1.role k refl ne
                        (ground (arith, yea)),
                  ),
                ),
                tt,
              );
            };
            stays = caught.stays;
            keeps = caught.keeps;
          })
          | inr nay ↦ rw nay (record {
            move = record {
              up = caught.move.up;
              crowned = caught.move.crowned;
              positive = caught.move.positive;
              sends = ((refl, away, λ g. absurd (cc g)), tt);
            };
            stays = caught.stays;
            keeps = caught.keeps;
          })
        ]

  -- Following a leader, in a term that is not behind, and in which this replica does not lead.
  pub follow-Calm :
      (t : ℕ) (l : String) (now : ℕ) (n : RaftNode A M D)
      → ltb t n.current_term ≡ false
      → (n.role ≡ leader → t ≢ n.current_term)
      → Calm n (follow t l now n, []) × ((follow t l now n).id ≡ n.id)
  unfolding follow become_follower
  follow-Calm t l now n new lone =
      elim (Bool-cases (ltb n.current_term t || not (is_follower n.role))) [
        | inl d ↦ rw d (
          record {
            move = record {
              up = ground (arith, new);
              crowned = λ m. cc m;
              positive = λ p e. absurd (e refl);
              sends = tt;
            };
            stays = λ m e. absurd (lone m (sym e));
            keeps = (refl, refl, refl);
          },
          refl,
        )
        | inr s ↦ rw s (
          record {
            move = record {
              up = omega arith;
              crowned = λ m. inl (m, refl);
              positive = λ p. p;
              sends = tt;
            };
            stays = λ m e. m;
            keeps = (refl, refl, refl);
          },
          refl,
        )
      ]

  -- a snapshot that is not ahead
  pub on_install_snapshot-Calm :
      (src : String) (s : InstallSnapshot D) (now : ℕ) (n : RaftNode A M D)
      → s.last_included_index ≡ 0
      → src ≢ n.id
      → (n.role ≡ leader → s.term ≢ n.current_term)
      → Calm n (on_install_snapshot src s now n)
  unfolding on_install_snapshot
  on_install_snapshot-Calm src s now n zeroth other lone =
      elim (Bool-cases (ltb s.term n.current_term)) [
        | inl old ↦ rw old (record {
          move = record {
            up = omega arith;
            crowned = λ m. inl (m, refl);
            positive = λ p. p;
            sends = ((refl, other, refl), tt);
          };
          stays = λ m e. m;
          keeps = (refl, refl, refl);
        })
        | inr new ↦
            let (calm, named) = follow-Calm s.term s.leader_id now n new lone in
            let f = follow s.term s.leader_id now n in
            let behind : ltb f.snapshot_index s.last_included_index ≡ false =
              ground (arith, zeroth) in
            rw (new, behind)
              (record {
                move = record {
                  up = calm.move.up;
                  crowned = calm.move.crowned;
                  positive = calm.move.positive;
                  sends = ((refl, (λ e. other (e ∙ named)), refl), tt);
                };
                stays = calm.stays;
                keeps = calm.keeps;
              })
      ]

  -- a compaction that leaves the snapshot's index at 0
  pub compact-Calm :
      (k : Option ℕ) (n : RaftNode A M D)
      → (compact k n).0.snapshot_index ≡ 0
      → Calm n ((compact k n).0, [])
  unfolding compact
  compact-Calm k n whole = elim (Bool-cases (leb (min_or k n.last_applied) n.snapshot_index)) [
    | inl h ↦ rw h (idle-Calm n)
    | inr h ↦ let z : min_or k n.last_applied ≡ 0 = rw h at whole in absurd (ground (arith, h, z))
  ]
