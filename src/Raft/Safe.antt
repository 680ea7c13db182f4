-- ===== src/Raft/Safe.antt =====
-- src/annex/cluster/raft.py: what the replicas and the messages of a cluster have in common, kept by a
-- step that grants a vote and by one that grants none.
use python_pj.Prelude.{
  ℕ, ◌≡◌, ◌≢◌, refl, sym, subst, ◌∙◌, inl, inr, ◌⊎◌, true, false, ◌&&◌, some, List, [], ◌∷◌, ◌++◌,
  arith, String, ◌==◌, string_eq, text_eq_iff, eqb, All, All-append, Bool-cases,
}
use python_pj.Prelude.Members.{In, In-append, In-append_right}
use python_pj.Raft.Types.{RequestVote, vote_reply, Message, RaftNode}
use python_pj.Raft.Handlers.{may_vote, cast_vote, up_to_date, answer}
use python_pj.Raft.Frame.{Core, core}
use python_pj.Raft.Ballot.{Votes, Knows, grant-Knows, grant_once, others-Knows}
use python_pj.Raft.Votes.{Vote, Honest, Fair-Honest, Fair-no_vote}
use python_pj.Raft.Plain.{Plain}
use python_pj.Raft.Cluster.{System, after}

module _ {A M D : Type 0} where
  pub record Safe (ms : List String) (s : System A M D) : Type 0 where
    pub known : (i : String) → Knows ms (Vote s.sent) i (core (s.nodes i))
    pub once : (v c d : String) (t : ℕ) → Vote s.sent v c t → Vote s.sent v d t → c ≡ d
    pub honest : All Honest s.sent

module _ {A M D : Type 0} (ms : List String) (s : System A M D) (safe : Safe ms s)
    (i : String) where
  -- a step of `i` that grants no vote
  quiet-Safe :
      (r : RaftNode A M D × List (Message A D))
      → Knows ms (Vote s.sent) i (core r.0)
      → All Honest r.1
      → ((v c : String) (t : ℕ) → ¬ Vote r.1 v c t)
      → Safe ms (after s i r)
  quiet-Safe r k h no_vote =
      let back = λ (v c : String) (t : ℕ) (g : Vote (r.1 ++ s.sent) v c t).
        let old : Vote s.sent v c t = elim (In-append _ r.1 s.sent g) [
          | inl n ↦ absurd (no_vote v c t n)
          | inr o ↦ o
        ] in
        old in
      let more = λ (v c : String) (t : ℕ) (g : Vote s.sent v c t). In-append_right _ r.1 s.sent g in
      record {
        known = λ j. elim (Bool-cases (i == j)) [
          | inl e ↦ rw e (
              subst (λ (x : String). Knows ms (Vote (r.1 ++ s.sent)) x (core r.0))
                ((text_eq_iff i j).0 e) (others-Knows ms _ _ i (core r.0) k more (back i)))
          | inr e ↦ rw e (others-Knows ms _ _ j (core (s.nodes j)) (safe.known j) more (back j))
        ];
        once = λ v c d t g1 g2. safe.once v c d t (back v c t g1) (back v d t g2);
        honest = All-append Honest r.1 s.sent h safe.honest;
      }

  pub plain-Safe :
      (r : RaftNode A M D × List (Message A D)) → Plain ms (Vote s.sent) i r → Safe ms (after s i r)
  plain-Safe r p = quiet-Safe r p.knows (Fair-Honest r.1 p.fair) (Fair-no_vote r.1 p.fair)

  -- `i`, in the state `n`, grants its vote to `d`
  granted-Safe :
      (n : RaftNode A M D) (f : RaftNode A M D) (d : String)
      → Knows ms (Vote s.sent) i (core n)
      → core f ≡ record (core n) { voted_for = some d }
      → i ≢ d
      → In i ms
      → may_vote n.voted_for d ≡ true
      → Safe ms (
          after s i (
            f,
            record {
              src = i;
              dst = d;
              payload =
                  vote_reply (record { term = n.current_term; vote_granted = true; voter = i });
            }
                ∷ [],
          ))
  granted-Safe n f d k e other mine free =
      let H : Votes = λ v c t.
        Vote
          (record {
            src = i;
            dst = d;
            payload = vote_reply (record { term = n.current_term; vote_granted = true; voter = i });
          }
            ∷ s.sent)
          v c t in
      let grown = λ (v c : String) (t : ℕ) (g : H v c t).
        let r : Vote s.sent v c t ⊎ ((v ≡ i) × (c ≡ d) × (t ≡ n.current_term)) = elim g [
          | inl p ↦ inr (cc p, cc p, cc p)
          | inr o ↦ inl o
        ] in
        r in
      let once_d = λ (c : String) (t : ℕ) (g : Vote s.sent i c t) (q : t ≡ n.current_term).
        grant_once ms (Vote s.sent) H i (core n) k d other mine free grown c t g q in
      record {
        known = λ j. elim (Bool-cases (i == j)) [
          | inl p ↦ rw p (
              subst (λ (x : String). Knows ms H x (core f)) ((text_eq_iff i j).0 p)
                (subst (λ (c : Core). Knows ms H i c) (sym e)
                  (grant-Knows ms (Vote s.sent) H i (core n) k d other mine free grown)))
          | inr p ↦ rw p (
              others-Knows ms (Vote s.sent) H j (core (s.nodes j)) (safe.known j) (λ v c t g. inr g)
                (λ c t g. elim (grown j c t g) [
                  | inl o ↦ o
                  | inr (q, _, _) ↦ absurd (ground (arith, p, q, text_eq_iff i j))
                ]))
        ];
        once = λ v c c' t g1 g2. elim (grown v c t g1) [
          | inl o1 ↦ elim (grown v c' t g2) [
            | inl o2 ↦ safe.once v c c' t o1 o2
            | inr (q, p, r) ↦ once_d c t (subst (λ (x : String). Vote s.sent x c t) q o1) r ∙ sym p
          ]
          | inr (q, p, r) ↦ elim (grown v c' t g2) [
            | inl o2 ↦ p ∙ sym (once_d c' t (subst (λ (x : String). Vote s.sent x c' t) q o2) r)
            | inr (q', p', r') ↦ p ∙ sym p'
          ]
        ];
        honest = (refl, safe.honest);
      }

  -- the answer to a vote request
  pub answered-Safe :
      (n : RaftNode A M D) (src : String) (rv : RequestVote) (now : ℕ)
      → Knows ms (Vote s.sent) i (core n)
      → n.id ≡ i
      → rv.candidate_id ≡ src
      → src ≢ i
      → In i ms
      → let (f, granted) = cast_vote rv now n in
        Safe ms (
          after s i (
            f,
            answer f src (
                vote_reply
                  (record { term = f.current_term; vote_granted = granted; voter = f.id })),
          ))
  unfolding cast_vote
  answered-Safe n src rv now k own names other mine =
      elim (Bool-cases
        (eqb rv.term n.current_term && (may_vote n.voted_for rv.candidate_id && up_to_date rv n))) [
          | inl yea ↦
              rw (yea, own, names)
                (granted-Safe n _ src k (cc own) (λ p. other (sym p)) mine
                  (ground (arith, yea, names)))
          | inr nay ↦
              let reply : Message A D = record {
                src = n.id;
                dst = src;
                payload =
                    vote_reply
                      (record { term = n.current_term; vote_granted = false; voter = n.id });
              } in
              rw nay (
                quiet-Safe (n, reply ∷ []) k (refl, tt)
                  (λ v c t g. elim g [ inl p ↦ cc p | inr o ↦ o ]))
        ]
