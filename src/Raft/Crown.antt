-- ===== src/Raft/Crown.antt =====
-- src/annex/cluster/raft.py: replicas that once led in a term. Such a replica leads as long as its term
-- is that one, and no other replica leads in it.
use python_pj.Prelude.{
  ℕ, ◌+◌, ◌≤◌, ◌<◌, ◌≡◌, sym, subst, ◌∙◌, inl, inr, ◌⊎◌, List, arith, String, string_eq, length,
}
use python_pj.Prelude.Members.{In, Distinct, Within, majorities_meet}
use python_pj.Raft.Types.{leader}
use python_pj.Raft.Frame.{Core}
use python_pj.Raft.Ballot.{Votes, Knows, leader-no_grant}

-- `who`, whose state is `c`, was elected in `term`.
pub record Crown (ms : List String) (G : Votes) (who : String) (term : ℕ) (c : Core) : Type 0 where
  pub votes : List String
  pub distinct : Distinct votes
  pub counted : (v : String) → In v votes → (v ≡ who) ⊎ G v who term
  pub quorum : length ms < length votes + length votes
  pub mine : In who ms
  pub no_grant : (d : String) → ¬ G who d term
  pub past : term ≤ c.term
  pub leads : c.term ≡ term → c.role ≡ leader

module _ (ms : List String) (G : Votes)
    (once : (v c d : String) (t : ℕ) → G v c t → G v d t → c ≡ d)
    (inside : (v d : String) (t : ℕ) → G v d t → In v ms) where
  pub leader-Crown :
      (a : String) (c : Core) → Knows ms G a c → c.role ≡ leader → Crown ms G a c.term c
  leader-Crown a c k l = record {
    votes = c.votes;
    distinct = k.distinct;
    counted = k.counted (λ e. cc (l, e));
    quorum = k.elected l;
    mine = (k.own_vote (λ e. cc (l, e))).1;
    no_grant = λ d. leader-no_grant ms G once inside a d c k l;
    past = omega arith;
    leads = λ e. l;
  }

  crowned-Within : (a : String) (t : ℕ) (c : Core) (k : Crown ms G a t c) → Within k.votes ms
  crowned-Within a t c k v i = elim (k.counted v i) [
    | inl p ↦ subst (λ (w : String). In w ms) (sym p) k.mine
    | inr g ↦ inside v a t g
  ]

  -- At most one replica is ever elected in a term.
  pub Crown-unique :
      (a b : String) (t : ℕ) (ca cb : Core) → Crown ms G a t ca → Crown ms G b t cb → a ≡ b
  Crown-unique a b t ca cb ka kb =
      let (v, i, j) =
        majorities_meet ka.votes kb.votes ms ka.distinct kb.distinct (crowned-Within a t ca ka)
          (crowned-Within b t cb kb) (omega (arith, ka.quorum, kb.quorum)) in
      elim (ka.counted v i) [
        | inl p ↦ elim (kb.counted v j) [
          | inl q ↦ sym p ∙ q
          | inr h ↦ absurd (ka.no_grant b (subst (λ (w : String). G w b t) p h))
        ]
        | inr g ↦ elim (kb.counted v j) [
          | inl q ↦ absurd (kb.no_grant a (subst (λ (w : String). G w a t) q g))
          | inr h ↦ once v a b t g h
        ]
      ]

-- It stays elected while votes are only added, none of its own for that term.
pub Crown-keep :
    (ms : List String) (G H : Votes) (who : String) (t : ℕ) (c d : Core)
    → Crown ms G who t c
    → ((v e : String) (u : ℕ) → G v e u → H v e u)
    → ((e : String) → H who e t → G who e t)
    → c.term ≤ d.term
    → (d.term ≡ t → d.role ≡ leader)
    → Crown ms H who t d
Crown-keep ms G H who t c d k more same up leads = record {
  votes = k.votes;
  distinct = k.distinct;
  counted = λ v i. elim (k.counted v i) [ inl p ↦ inl p | inr g ↦ inr (more v who t g) ];
  quorum = k.quorum;
  mine = k.mine;
  no_grant = λ e h. k.no_grant e (same e h);
  past = omega (arith, k.past, up);
  leads = leads;
}
