-- ===== src/Raft/Ballot.antt =====
-- src/annex/cluster/raft.py: what one replica knows of an election, and the moves that change it.
-- `G v c t` stands for a vote: `v` granted its vote to `c` in term `t`.
use python_pj.Prelude.{
  ℕ, ◌+◌, ◌≤◌, ◌<◌, ◌≡◌, ◌≢◌, refl, sym, ap, subst, ◌∙◌, inl, inr, ◌⊎◌, true, false, none, some,
  List, [], ◌∷◌, arith, String, string_eq, text_eq_iff, contains, length, Option-cases,
}
use python_pj.Prelude.Members.{In, Distinct, Within, In-cases, contains_iff, majorities_meet}
use python_pj.Raft.Types.{Role, follower, candidate, leader}
use python_pj.Raft.Handlers.{may_vote, add_vote}
use python_pj.Raft.Frame.{Core}

abbrev pub Votes : Type 1
Votes = String → String → ℕ → Type 0

-- `ms` are the members, `me` the replica's name, `c` its state.
pub record Knows (ms : List String) (G : Votes) (me : String) (c : Core) : Type 0 where
  pub own : c.id ≡ me
  pub own_vote : c.role ≢ follower → (c.voted_for ≡ some me) × In me ms
  pub granted :
      (d : String) (t : ℕ)
      → G me d t
      → (me ≢ d)
        × In me ms
        × (t ≤ c.term)
        × (t ≡ c.term → (c.voted_for ≡ some d) × (c.role ≡ follower))
  pub counted : c.role ≢ follower → (v : String) → In v c.votes → (v ≡ me) ⊎ G v me c.term
  pub distinct : Distinct c.votes
  pub elected : c.role ≡ leader → length ms < length c.votes + length c.votes

-- The new state of a replica that turns follower in term `t`.
abbrev pub stepped_down : Core → ℕ → Core
stepped_down c t = record c { role = follower; term = t; voted_for = none; votes = [] }

module _ (ms : List String) (G : Votes) (me : String) (c : Core) (k : Knows ms G me c) where
  -- `_become_follower`, in a later term or from another role
  pub stepped_down-Knows :
      (t : ℕ) → c.term ≤ t → (c.term < t) ⊎ (c.role ≢ follower) → Knows ms G me (stepped_down c t)
  stepped_down-Knows t le h = record {
    own = k.own;
    own_vote = λ n. absurd (n refl);
    granted = λ d t' g.
        let old = k.granted d t' g in
        (
          old.0,
          old.1,
          omega (arith, old.2),
          λ e. elim h [
            | inl lt ↦ absurd (omega (arith, old.2))
            | inr ne ↦ absurd (ne (old.3 (omega (arith, old.2))).1)
          ],
        );
    counted = λ n. absurd (n refl);
    distinct = tt;
    elected = λ e. cc;
  }

  -- `_start_election`
  pub standing-Knows :
      In me ms
      → Knows ms G me
          (record c { role = candidate; term = c.term + 1; voted_for = some me; votes = me ∷ [] })
  standing-Knows m = record {
    own = k.own;
    own_vote = λ _. (refl, m);
    granted = λ d t g.
        let old = k.granted d t g in
        (old.0, old.1, omega (arith, old.2), λ e. absurd (omega (arith, old.2)));
    counted = λ _ v i. ground (arith, i);
    distinct = ((λ i. i), tt);
    elected = λ e. cc;
  }

  -- a vote is counted
  pub counted-Knows :
      (v : String)
      → c.role ≡ candidate
      → G v me c.term
      → Knows ms G me (record c { votes = add_vote v c.votes })
  counted-Knows v is_cand g = elim (In-cases v c.votes) [
    | inl old ↦ rw ((contains_iff v c.votes).1 old) k
    | inr new ↦
        let absent : contains v c.votes ≡ false = ground (arith, contains_iff v c.votes, new) in
        rw absent (record {
          own = k.own;
          own_vote = k.own_vote;
          granted = k.granted;
          counted = λ n u i. elim i [
            | inl p ↦ inr (subst (λ (w : String). G w me c.term) (sym p) g)
            | inr j ↦ k.counted n u j
          ];
          distinct = (new, k.distinct);
          elected = λ e. cc (is_cand, e);
        })
  ]

  -- `_become_leader` with a majority
  pub promoted-Knows :
      c.role ≢ follower
      → length ms < length c.votes + length c.votes
      → Knows ms G me (record c { role = leader })
  promoted-Knows n q = record {
    own = k.own;
    own_vote = λ _. k.own_vote n;
    granted =
        λ d t g. let old = k.granted d t g in (old.0, old.1, old.2, λ e. absurd (n (old.3 e).1));
    counted = λ _. k.counted n;
    distinct = k.distinct;
    elected = λ _. q;
  }

-- A vote is granted: the votes are then `H`.
module _ (ms : List String) (G H : Votes) (me : String) (c : Core) (k : Knows ms G me c)
    (d : String) (other : me ≢ d) (mine : In me ms) (free : may_vote c.voted_for d ≡ true)
    (grown : (v e : String) (t : ℕ) → H v e t → G v e t ⊎ ((v ≡ me) × (e ≡ d) × (t ≡ c.term))) where
  free-cases : (c.voted_for ≡ none) ⊎ (c.voted_for ≡ some d)
  free-cases = elim (Option-cases c.voted_for) [
    | inl e ↦ inl e
    | inr (v, e) ↦ inr (ground (arith, e, free, text_eq_iff v d))
  ]

  -- A replica that can still vote for another is a follower.
  voter-follower : (r : Role) → c.role ≡ r → c.role ≡ follower
  voter-follower follower e = e
  voter-follower candidate e =
      absurd (let own = k.own_vote (cc e) in ground (arith, own.0, free-cases, other))
  voter-follower leader e =
      absurd (let own = k.own_vote (cc e) in ground (arith, own.0, free-cases, other))

  pub grant-Knows : Knows ms H me (record c { voted_for = some d })
  grant-Knows =
      let f = voter-follower c.role refl in
      record {
        own = k.own;
        own_vote = λ n. absurd (n f);
        granted = λ e t h. elim (grown me e t h) [
          | inl g ↦
              let old = k.granted e t g in
              (old.0, old.1, old.2, λ q. (ground (arith, (old.3 q).0, free-cases), f))
          | inr (_, p, q) ↦
              ((λ r. other (r ∙ p)), mine, omega (arith, q), λ _. (ap some (sym p), f))
        ];
        counted = λ n. absurd (n f);
        distinct = k.distinct;
        elected = λ e. cc (f, e);
      }

  -- No replica votes for two in one term.
  pub grant_once : (e : String) (t : ℕ) → G me e t → t ≡ c.term → e ≡ d
  grant_once e t g q = ground (arith, ((k.granted e t g).3 q).0, free-cases)

-- What others do changes nothing that a replica knows, as long as votes are only added, and none of
-- its own.
pub others-Knows :
    (ms : List String) (G H : Votes) (me : String) (c : Core)
    → Knows ms G me c
    → ((v d : String) (t : ℕ) → G v d t → H v d t)
    → ((d : String) (t : ℕ) → H me d t → G me d t)
    → Knows ms H me c
others-Knows ms G H me c k more same = record {
  own = k.own;
  own_vote = k.own_vote;
  granted = λ d t h. k.granted d t (same d t h);
  counted = λ n v i. elim (k.counted n v i) [ inl p ↦ inl p | inr g ↦ inr (more v me c.term g) ];
  distinct = k.distinct;
  elected = k.elected;
}

-- At most one replica can lead in a term.
module _ (ms : List String) (G : Votes)
    (once : (v c d : String) (t : ℕ) → G v c t → G v d t → c ≡ d)
    (inside : (v d : String) (t : ℕ) → G v d t → In v ms) where
  votes-Within : (a : String) (c : Core) → Knows ms G a c → c.role ≡ leader → Within c.votes ms
  votes-Within a c k l v i = elim (k.counted (λ e. cc (l, e)) v i) [
    | inl p ↦ subst (λ (w : String). In w ms) (sym p) (k.own_vote (λ e. cc (l, e))).1
    | inr g ↦ inside v a c.term g
  ]

  -- a leader has granted no vote in its term
  pub leader-no_grant :
      (a d : String) (c : Core) → Knows ms G a c → c.role ≡ leader → ¬ G a d c.term
  leader-no_grant a d c k l g = cc (((k.granted d c.term g).3 refl).1, l)

  pub one_leader :
      (a b : String) (ca cb : Core)
      → Knows ms G a ca
      → Knows ms G b cb
      → ca.role ≡ leader
      → cb.role ≡ leader
      → ca.term ≡ cb.term
      → a ≡ b
  one_leader a b ca cb ka kb la lb same =
      let (v, i, j) =
        majorities_meet ca.votes cb.votes ms ka.distinct kb.distinct (votes-Within a ca ka la)
          (votes-Within b cb kb lb) (omega (arith, ka.elected la, kb.elected lb)) in
      elim (ka.counted (λ e. cc (la, e)) v i) [
        | inl p ↦ elim (kb.counted (λ e. cc (lb, e)) v j) [
          | inl q ↦ sym p ∙ q
          | inr h ↦ absurd (
              leader-no_grant a b ca ka la
                (subst (λ (t : ℕ). G a b t) (sym same) (subst (λ (w : String). G w b cb.term) p h)))
        ]
        | inr g ↦ elim (kb.counted (λ e. cc (lb, e)) v j) [
          | inl q ↦ absurd (
              leader-no_grant b a cb kb lb
                (subst (λ (t : ℕ). G b a t) same (subst (λ (w : String). G w a ca.term) q g)))
          | inr h ↦ once v a b cb.term (subst (λ (t : ℕ). G v a t) same g) h
        ]
      ]
