-- ===== src/Raft/Advance.antt =====
-- src/annex/cluster/raft.py: a step of one replica keeps what determines the logs.
use python_pj.Prelude.{
  ℕ, ◌≤◌, ◌<◌, ◌≡◌, refl, sym, ap, subst, ◌∙◌, inl, inr, ◌⊎◌, true, some, List, ◌++◌, arith, String,
  ◌==◌, string_eq, text_eq_iff, length, All-append, Bool-cases,
}
use python_pj.Prelude.Members.{In, In-append, In-append_right}
use python_pj.Raft.Types.{
  follower, leader, Payload, request_vote, vote_reply, append_entries, append_reply,
  install_snapshot, install_reply, Message, RaftNode,
}
use python_pj.Raft.Calls.{append_from}
use python_pj.Raft.Frame.{core}
use python_pj.Raft.Ballot.{Votes, Knows, one_leader}
use python_pj.Raft.Votes.{Vote, All-In}
use python_pj.Raft.Cluster.{System, after}
use python_pj.Raft.Safe.{Safe}
use python_pj.Raft.Links.{Link, Chain, Chain-more, Unique}
use python_pj.Raft.Crown.{Crown, leader-Crown, Crown-unique, Crown-keep}
use python_pj.Raft.Moves.{SentBy, SentPayload, Move, Stays}
use python_pj.Raft.Matching.{Matched, Good, Good-more, ruled, sent-Good}

-- The replica `i` takes the step `r`; `more` has the links that there are then.
module _ {A M D : Type 0} (ms : List String) (s : System A M D) (h : Matched ms s) (i : String)
    (r : RaftNode A M D × List (Message A D)) (safe : Safe ms (after s i r))
    (move : Move (s.nodes i) r) (stays : Stays (s.nodes i) r.0) where
  abbrev V' : Votes
  V' = Vote (r.1 ++ s.sent)

  self : (i == i) ≡ true
  self = (text_eq_iff i i).1 refl

  knows_it : Knows ms V' i (core r.0)
  knows_it = rw self at (safe.known i)

  named : r.0.id ≡ i
  named = knows_it.own

  inside : (v d : String) (t : ℕ) → V' v d t → In v ms
  inside v d t g = ((safe.known v).granted d t g).1

  more_votes : (v e : String) (u : ℕ) → Vote s.sent v e u → V' v e u
  more_votes v e u g = In-append_right _ r.1 s.sent g

  -- A new vote is this replica's, of its term, and it follows.
  new_vote :
      (v e : String) (u : ℕ)
      → V' v e u
      → Vote s.sent v e u ⊎ ((v ≡ i) × (u ≡ r.0.current_term) × (r.0.role ≡ follower))
  new_vote v e u g = elim (In-append _ r.1 s.sent g) [
    | inr old ↦ inl old
    | inl new ↦
        let (from, away, says) = All-In (SentBy r.0) r.1 _ move.sends new in
        let (term, role) = says refl in inr (from ∙ named, term, role)
  ]

  own_leads :
      (u : ℕ)
      → Crown ms (Vote s.sent) i u (core (s.nodes i))
      → r.0.current_term ≡ u
      → r.0.role ≡ leader
  own_leads u k e =
      let same : (s.nodes i).current_term ≡ u = omega (arith, k.past, move.up, e) in
      stays (k.leads same) (same ∙ sym e)

  -- Who was elected stays so.
  keep-Crown :
      (c : String) (u : ℕ)
      → Crown ms (Vote s.sent) c u (core (s.nodes c))
      → Crown ms V' c u (core ((after s i r).nodes c))
  keep-Crown c u k = elim (Bool-cases (i == c)) [
    | inl y ↦
        let same : i ≡ c = (text_eq_iff i c).0 y in
        let k' : Crown ms (Vote s.sent) i u (core (s.nodes i)) =
          subst (λ x. Crown ms (Vote s.sent) x u (core (s.nodes x))) (sym same) k in
        rw y (
          subst (λ x. Crown ms V' x u (core r.0)) same
            (Crown-keep ms (Vote s.sent) V' i u (core (s.nodes i)) (core r.0) k' more_votes
              (λ e g. elim (new_vote i e u g) [
                | inl old ↦ old
                | inr (_, term, follows) ↦
                    let leads = own_leads u k' (sym term) in absurd (cc (leads, follows))
              ])
              move.up (own_leads u k')))
    | inr n ↦ rw n (
        Crown-keep ms (Vote s.sent) V' c u (core (s.nodes c)) (core (s.nodes c)) k more_votes
          (λ e g. elim (new_vote c e u g) [
            | inl old ↦ old
            | inr (it, _, _) ↦ absurd (ground (arith, it, n, text_eq_iff i c))
          ])
          (omega arith) k.leads)
  ]

  -- A leader is elected.
  new-Crown : r.0.role ≡ leader → Crown ms V' i r.0.current_term (core r.0)
  new-Crown l = leader-Crown ms V' safe.once inside i (core r.0) knows_it l

  Crown-here :
      (c : String) (u : ℕ)
      → c ≡ i
      → u ≡ r.0.current_term
      → r.0.role ≡ leader
      → Crown ms V' c u (core ((after s i r).nodes c))
  Crown-here c u e t l =
      subst (λ x. Crown ms V' x u (core ((after s i r).nodes x))) (sym e)
        (rw self (subst (λ w. Crown ms V' i w (core r.0)) (sym t) (new-Crown l)))

  new_rule :
      (src : String) (p : Payload A D) (t : ℕ)
      → SentPayload r.0 p
      → ruled p ≡ some t
      → (t ≡ r.0.current_term) × (r.0.role ≡ leader)
  unfolding append_from
  new_rule src (append_entries ae) t (l, prev, e) q = (ground (arith, q) ∙ ap (λ a. a.term) e, l)
  new_rule src (install_snapshot sn) t (l, u, z) q = (ground (arith, q) ∙ u, l)
  new_rule src (append_reply rr) t p q = cc q
  new_rule src (install_reply rr) t p q = cc q
  new_rule src (request_vote rv) t p q = cc q
  new_rule src (vote_reply rr) t p q = cc q

  -- A replica that has just become a leader finds nothing that was appended in its term.
  pub fresh_term :
      (l : Link A)
      → In l h.links
      → r.0.role ≡ leader
      → l.term ≡ r.0.current_term
      → ((s.nodes i).role ≡ leader) × ((s.nodes i).current_term ≡ r.0.current_term)
  fresh_term l there leads same =
      let before = h.makers l there in
      let now = keep-Crown l.maker l.term before in
      let mine : Crown ms V' i l.term (core r.0) =
        subst (λ u. Crown ms V' i u (core r.0)) (sym same) (new-Crown leads) in
      let it : l.maker ≡ i =
        Crown-unique ms V' safe.once inside l.maker i l.term (core ((after s i r).nodes l.maker))
          (core r.0) now mine in
      let k : Crown ms (Vote s.sent) i l.term (core (s.nodes i)) =
        subst (λ x. Crown ms (Vote s.sent) x l.term (core (s.nodes x))) it before in
      elim (move.crowned leads) [
        | inl old ↦ old
        | inr (inl (stands, term)) ↦
            let role = k.leads (term ∙ sym same) in absurd (cc (role, stands))
        | inr (inr later) ↦ absurd (omega (arith, later, same, k.past))
      ]

  pub advance :
      (more : List (Link A))
      → ((l : Link A) → In l h.links → In l more)
      → Unique more
      → ((l : Link A) → In l more → 0 < l.term)
      → ((l : Link A)
          → In l more
          → In l h.links ⊎ ((l.maker ≡ i) × (l.term ≡ r.0.current_term) × (r.0.role ≡ leader)))
      → ((l : Link A)
          → r.0.role ≡ leader
          → In l more
          → l.term ≡ r.0.current_term
          → l.index ≤ length r.0.log)
      → Chain more 0 0 r.0.log
      → r.0.snapshot_index ≡ 0
      → Matched ms (after s i r)
  advance more inc unique positive fresh top log whole = record {
    links = more;
    unique = unique;
    positive = positive;
    makers = λ l g. elim (fresh l g) [
      | inl old ↦ keep-Crown l.maker l.term (h.makers l old)
      | inr (it, term, leads) ↦ Crown-here l.maker l.term it term leads
    ];
    tops = λ j l. elim (Bool-cases (i == j)) [
      | inl y ↦ rw y (top l)
      | inr n ↦ rw n (λ leads g term. elim (fresh l g) [
        | inl old ↦ h.tops j l leads old term
        | inr (it, t, mine) ↦
            let k : Knows ms V' j (core (s.nodes j)) = rw n at (safe.known j) in
            let same : i ≡ j =
              one_leader ms V' safe.once inside i j (core r.0) (core (s.nodes j)) knows_it k mine
                leads (sym t ∙ term) in
            absurd (ground (arith, n, same, text_eq_iff i j))
      ])
    ];
    logs = λ j. elim (Bool-cases (i == j)) [
      | inl y ↦ rw y log
      | inr n ↦ rw n (Chain-more h.links more 0 0 (s.nodes j).log inc (h.logs j))
    ];
    whole = λ j. elim (Bool-cases (i == j)) [ inl y ↦ rw y whole | inr n ↦ rw n (h.whole j) ];
    good =
        All-append (Good more) r.1 s.sent (sent-Good more r.0 log whole positive r.1 move.sends)
          (Good-more h.links more s.sent inc h.good);
    rules = λ m t g e. elim (In-append m r.1 s.sent g) [
      | inr old ↦ keep-Crown m.src t (h.rules m t old e)
      | inl new ↦
          let (from, away, says) = All-In (SentBy r.0) r.1 m move.sends new in
          let (term, leads) = new_rule m.src m.payload t says e in
          Crown-here m.src t (from ∙ named) term leads
    ];
    active = λ j. elim (Bool-cases (i == j)) [
      | inl y ↦ rw y (move.positive (h.active i))
      | inr n ↦ rw n (h.active j)
    ];
  }
