-- ===== src/Raft/Matching.antt =====
-- src/annex/cluster/raft.py: the logs of all replicas, as long as no log is compacted.
use python_pj.Prelude.{
  ℕ, zero, suc, ◌+◌, ◌-◌, ◌≤◌, ◌<◌, ◌≡◌, ◌≢◌, refl, sym, ap, subst, ◌∙◌, inl, inr, ◌⊎◌, false,
  Option, none, some, List, [], ◌∷◌, arith, String, string_eq, if◌then◌else◌, leb, eqb, take, drop,
  length, get_elem?, All, Bool-cases, Option-cases,
}
use python_pj.Prelude.Members.{In}
use python_pj.Raft.Types.{
  follower, leader, Payload, request_vote, vote_reply, append_entries, append_reply,
  install_snapshot, install_reply, Message, RaftNode,
}
use python_pj.Raft.Log.{term_at}
use python_pj.Raft.Calls.{append_from}
use python_pj.Raft.Frame.{core}
use python_pj.Raft.Index.{drop-past, get_elem?-none}
use python_pj.Raft.Refine.{term_at-get}
use python_pj.Raft.Votes.{Vote}
use python_pj.Raft.Cluster.{System}
use python_pj.Raft.Links.{Link, Chain, Chain-more, Chain-drop, Chain-at, end_term, Unique}
use python_pj.Raft.Crown.{Crown}
use python_pj.Raft.Moves.{SentBy, SentPayload}

-- what `prev_log_term` says, which is not read for the index 0
abbrev pub before : ℕ → ℕ → ℕ
before prev t = if eqb prev 0 then 0 else t

module _ {A D : Type 0} where
  abbrev pub GoodPayload : List (Link A) → String → Payload A D → Type 0
  GoodPayload links src (append_entries ae) =
      Chain links ae.prev_log_index (before ae.prev_log_index ae.prev_log_term) ae.entries
      × ((ae.entries ≡ []) ⊎ ((ae.prev_log_index ≡ 0) ⊎ (0 < ae.prev_log_term)))
  GoodPayload links src (install_snapshot s) = s.last_included_index ≡ 0
  GoodPayload links src (append_reply r) = r.follower_id ≡ src
  GoodPayload links src (install_reply r) = r.follower_id ≡ src
  GoodPayload links src (request_vote rv) = Unit
  GoodPayload links src (vote_reply r) = Unit

  -- A message between two replicas, whose entries were once appended where it puts them.
  abbrev pub Good : List (Link A) → Message A D → Type 0
  Good links m = (m.src ≢ m.dst) × GoodPayload links m.src m.payload

  -- the term in which the sender claims to lead
  abbrev pub ruled : Payload A D → Option ℕ
  ruled (append_entries ae) = some ae.term
  ruled (install_snapshot s) = some s.term
  ruled (append_reply r) = none
  ruled (install_reply r) = none
  ruled (request_vote rv) = none
  ruled (vote_reply r) = none

  GoodPayload-more :
      (links more : List (Link A)) (src : String) (p : Payload A D)
      → ((l : Link A) → In l links → In l more)
      → GoodPayload links src p
      → GoodPayload more src p
  GoodPayload-more links more src (append_entries ae) h g = (
    Chain-more links more ae.prev_log_index (before ae.prev_log_index ae.prev_log_term) ae.entries h
        g.0,
    g.1,
  )
  GoodPayload-more links more src (install_snapshot s) h g = g
  GoodPayload-more links more src (append_reply r) h g = g
  GoodPayload-more links more src (install_reply r) h g = g
  GoodPayload-more links more src (request_vote rv) h g = g
  GoodPayload-more links more src (vote_reply r) h g = g

  pub Good-more :
      (links more : List (Link A)) (xs : List (Message A D))
      → ((l : Link A) → In l links → In l more)
      → All (Good links) xs
      → All (Good more) xs
  Good-more links more [] h a = tt
  Good-more links more (m ∷ xs) h a =
      ((a.0.0, GoodPayload-more links more m.src m.payload h a.0.1), Good-more links more xs h a.1)

-- The invariant: what was appended, at which place and by whom, determines the logs and what is sent.
pub record Matched {A M D : Type 0} (ms : List String) (s : System A M D) : Type 0 where
  pub links : List (Link A)
  pub unique : Unique links
  pub positive : (l : Link A) → In l links → 0 < l.term
  pub makers :
      (l : Link A) → In l links → Crown ms (Vote s.sent) l.maker l.term (core (s.nodes l.maker))
  pub tops :
      (i : String) (l : Link A)
      → (s.nodes i).role ≡ leader
      → In l links
      → l.term ≡ (s.nodes i).current_term
      → l.index ≤ length (s.nodes i).log
  pub logs : (i : String) → Chain links 0 0 (s.nodes i).log
  pub whole : (i : String) → (s.nodes i).snapshot_index ≡ 0
  pub good : All (Good links) s.sent
  pub rules :
      (m : Message A D) (t : ℕ)
      → In m s.sent
      → ruled m.payload ≡ some t
      → Crown ms (Vote s.sent) m.src t (core (s.nodes m.src))
  pub active : (i : String) → (s.nodes i).role ≢ follower → 0 < (s.nodes i).current_term

module _ {A M D : Type 0} (links : List (Link A)) (n : RaftNode A M D) (c : Chain links 0 0 n.log)
    (whole : n.snapshot_index ≡ 0) (positive : (l : Link A) → In l links → 0 < l.term) where
  -- the term before the entries of a message is that of the entry there
  pub before-end :
      (prev : ℕ) → prev ≤ length n.log → before prev (term_at n prev) ≡ end_term 0 (take prev n.log)
  before-end zero le = refl
  before-end (suc p) le = elim (Option-cases (get_elem? n.log p)) [
    | inl m ↦ absurd (omega (arith, le, get_elem?-none n.log p m))
    | inr (x, e) ↦
        let at : get_elem? n.log (suc p - n.snapshot_index - 1) ≡ some x =
          ap (get_elem? n.log)
            (let q : suc p - n.snapshot_index - 1 ≡ p = omega (arith, whole) in q)
          ∙ e in
        let other : eqb (suc p) 0 ≡ false = ground arith in
        rw other (
          term_at-get n (suc p) (omega (arith, whole)) at
          ∙ sym (Chain-at links 0 0 p n.log x c e).2)
  ]

  before-positive : (prev : ℕ) → prev < length n.log → (prev ≡ 0) ⊎ (0 < term_at n prev)
  before-positive zero lt = inl refl
  before-positive (suc p) lt = elim (Option-cases (get_elem? n.log p)) [
    | inl m ↦ absurd (omega (arith, lt, get_elem?-none n.log p m))
    | inr (x, e) ↦
        let at : get_elem? n.log (suc p - n.snapshot_index - 1) ≡ some x =
          ap (get_elem? n.log)
            (let q : suc p - n.snapshot_index - 1 ≡ p = omega (arith, whole) in q)
          ∙ e in
        let (maker, l) = (Chain-at links 0 0 p n.log x c e).1 in
        let pos = positive _ l in
        inr (subst (λ t. 0 < t) (sym (term_at-get n (suc p) (omega (arith, whole)) at)) pos)
  ]

  pub append_from-Good :
      (prev : ℕ) → GoodPayload {D = D} links n.id (append_entries (append_from n prev))
  unfolding append_from
  append_from-Good prev = elim (Bool-cases (leb (length n.log) prev)) [
    | inl past ↦
        let gone : drop (prev - n.snapshot_index) n.log ≡ [] =
          drop-past (prev - n.snapshot_index) n.log (ground (arith, past, whole)) in
        rw gone (tt, inl refl)
    | inr within ↦
        let same : prev - n.snapshot_index ≡ prev = omega (arith, whole) in
        let from : 0 + prev ≡ prev = omega arith in
        rw (same, before-end prev (ground (arith, within)))
          (
            subst (λ i. Chain links i (end_term 0 (take prev n.log)) (drop prev n.log)) from
                (Chain-drop links 0 0 prev n.log c (ground (arith, within))),
            inr (before-positive prev (ground (arith, within))),
          )
  ]

  pub sent-GoodPayload : (p : Payload A D) → SentPayload n p → GoodPayload links n.id p
  sent-GoodPayload (append_entries ae) (l, prev, e) =
      subst (λ a. GoodPayload {D = D} links n.id (append_entries a)) (sym e) (append_from-Good prev)
  sent-GoodPayload (install_snapshot s) (l, t, i) = i ∙ whole
  sent-GoodPayload (append_reply r) e = e
  sent-GoodPayload (install_reply r) e = e
  sent-GoodPayload (request_vote rv) e = tt
  sent-GoodPayload (vote_reply r) e = tt

  pub sent-Good : (xs : List (Message A D)) → All (SentBy n) xs → All (Good links) xs
  sent-Good [] a = tt
  sent-Good (m ∷ xs) ((from, away, p), a) = (
    (
      (λ e. away (sym e ∙ from)),
      subst (λ i. GoodPayload links i m.payload) (sym from) (sent-GoodPayload m.payload p),
    ),
    sent-Good xs a,
  )
