-- ===== src/Raft/Prefix.antt =====
-- src/annex/cluster/raft.py: log matching between all replicas, as long as no log is compacted.
use python_pj.Prelude.{
  ℕ, ◌≤◌, ◌≡◌, refl, sym, ap, subst, ◌∙◌, true, some, List, [], String, ◌==◌, string_eq,
  text_eq_iff, get_elem?,
}
use python_pj.Prelude.Members.{In, Distinct}
use python_pj.Raft.Types.{
  LogEntry, Payload, request_vote, vote_reply, append_entries, append_reply, install_snapshot,
  install_reply, Message,
}
use python_pj.Raft.Log.{compact}
use python_pj.Raft.Handlers.{handle, handle_payload}
use python_pj.Raft.Frame.{core}
use python_pj.Raft.Ballot.{Knows}
use python_pj.Raft.Votes.{Vote, Honest, All-In}
use python_pj.Raft.Plain.{catch_up-Knows}
use python_pj.Raft.Cluster.{
  System, after, Step, ticks, delivers, proposes, compacts, Stable, Booted,
}
use python_pj.Raft.Safe.{Safe}
use python_pj.Raft.Network.{Step-Safe, Booted-Safe}
use python_pj.Raft.Links.{Chain-match}
use python_pj.Raft.Moves.{tick-Calm}
use python_pj.Raft.Calm.{on_vote_reply-Calm, on_append_reply-Calm, on_install_reply-Calm}
use python_pj.Raft.Yields.{on_request_vote-Calm, on_install_snapshot-Calm, compact-Calm}
use python_pj.Raft.Matching.{Matched, Good, GoodPayload, ruled}
use python_pj.Raft.Appends.{Calm-Matched, lone, proposed-Matched, appended-Matched}

-- No replica has a snapshot.
abbrev pub Whole : {A M D : Type 0} → System A M D → Type 0
Whole s = (i : String) → (s.nodes i).snapshot_index ≡ 0

-- The states that a cluster reaches from empty logs while neither the membership changes nor a log is
-- compacted.
pub data Uncompacted {A M D : Type 0} (ms : List String) : System A M D → Type 0 where
  begins :
      (s : System A M D)
      → Booted s
      → Stable ms s
      → Whole s
      → ((i : String) → (s.nodes i).log ≡ [])
      → Uncompacted ms s
  goes_on :
      {s t : System A M D}
      → Uncompacted ms s
      → Step ms s t
      → Stable ms t
      → Whole t
      → Uncompacted ms t

module _ {A M D : Type 0} (ms : List String) (one_each : Distinct ms) (s : System A M D)
    (h : Matched ms s) (safe : Safe ms s) (stable : Stable ms s) where
  delivered-Matched :
      (m : Message A D) (now : ℕ)
      → In m s.sent
      → In m.dst ms
      → (p : Payload A D) → m.payload ≡ p
      → Safe ms (after s m.dst (handle_payload m.src p now (s.nodes m.dst)))
      → Matched ms (after s m.dst (handle_payload m.src p now (s.nodes m.dst)))
  unfolding handle_payload
  delivered-Matched m now g d (request_vote rv) e safe' =
      let n = s.nodes m.dst in
      let (away, payload) = All-In (Good h.links) s.sent m h.good g in
      let named : n.id ≡ m.dst = (safe.known m.dst).own in
      let (names, other) =
        subst (λ (p : Payload A D). Honest (record m { payload = p })) e
          (All-In Honest s.sent m safe.honest g) in
      let mine : Knows ms (Vote s.sent) n.id (core n) =
        subst (λ (x : String). Knows ms (Vote s.sent) x (core n)) (sym named) (safe.known m.dst) in
      Calm-Matched ms s h safe m.dst _ safe' (
        on_request_vote-Calm ms (Vote s.sent) m.src rv now n
          (catch_up-Knows ms one_each (Vote s.sent) n mine (stable m.dst)
            (subst (λ x. In x ms) (sym named) d) rv.term now)
          (λ q. away (sym names ∙ sym q ∙ named)) (λ q. away (q ∙ named)))
  delivered-Matched m now g d (vote_reply r) e safe' =
      Calm-Matched ms s h safe m.dst _ safe' (on_vote_reply-Calm r now (s.nodes m.dst))
  delivered-Matched m now g d (append_entries ae) e safe' =
      appended-Matched ms s h safe m ae now g e safe'
  delivered-Matched m now g d (append_reply r) e safe' =
      let (away, payload) = All-In (Good h.links) s.sent m h.good g in
      let from : r.follower_id ≡ m.src = subst (λ p. GoodPayload h.links m.src p) e payload in
      Calm-Matched ms s h safe m.dst _ safe' (
        on_append_reply-Calm r now (s.nodes m.dst)
          (λ q. away (sym from ∙ q ∙ (safe.known m.dst).own)))
  delivered-Matched m now g d (install_snapshot sn) e safe' =
      let (away, payload) = All-In (Good h.links) s.sent m h.good g in
      let zeroth : sn.last_included_index ≡ 0 =
        subst (λ p. GoodPayload h.links m.src p) e payload in
      Calm-Matched ms s h safe m.dst _ safe' (
        on_install_snapshot-Calm m.src sn now (s.nodes m.dst) zeroth
          (λ q. away (q ∙ (safe.known m.dst).own))
          (lone ms s h safe m m.dst sn.term g (ap ruled e) away))
  delivered-Matched m now g d (install_reply r) e safe' =
      let (away, payload) = All-In (Good h.links) s.sent m h.good g in
      let from : r.follower_id ≡ m.src = subst (λ p. GoodPayload h.links m.src p) e payload in
      Calm-Matched ms s h safe m.dst _ safe' (
        on_install_reply-Calm r now (s.nodes m.dst)
          (λ q. away (sym from ∙ q ∙ (safe.known m.dst).own)))

  Step-Matched : (t : System A M D) → Step ms s t → Whole t → Matched ms t
  unfolding handle
  Step-Matched t step w = go t step (Step-Safe ms one_each s safe stable t step) w
    where
      go : (t : System A M D) → Step ms s t → Safe ms t → Whole t → Matched ms t
      go t (ticks i now d e) safe' w =
          subst (Matched ms) (sym e)
            (Calm-Matched ms s h safe i _ (subst (Safe ms) e safe') (tick-Calm now (s.nodes i)))
      go t (delivers m now g d e) safe' w =
          subst (Matched ms) (sym e)
            (delivered-Matched m now g d m.payload refl (subst (Safe ms) e safe'))
      go t (proposes i c d e) safe' w =
          subst (Matched ms) (sym e) (proposed-Matched ms s h safe i c (subst (Safe ms) e safe'))
      go t (compacts i k d e) safe' w =
          let self : (i == i) ≡ true = (text_eq_iff i i).1 refl in
          let whole : (compact k (s.nodes i)).0.snapshot_index ≡ 0 =
            let q = subst Whole e w i in rw self at q in
          subst (Matched ms) (sym e) (
            Calm-Matched ms s h safe i _ (subst (Safe ms) e safe')
              (compact-Calm k (s.nodes i) whole))

module _ {A M D : Type 0} (ms : List String) (one_each : Distinct ms) where
  begins-Matched :
      (s : System A M D) → Booted s → Whole s → ((i : String) → (s.nodes i).log ≡ []) → Matched ms s
  begins-Matched s (quiet, own, followers, no_votes) whole empty = record {
    links = [];
    unique = λ l m g. absurd g;
    positive = λ l g. absurd g;
    makers = λ l g. absurd g;
    tops = λ i l leads g. absurd g;
    logs = λ i. rw (empty i) tt;
    whole = whole;
    good = rw quiet tt;
    rules = λ m t g e. absurd (let k : In m [] = subst (λ xs. In m xs) quiet g in k);
    active = λ i n. absurd (n (followers i));
  }

  Uncompacted-Matched :
      {s : System A M D} → Uncompacted ms s → Matched ms s × Safe ms s × Stable ms s
  Uncompacted-Matched (begins s b st w empty) =
      (begins-Matched s b w empty, Booted-Safe ms one_each s b, st)
  Uncompacted-Matched (goes_on {s} {t} r step st w) =
      let (h, safe, stable) = Uncompacted-Matched r in
      (
        Step-Matched ms one_each s h safe stable t step w,
        Step-Safe ms one_each s safe stable t step,
        st,
      )

  -- In every state that a cluster with distinct members reaches from empty logs by clock ticks,
  -- deliveries of messages that were ever sent and client commands, while no replica changes its
  -- membership and no log is compacted: if the logs of two replicas have entries of the same term at
  -- the same place, then they are the same up to that place.
  pub log_matching :
      {s : System A M D}
      → Uncompacted ms s
      → (a b : String) (k : ℕ) (x y : LogEntry A) → get_elem? (s.nodes a).log k ≡ some x
      → get_elem? (s.nodes b).log k ≡ some y
      → x.term ≡ y.term
      → (j : ℕ) → j ≤ k
      → get_elem? (s.nodes a).log j ≡ get_elem? (s.nodes b).log j
  log_matching {s} r a b k x y ex ey same =
      let h = (Uncompacted-Matched r).0 in
      Chain-match h.links (s.nodes a).log (s.nodes b).log k x y h.unique (h.logs a) (h.logs b) ex ey
        same
