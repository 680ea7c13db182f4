-- ===== src/Raft/Network.antt =====
-- src/annex/cluster/raft.py: the votes and the leaders of a cluster, through every step of the network.
use python_pj.Prelude.{ℕ, ◌≡◌, ◌≢◌, refl, sym, subst, true, List, [], String, string_eq}
use python_pj.Prelude.Members.{In, Distinct}
use python_pj.Raft.Types.{
  leader, Payload, request_vote, vote_reply, append_entries, append_reply, install_snapshot,
  install_reply, Message, RaftNode,
}
use python_pj.Raft.Log.{compact}
use python_pj.Raft.Calls.{propose}
use python_pj.Raft.Handlers.{handle, handle_payload, catch_up, on_request_vote}
use python_pj.Raft.Frame.{core}
use python_pj.Raft.Ballot.{Knows, one_leader}
use python_pj.Raft.Votes.{Vote, Honest, All-In}
use python_pj.Raft.Plain.{
  Plain, tick-Plain, on_vote_reply-Plain, on_append-Plain, on_append_reply-Plain,
  on_install_snapshot-Plain, on_install_reply-Plain, propose-Plain, compact-Plain, catch_up-Knows,
}
use python_pj.Raft.Cluster.{
  System, after, Step, ticks, delivers, proposes, compacts, Stable, Booted, Reached, start, next,
}
use python_pj.Raft.Safe.{Safe, plain-Safe, answered-Safe}

module _ {A M D : Type 0} (ms : List String) (one_each : Distinct ms) (s : System A M D)
    (safe : Safe ms s) (stable : Stable ms s) where
  abbrev PlainHere : (i : String) → RaftNode A M D × List (Message A D) → Type 0
  PlainHere i r = Plain ms (Vote s.sent) i r

  -- What the lemmas about one replica ask, at `i`.
  abbrev knows_own : (i : String) → Knows ms (Vote s.sent) (s.nodes i).id (core (s.nodes i))
  knows_own i =
      subst (λ (x : String). Knows ms (Vote s.sent) x (core (s.nodes i))) (sym (safe.known i).own)
        (safe.known i)

  named : (i : String) → (s.nodes i).id ≡ i
  named i = (safe.known i).own

  In-own : (i : String) → In i ms → In (s.nodes i).id ms
  In-own i m = subst (λ (x : String). In x ms) (sym (named i)) m

  plain-after :
      (i : String) (r : RaftNode A M D × List (Message A D))
      → Plain ms (Vote s.sent) (s.nodes i).id r
      → Safe ms (after s i r)
  plain-after i r p =
      plain-Safe ms s safe i r (subst (λ (x : String). Plain ms (Vote s.sent) x r) (named i) p)

  delivered-Safe :
      (m : Message A D) (now : ℕ)
      → In m s.sent
      → In m.dst ms
      → (p : Payload A D) → m.payload ≡ p
      → Safe ms (after s m.dst (handle_payload m.src p now (s.nodes m.dst)))
  unfolding handle_payload on_request_vote
  delivered-Safe m now i d (request_vote rv) e =
      let h : (rv.candidate_id ≡ m.src) × (m.src ≢ m.dst) =
        subst (λ (p : Payload A D). Honest (record m { payload = p })) e
          (All-In Honest s.sent m safe.honest i) in
      let n = s.nodes m.dst in
      let k : Knows ms (Vote s.sent) m.dst (core (catch_up rv.term now n)) =
        subst (λ (x : String). Knows ms (Vote s.sent) x (core (catch_up rv.term now n)))
          (named m.dst)
          (catch_up-Knows ms one_each (Vote s.sent) n (knows_own m.dst) (stable m.dst)
            (In-own m.dst d) rv.term now) in
      answered-Safe ms s safe m.dst (catch_up rv.term now n) m.src rv now k k.own h.0 h.1 d
  delivered-Safe m now i d (vote_reply r) e = plain-after m.dst _ (
      on_vote_reply-Plain ms one_each (Vote s.sent) (s.nodes m.dst) (knows_own m.dst) (stable m.dst)
        (In-own m.dst d) r now
        (λ yea.
          let h : r.voter ≡ m.src =
            subst (λ (p : Payload A D). Honest (record m { payload = p })) e
              (All-In Honest s.sent m safe.honest i) in
          let same : m ≡ record {
            src = r.voter;
            dst = (s.nodes m.dst).id;
            payload = vote_reply (record { term = r.term; vote_granted = true; voter = r.voter });
          } =
            cc (e, h, named m.dst, yea) in
          subst (λ (x : Message A D). In x s.sent) same i))
  delivered-Safe m now i d (append_entries ae) e = plain-after m.dst _ (
      on_append-Plain ms one_each (Vote s.sent) (s.nodes m.dst) (knows_own m.dst) (stable m.dst)
        (In-own m.dst d) m.src ae now)
  delivered-Safe m now i d (append_reply r) e = plain-after m.dst _ (
      on_append_reply-Plain ms one_each (Vote s.sent) (s.nodes m.dst) (knows_own m.dst)
        (stable m.dst) (In-own m.dst d) r now)
  delivered-Safe m now i d (install_snapshot sn) e = plain-after m.dst _ (
      on_install_snapshot-Plain ms one_each (Vote s.sent) (s.nodes m.dst) (knows_own m.dst)
        (stable m.dst) (In-own m.dst d) m.src sn now)
  delivered-Safe m now i d (install_reply r) e = plain-after m.dst _ (
      on_install_reply-Plain ms one_each (Vote s.sent) (s.nodes m.dst) (knows_own m.dst)
        (stable m.dst) (In-own m.dst d) r now)

  pub Step-Safe : (t : System A M D) → Step ms s t → Safe ms t
  unfolding handle
  Step-Safe t (ticks i now d e) = subst (Safe ms) (sym e) (
      plain-after i _ (
        tick-Plain ms one_each (Vote s.sent) (s.nodes i) (knows_own i) (stable i) (In-own i d) now))
  Step-Safe t (delivers m now i d e) =
      subst (Safe ms) (sym e) (delivered-Safe m now i d m.payload refl)
  Step-Safe t (proposes i c d e) = subst (Safe ms) (sym e) (
      plain-after i ((propose c (s.nodes i)).0, [])
        (record {
          knows =
              propose-Plain ms one_each (Vote s.sent) (s.nodes i) (knows_own i) (stable i)
                (In-own i d) c;
          fair = tt;
        }))
  Step-Safe t (compacts i k d e) = subst (Safe ms) (sym e) (
      plain-after i ((compact k (s.nodes i)).0, [])
        (record {
          knows =
              compact-Plain ms one_each (Vote s.sent) (s.nodes i) (knows_own i) (stable i)
                (In-own i d) k;
          fair = tt;
        }))

module _ {A M D : Type 0} (ms : List String) (one_each : Distinct ms) where
  pub Booted-Safe : (s : System A M D) → Booted s → Safe ms s
  Booted-Safe s (quiet, own, followers, no_votes) =
      let none_sent = λ (v c : String) (t : ℕ) (g : Vote s.sent v c t).
        let h : ⊥ = subst (λ (l : List (Message A D)). Vote l v c t) quiet g in h in
      record {
        known = λ i. record {
          own = own i;
          own_vote = λ n. absurd (n (followers i));
          granted = λ d t g. absurd (none_sent i d t g);
          counted = λ n. absurd (n (followers i));
          distinct = rw (no_votes i) tt;
          elected = λ l. cc (l, followers i);
        };
        once = λ v c d t g. absurd (none_sent v c t g);
        honest = rw quiet tt;
      }

  Reached-Safe : {s : System A M D} → Reached ms s → Safe ms s × Stable ms s
  Reached-Safe (start s b st) = (Booted-Safe s b, st)
  Reached-Safe (next {s} {t} r step st) =
      let ih = Reached-Safe r in (Step-Safe ms one_each s ih.0 ih.1 t step, st)

  -- In every state that a cluster with distinct members reaches by clock ticks, deliveries of
  -- messages that were ever sent, client commands and log compactions, while no replica changes its
  -- membership, two replicas that lead in the same term are the same.
  pub election_safety :
      {s : System A M D}
      → Reached ms s
      → (a b : String) → (s.nodes a).role ≡ leader
      → (s.nodes b).role ≡ leader
      → (s.nodes a).current_term ≡ (s.nodes b).current_term
      → a ≡ b
  election_safety {s} r a b la lb same =
      let safe = (Reached-Safe r).0 in
      one_leader ms (Vote s.sent) safe.once (λ v d t g. ((safe.known v).granted d t g).1) a b
        (core (s.nodes a)) (core (s.nodes b)) (safe.known a) (safe.known b) la lb same
