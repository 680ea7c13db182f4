-- ===== src/Raft/Appends.antt =====
-- src/annex/cluster/raft.py: the steps that keep a log, that append to it and that take entries over.
use python_pj.Prelude.{
  ℕ, ◌+◌, ◌≤◌, ◌<◌, ◌≡◌, ◌≢◌, refl, sym, ap, subst, ◌∙◌, inl, inr, some, List, [], ◌∷◌, ◌++◌, arith,
  String, string_eq, eqb, eqb_iff, take, length, length-append, Bool-cases,
}
use python_pj.Prelude.Members.{In}
use python_pj.Raft.Types.{leader, Command, AppendEntries, append_entries, Message, RaftNode}
use python_pj.Raft.Log.{last_index, term_at}
use python_pj.Raft.Calls.{propose}
use python_pj.Raft.Handlers.{on_append}
use python_pj.Raft.Frame.{Core, core}
use python_pj.Raft.Index.{Contiguous, placed_all}
use python_pj.Raft.Refine.{Logged, logged, last_index-length, term_at-within}
use python_pj.Raft.Replication.{followed, follow-logged, accepted-term, Accepts}
use python_pj.Raft.Votes.{Vote, All-In}
use python_pj.Raft.Cluster.{System, after}
use python_pj.Raft.Safe.{Safe}
use python_pj.Raft.Links.{
  Link, Chain, Chain-Contiguous, Chain-append, Chain-more, end_term, placed_all-Chain,
}
use python_pj.Raft.Crown.{Crown, leader-Crown, Crown-unique}
use python_pj.Raft.Moves.{Move, Stays, Calm, idle-Calm}
use python_pj.Raft.Grows.{on_append-Move, proposed, propose-Move}
use python_pj.Raft.Matching.{Matched, Good, GoodPayload, before, before-end, ruled}
use python_pj.Raft.Advance.{advance, fresh_term}

module _ {A M D : Type 0} (ms : List String) (s : System A M D) (h : Matched ms s)
    (safe : Safe ms s) where
  inside : (v d : String) (t : ℕ) → Vote s.sent v d t → In v ms
  inside v d t g = ((safe.known v).granted d t g).1

  -- a step that keeps the log
  same_log-Matched :
      (i : String) (r : RaftNode A M D × List (Message A D))
      → Safe ms (after s i r)
      → Move (s.nodes i) r
      → Stays (s.nodes i) r.0
      → r.0.log ≡ (s.nodes i).log
      → r.0.snapshot_index ≡ (s.nodes i).snapshot_index
      → Matched ms (after s i r)
  same_log-Matched i r safe' move stays log index =
      advance ms s h i r safe' move stays h.links (λ l g. g) h.unique h.positive (λ l g. inl g)
        (λ l leads g term.
          let (led, same) = fresh_term ms s h i r safe' move stays l g leads term in
          subst (λ xs. l.index ≤ length xs) (sym log) (h.tops i l led g (term ∙ sym same)))
        (subst (λ xs. Chain h.links 0 0 xs) (sym log) (h.logs i)) (index ∙ h.whole i)

  pub Calm-Matched :
      (i : String) (r : RaftNode A M D × List (Message A D))
      → Safe ms (after s i r)
      → Calm (s.nodes i) r
      → Matched ms (after s i r)
  Calm-Matched i r safe' c = same_log-Matched i r safe' c.move c.stays c.keeps.0 c.keeps.1

  -- Nobody but itself leads in the term of a leader.
  pub lone :
      (m : Message A D) (i : String) (t : ℕ)
      → In m s.sent
      → ruled m.payload ≡ some t
      → m.src ≢ i
      → (s.nodes i).role ≡ leader
      → t ≢ (s.nodes i).current_term
  lone m i t g rules ne leads same =
      let k =
        leader-Crown ms (Vote s.sent) safe.once inside i (core (s.nodes i)) (safe.known i) leads in
      ne (
        Crown-unique ms (Vote s.sent) safe.once inside m.src i t (core (s.nodes m.src))
          (core (s.nodes i)) (h.rules m t g rules)
          (subst (λ u. Crown ms (Vote s.sent) i u (core (s.nodes i))) (sym same) k))

  -- the log that an accepted AppendEntries leaves
  accepted-Chain :
      (src : String) (ae : AppendEntries A) (now : ℕ) (n : RaftNode A M D)
      → Chain h.links 0 0 n.log
      → n.snapshot_index ≡ 0
      → GoodPayload {D = D} h.links src (append_entries ae)
      → Accepts src ae now n
      → Chain h.links 0 0 (placed_all n.snapshot_index ae.entries n.log)
  accepted-Chain src ae now n c whole (ce, has_term) acc = rw whole (elim has_term [
    | inl e ↦ rw e c
    | inr (inl z) ↦ placed_all-Chain h.links 0 0 ae.entries n.log (rw z at ce) (omega arith) refl c
    | inr (inr pos) ↦ elim (Bool-cases (eqb ae.prev_log_index 0)) [
      | inl y ↦
          let z = (eqb_iff ae.prev_log_index 0).0 y in
          placed_all-Chain h.links 0 0 ae.entries n.log (rw z at ce) (omega arith) refl c
      | inr later ↦
          let f = followed src ae now n in
          let same : logged f ≡ logged n = follow-logged ae.term ae.leader_id now n in
          let log : f.log ≡ n.log = ap (λ (l : Logged A). l.l_log) same in
          let index : f.snapshot_index ≡ 0 =
            ap (λ (l : Logged A). l.l_snapshot_index) same ∙ whole in
          let c' : Chain h.links 0 0 f.log = subst (λ xs. Chain h.links 0 0 xs) (sym log) c in
          let term : term_at f ae.prev_log_index ≡ ae.prev_log_term =
            accepted-term src ae now n acc.1 (ground (arith, later)) in
          let le : ae.prev_log_index ≤ length f.log =
            let w = term_at-within f ae.prev_log_index (subst (λ t. 0 < t) (sym term) pos) in
            omega (arith, w, index) in
          let end =
            sym (ap (before ae.prev_log_index) term)
            ∙ before-end h.links f c' index h.positive ae.prev_log_index le
            ∙ ap (λ xs. end_term 0 (take ae.prev_log_index xs)) log in
          placed_all-Chain h.links ae.prev_log_index (before ae.prev_log_index ae.prev_log_term)
            ae.entries n.log ce (subst (λ xs. ae.prev_log_index ≤ length xs) log le) end c
    ]
  ])

  -- a command of a leader
  pub proposed-Matched :
      (i : String) (c : Command A)
      → Safe ms (after s i ((propose c (s.nodes i)).0, []))
      → Matched ms (after s i ((propose c (s.nodes i)).0, []))
  proposed-Matched i c safe' =
      let n = s.nodes i in
      let n' = (propose c n).0 in
      elim (propose-Move c n) [
        | inl (other, same) ↦
            Calm-Matched i (n', []) safe' (subst (λ x. Calm n (x, [])) (sym same) (idle-Calm n))
        | inr (leads, same, index, log) ↦
            let term : n'.current_term ≡ n.current_term = ap (λ (x : Core). x.term) same in
            let role : n'.role ≡ n.role = ap (λ (x : Core). x.role) same in
            let new : Link A = record {
              term = n.current_term;
              index = last_index n + 1;
              command = c;
              prev = end_term 0 n.log;
              maker = i;
            } in
            let long : last_index n ≡ length n.log =
              let q = last_index-length n (
                subst (λ b. Contiguous b n.log) (sym (h.whole i))
                  (Chain-Contiguous h.links 0 0 n.log (h.logs i))) in
              omega (arith, q, h.whole i) in
            let older : (l : Link A) → In l h.links → l.term ≡ new.term → l.index ≡ new.index → ⊥ =
              λ l g t e. omega (arith, h.tops i l leads g t, e, long) in
            let grown : length (n.log ++ proposed c n ∷ []) ≡ length n.log + 1 =
              length-append n.log (proposed c n ∷ []) in
            let move : Move n (n', []) = record {
              up = omega (arith, term);
              crowned = λ l. inl (leads, sym term);
              positive = rw (term, role) (λ p. p);
              sends = tt;
            } in
            advance ms s h i (n', []) safe' move (λ l e. role ∙ l) (new ∷ h.links) (λ l g. inr g)
              (λ l m gl gm t e. elim gl [
                | inl a ↦ elim gm [
                  | inl b ↦ a ∙ sym b
                  | inr old ↦
                      absurd
                        (older m old (sym t ∙ ap (λ x. x.term) a) (sym e ∙ ap (λ x. x.index) a))
                ]
                | inr old ↦ elim gm [
                  | inl b ↦ absurd (older l old (t ∙ ap (λ x. x.term) b) (e ∙ ap (λ x. x.index) b))
                  | inr both ↦ h.unique l m old both t e
                ]
              ])
              (λ l g. elim g [
                | inl a ↦ subst (λ x. 0 < x.term) (sym a) (h.active i (λ f. cc (leads, f)))
                | inr old ↦ h.positive l old
              ])
              (λ l g. elim g [
                | inl a ↦ inr (ap (λ x. x.maker) a, ap (λ x. x.term) a ∙ sym term, role ∙ leads)
                | inr old ↦ inl old
              ])
              (λ l led g t. elim g [
                | inl a ↦ rw log (omega (arith, ap (λ x. x.index) a, long, grown))
                | inr old ↦ rw log (omega (arith, h.tops i l leads old (t ∙ term), grown))
              ])
              (subst (λ xs. Chain (new ∷ h.links) 0 0 xs) (sym log)
                (Chain-append (new ∷ h.links) 0 0 n.log (proposed c n)
                  (Chain-more h.links (new ∷ h.links) 0 0 n.log (λ l g. inr g) (h.logs i))
                  (omega (arith, long)) (i, inl refl)))
              (index ∙ h.whole i)
      ]

  pub appended-Matched :
      (m : Message A D) (ae : AppendEntries A) (now : ℕ)
      → In m s.sent
      → m.payload ≡ append_entries ae
      → Safe ms (after s m.dst (on_append m.src ae now (s.nodes m.dst)))
      → Matched ms (after s m.dst (on_append m.src ae now (s.nodes m.dst)))
  appended-Matched m ae now g e safe' =
      let n = s.nodes m.dst in
      let (away, payload) = All-In (Good h.links) s.sent m h.good g in
      let held : GoodPayload {D = D} h.links m.src (append_entries ae) =
        subst (λ p. GoodPayload h.links m.src p) e payload in
      let named : n.id ≡ m.dst = (safe.known m.dst).own in
      let alone = lone m m.dst ae.term g (ap ruled e) away in
      let (move, stays, appends) = on_append-Move m.src ae now n (λ q. away (q ∙ named)) alone in
      let (index, log) = appends in
      elim log [
        | inl same ↦ same_log-Matched m.dst (on_append m.src ae now n) safe' move stays same index
        | inr (acc, follows, grew) ↦
            advance ms s h m.dst (on_append m.src ae now n) safe' move stays h.links (λ l k. k)
              h.unique h.positive (λ l k. inl k) (λ l leads k t. absurd (cc (leads, follows)))
              (subst (λ xs. Chain h.links 0 0 xs) (sym grew)
                (accepted-Chain m.src ae now n (h.logs m.dst) (h.whole m.dst) held acc))
              (index ∙ h.whole m.dst)
      ]
