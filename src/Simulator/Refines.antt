-- ===== src/Simulator/Refines.antt =====
-- src/annex/cluster/simulator.py: what the simulator does, as moves of the network of `Raft.Cluster`.
use python_pj.Prelude.{
  ℕ, zero, suc, ◌+◌, ◌≡◌, refl, sym, ap, ◌∙◌, inl, inr, subst, String, Bool, some, List, [], ◌∷◌,
  ◌++◌, arith, if◌then◌else◌, string_eq, text_eq_iff, ◌==◌, keep, All, All-append, Bool-cases,
  Option-cases,
}
use python_pj.Prelude.Dict.{Dict, get, insert, keys, get-insert}
use python_pj.Prelude.Members.{In, In-append_left, In-append_right}
use python_pj.Raft.Types.{Message, RaftNode}
use python_pj.Raft.Calls.{tick}
use python_pj.Raft.Handlers.{handle}
use python_pj.Raft.Cluster.{System, after, Step, ticks, delivers, proposes, compacts}
use python_pj.Simulator.{
  Scheduled, ClusterSimulator, before, insert_scheduled, sort_queue, is_due, is_later, reachable,
  enqueue_one, enqueue_each, enqueue, tick_at, tick_all, deliver, deliver_all, step, run_steps,
}

-- Lists of scheduled messages of which each has a property.
module _ {A D : Type 0} (P : Scheduled A D → Type 0) where
  All-insert_scheduled :
      (a : Scheduled A D) (bs : List (Scheduled A D))
      → P a
      → All P bs
      → All P (insert_scheduled a bs)
  unfolding insert_scheduled
  All-insert_scheduled a [] p h = (p, tt)
  All-insert_scheduled a (b ∷ bs) p h = elim (Bool-cases (before a b)) [
    | inl e ↦ rw e (p, h)
    | inr e ↦ rw e (h.0, All-insert_scheduled a bs p h.1)
  ]

  All-sort_queue : (bs : List (Scheduled A D)) → All P bs → All P (sort_queue bs)
  unfolding sort_queue
  All-sort_queue [] h = tt
  All-sort_queue (b ∷ bs) h = All-insert_scheduled b (sort_queue bs) h.0 (All-sort_queue bs h.1)

  All-keep : (q : Scheduled A D → Bool) (bs : List (Scheduled A D)) → All P bs → All P (keep q bs)
  All-keep q [] h = tt
  All-keep q (b ∷ bs) h = elim (Bool-cases (q b)) [
    | inl e ↦ rw e (h.0, All-keep q bs h.1)
    | inr e ↦ rw e (All-keep q bs h.1)
  ]

module _ {A D : Type 0} where
  -- The scheduled messages were sent.
  abbrev pub Carried : List (Message A D) → List (Scheduled A D) → Type 0
  Carried sent = All (λ (m : Scheduled A D). In m.message sent)

  Carried-more :
      (new sent : List (Message A D)) (q : List (Scheduled A D))
      → Carried sent q
      → Carried (new ++ sent) q
  Carried-more new sent [] h = tt
  Carried-more new sent (m ∷ q) h = (In-append_right _ new sent h.0, Carried-more new sent q h.1)

  All-sent :
      (xs sent : List (Message A D))
      → ((m : Message A D) → In m xs → In m sent)
      → All (λ (m : Message A D). In m sent) xs
  All-sent [] sent h = tt
  All-sent (x ∷ xs) sent h = (h x (inl refl), All-sent xs sent (λ m i. h m (inr i)))

module _ {A M D : Type 0} where
  enqueue_one-Carried :
      (sent : List (Message A D)) (m : Message A D) (s : ClusterSimulator A M D)
      → In m sent
      → Carried sent s.queue
      → Carried sent (enqueue_one m s).queue × ((enqueue_one m s).nodes ≡ s.nodes)
  unfolding enqueue_one
  enqueue_one-Carried sent m s i h = elim (Bool-cases (reachable s m.src m.dst)) [
    | inr far ↦ rw far (h, refl)
    | inl near ↦ elim (Bool-cases (s.drops s.calls)) [
      | inl lost ↦ rw (near, lost) (h, refl)
      | inr sent_on ↦
          rw (near, sent_on)
            (All-append (λ (x : Scheduled A D). In x.message sent) s.queue _ h (i, tt), refl)
    ]
  ]

  enqueue_each-Carried :
      (sent ms : List (Message A D)) (s : ClusterSimulator A M D)
      → All (λ (m : Message A D). In m sent) ms
      → Carried sent s.queue
      → Carried sent (enqueue_each ms s).queue × ((enqueue_each ms s).nodes ≡ s.nodes)
  unfolding enqueue_each
  enqueue_each-Carried sent [] s i h = (h, refl)
  enqueue_each-Carried sent (m ∷ ms) s i h =
      let (carried, same) = enqueue_one-Carried sent m s i.0 h in
      let (all, still) = enqueue_each-Carried sent ms (enqueue_one m s) i.1 carried in
      (all, still ∙ same)

  enqueue-Carried :
      (sent ms : List (Message A D)) (s : ClusterSimulator A M D)
      → All (λ (m : Message A D). In m sent) ms
      → Carried sent s.queue
      → Carried sent (enqueue ms s).queue × ((enqueue ms s).nodes ≡ s.nodes)
  unfolding enqueue
  enqueue-Carried sent ms s i h =
      let (all, same) = enqueue_each-Carried sent ms s i h in
      (All-sort_queue (λ (x : Scheduled A D). In x.message sent) _ all, same)

  -- A system has the simulator's nodes, all of them members, and has sent what is in its queue.
  pub record Represents (ms : List String) (s : ClusterSimulator A M D) (t : System A M D)
      : Type 0 where
    pub same :
        (id : String) (n : RaftNode A M D) → get s.nodes id ≡ some n → (t.nodes id ≡ n) × In id ms
    pub carried : Carried t.sent s.queue

  -- Zero or more moves.
  pub data Runs (ms : List String) (s : System A M D) : System A M D → Type 0 where
    here : Runs ms s s
    next : {t u : System A M D} → Runs ms s t → Step ms t u → Runs ms s u

  pub Runs-trans :
      (ms : List String) {s t u : System A M D} → Runs ms s t → Runs ms t u → Runs ms s u
  Runs-trans ms r here = r
  Runs-trans ms r (next p st) = next (Runs-trans ms r p) st

  -- One node has a new state, and the messages that it sends are put in the queue or lost.
  moved :
      (ms : List String) (s : ClusterSimulator A M D) (t : System A M D) (id : String)
      (n : RaftNode A M D) (r : RaftNode A M D × List (Message A D)) (s' : ClusterSimulator A M D)
      → Represents ms s t
      → get s.nodes id ≡ some n
      → s'.nodes ≡ insert s.nodes id r.0
      → s'.queue ≡ s.queue
      → Represents ms (enqueue r.1 s') (after t id r)
  moved ms s t id n r s' p e nodes queue =
      let sent : List (Message A D) = r.1 ++ t.sent in
      let (carried, still) =
        enqueue-Carried sent r.1 s' (All-sent r.1 sent (λ m i. In-append_left m r.1 t.sent i))
          (rw queue (Carried-more r.1 t.sent s.queue p.carried)) in
      record {
        same = λ j m f.
            let found : (if id == j then some r.0 else get s.nodes j) ≡ some m =
              sym (
                ap (λ (d : Dict String (RaftNode A M D)). get d j) (still ∙ nodes)
                ∙ get-insert s.nodes id j r.0)
              ∙ f in
            elim (Bool-cases (id == j)) [
              | inl y ↦ rw y (
                ground (arith, y, found),
                subst (λ (x : String). In x ms) ((text_eq_iff id j).0 y) (p.same id n e).1,
              )
              | inr y ↦ rw y (p.same j m (ground (arith, y, found)))
            ];
        carried = carried;
      }

  -- What a step of the simulator does to a system that it represents.
  abbrev Follows : List String → System A M D → ClusterSimulator A M D → Type 0
  Follows ms t s' = (u : System A M D) × Runs ms t u × Represents ms s' u

  tick_at-Follows :
      (ms : List String) (id : String) (s : ClusterSimulator A M D) (t : System A M D)
      → Represents ms s t
      → Follows ms t (tick_at id s)
  unfolding tick_at
  tick_at-Follows ms id s t p = elim (Option-cases (get s.nodes id)) [
    | inl e ↦ rw (e, tick_at) (t, here, p)
    | inr (n, e) ↦
        let (at, mine) = p.same id n e in
        let r : RaftNode A M D × List (Message A D) = tick s.time n in
        rw (e, tick_at)
          (
            after t id r,
            next here (
                ticks id s.time mine
                  (ap (λ (x : RaftNode A M D). after t id (tick s.time x)) (sym at))),
            moved ms s t id n r _ p e refl refl,
          )
  ]

  tick_all-Follows :
      (ms ids : List String) (s : ClusterSimulator A M D) (t : System A M D)
      → Represents ms s t
      → Follows ms t (tick_all ids s)
  unfolding tick_all
  tick_all-Follows ms [] s t p = (t, here, p)
  tick_all-Follows ms (id ∷ ids) s t p =
      let (u, run, q) = tick_at-Follows ms id s t p in
      let (v, more, o) = tick_all-Follows ms ids (tick_at id s) u q in
      (v, Runs-trans ms run more, o)

  Step-sent :
      (ms : List String) {s t : System A M D}
      → Step ms s t
      → (m : Message A D) → In m s.sent
      → In m t.sent
  Step-sent ms {s} (ticks i now mine e) m h =
      subst (λ (x : System A M D). In m x.sent) (sym e) (In-append_right m _ s.sent h)
  Step-sent ms {s} (delivers x now sent mine e) m h =
      subst (λ (x : System A M D). In m x.sent) (sym e) (In-append_right m _ s.sent h)
  Step-sent ms {s} (proposes i c mine e) m h = subst (λ (x : System A M D). In m x.sent) (sym e) h
  Step-sent ms {s} (compacts i k mine e) m h = subst (λ (x : System A M D). In m x.sent) (sym e) h

  Runs-sent :
      (ms : List String) {s t : System A M D}
      → Runs ms s t
      → (m : Message A D) → In m s.sent
      → In m t.sent
  Runs-sent ms here m h = h
  Runs-sent ms (next r st) m h = Step-sent ms st m (Runs-sent ms r m h)

  Runs-Carried :
      (ms : List String) {s t : System A M D}
      → Runs ms s t
      → (q : List (Scheduled A D)) → Carried s.sent q
      → Carried t.sent q
  Runs-Carried ms r [] h = tt
  Runs-Carried ms r (x ∷ q) h = (Runs-sent ms r x.message h.0, Runs-Carried ms r q h.1)

  deliver-Follows :
      (ms : List String) (x : Scheduled A D) (s : ClusterSimulator A M D) (t : System A M D)
      → Represents ms s t
      → In x.message t.sent
      → Follows ms t (deliver x s)
  unfolding deliver
  deliver-Follows ms x s t p i = elim (Option-cases (get s.nodes x.message.dst)) [
    | inl e ↦ rw (e, deliver) (t, here, p)
    | inr (n, e) ↦
        let (at, mine) = p.same x.message.dst n e in
        let r : RaftNode A M D × List (Message A D) = handle x.message s.time n in
        rw (e, deliver)
          (
            after t x.message.dst r,
            next here (
                delivers x.message s.time i mine (
                  ap (λ (y : RaftNode A M D). after t x.message.dst (handle x.message s.time y))
                    (sym at))),
            moved ms s t x.message.dst n r _ p e refl refl,
          )
  ]

  deliver_all-Follows :
      (ms : List String) (q : List (Scheduled A D)) (s : ClusterSimulator A M D) (t : System A M D)
      → Represents ms s t
      → Carried t.sent q
      → Follows ms t (deliver_all q s)
  unfolding deliver_all
  deliver_all-Follows ms [] s t p c = (t, here, p)
  deliver_all-Follows ms (x ∷ q) s t p c =
      let (u, run, p') = deliver-Follows ms x s t p c.0 in
      let (v, more, o) = deliver_all-Follows ms q (deliver x s) u p' (Runs-Carried ms run q c.1) in
      (v, Runs-trans ms run more, o)

  step-Follows :
      (ms : List String) (dt : ℕ) (s : ClusterSimulator A M D) (t : System A M D)
      → Represents ms s t
      → Follows ms t (step dt s)
  unfolding step
  step-Follows ms dt s t p =
      let s1 : ClusterSimulator A M D = record s { time = s.time + dt } in
      let s2 : ClusterSimulator A M D = tick_all (keys s1.nodes) s1 in
      let (u, run, p2) =
        tick_all-Follows ms (keys s1.nodes) s1 t (record { same = p.same; carried = p.carried }) in
      let sent = λ (x : Scheduled A D). In x.message u.sent in
      let (v, more, o) =
        deliver_all-Follows ms (keep (is_due s2.time) s2.queue)
          (record s2 { queue = keep (is_later s2.time) s2.queue }) u
          (record {
            same = p2.same;
            carried = All-keep sent (is_later s2.time) s2.queue p2.carried;
          })
          (All-keep sent (is_due s2.time) s2.queue p2.carried) in
      (v, Runs-trans ms run more, o)

  -- If the nodes of the simulator are those of a network of members and what is in its queue was
  -- sent there, then what any number of simulator steps does, partitions, drops and delays included,
  -- is a sequence of moves of the network that ends with the simulator's nodes, its queue again
  -- sent.
  pub run_steps-Represents :
      (ms : List String) (n dt : ℕ) (s : ClusterSimulator A M D) (t : System A M D)
      → Represents ms s t
      → (u : System A M D) × Runs ms t u × Represents ms (run_steps n dt s) u
  unfolding run_steps
  run_steps-Represents ms zero dt s t p = (t, here, p)
  run_steps-Represents ms (suc n) dt s t p =
      let (u, run, q) = step-Follows ms dt s t p in
      let (v, more, o) = run_steps-Represents ms n dt (step dt s) u q in
      (v, Runs-trans ms run more, o)
