-- ===== src/Raft/Winning.antt =====
-- src/annex/cluster/raft.py: an election that a candidate wins.
use python_pj.Prelude.{
  ℕ, suc, ◌+◌, ◌/◌, ◌≤◌, ◌<◌, ◌≡◌, ◌≢◌, refl, ap, inl, inr, ◌⊎◌, true, false, not, ◌||◌, List, [],
  ◌∷◌, arith, String, ◌==◌, string_eq, ltb, leb, eqb, eqb_iff, length, keep, contains, All,
  Bool-cases, map,
}
use python_pj.Prelude.Members.{In}
use python_pj.Raft.Types.{
  Role, follower, candidate, leader, is_leader, is_candidate, RequestVote, request_vote, vote_reply,
  Message, RaftNode,
}
use python_pj.Raft.Log.{peers, quorum, last_index, last_term}
use python_pj.Raft.Calls.{
  is_nil, become_follower, become_leader, new_deadline, start_election, tick,
}
use python_pj.Raft.Handlers.{
  add_vote, catch_up, cast_vote, up_to_date, on_request_vote, on_vote_reply, handle_payload, handle,
}

not_leading : (r : Role) → r ≢ leader → is_leader r ≡ false
not_leading follower h = refl
not_leading candidate h = refl
not_leading leader h = absurd (h refl)

some_peer : (d : String) (xs : List String) → In d xs → is_nil xs ≡ false
some_peer d [] h = absurd h
some_peer d (x ∷ xs) h = refl

module _ {A M D : Type 0} where
  -- what a replica asks for when its deadline is over
  abbrev pub asks : RaftNode A M D → RequestVote
  asks n = record {
    term = n.current_term + 1;
    candidate_id = n.id;
    last_log_index = last_index n;
    last_log_term = last_term n;
  }

  -- the messages handled one after the other
  abbrev pub take_in : ℕ → List (Message A D) → RaftNode A M D → RaftNode A M D
  take_in now [] c = c
  take_in now (m ∷ xs) c = take_in now xs (handle m now c).0

  -- the message with that request to the replica `d`
  abbrev pub asking : RaftNode A M D → String → Message A D
  asking n d = record { src = n.id; dst = d; payload = request_vote (asks n) }

  -- Each of some replicas gets the request of `n`, and its answers are handled by the candidate.
  abbrev pub poll : ℕ → RaftNode A M D → List (RaftNode A M D) → RaftNode A M D → RaftNode A M D
  poll now n [] c = c
  poll now n (p ∷ ps) c = poll now n ps (take_in now (handle (asking n p.id) now p).1 c)

  -- The replicas have names of their own, and none of those of `votes`.
  abbrev pub OthersThan : List String → List (RaftNode A M D) → Type 0
  OthersThan votes [] = Unit
  OthersThan votes (p ∷ ps) = (contains p.id votes ≡ false) × OthersThan (p.id ∷ votes) ps

  -- A replica that is in no later term than `n`, and whose log is not ahead.
  abbrev pub IsBehind : RaftNode A M D → RaftNode A M D → Type 0
  IsBehind n p = (p.current_term ≤ n.current_term) × (up_to_date (asks n) p ≡ true)

  granted :
      (now : ℕ) (n p : RaftNode A M D)
      → IsBehind n p
      → (handle (asking n p.id) now p).1
        ≡ record {
          src = p.id;
          dst = n.id;
          payload =
              vote_reply (record { term = n.current_term + 1; vote_granted = true; voter = p.id });
        }
          ∷ []
  unfolding handle handle_payload on_request_vote catch_up become_follower new_deadline cast_vote
      up_to_date last_index last_term
  granted now n p (older, behind) =
      let later : ltb p.current_term (n.current_term + 1) ≡ true = ground (arith, older) in
      let same : eqb (n.current_term + 1) (n.current_term + 1) ≡ true = (eqb_iff _ _).1 refl in
      rw (later, same, behind) refl

  -- Where a candidate stands that has `votes`, while `left` replicas are still to be asked.
  abbrev Standing : ℕ → ℕ → ℕ → RaftNode A M D → List String → Type 0
  Standing term q left c votes =
      (c.current_term ≡ term)
      × ((c.role ≡ leader)
          ⊎ ((c.role ≡ candidate)
              × (c.votes ≡ votes)
              × (quorum c ≡ q)
              × (length votes < q)
              × (q ≤ length votes + left)))

  counted :
      (now term q left : ℕ) (c : RaftNode A M D) (votes : List String) (src dst v : String)
      → contains v votes ≡ false
      → Standing term q (suc left) c votes
      → Standing term q left
          (handle
            (record {
              src = src;
              dst = dst;
              payload = vote_reply (record { term = term; vote_granted = true; voter = v });
            })
            now
            c).0
          (v ∷ votes)
  unfolding handle handle_payload on_vote_reply become_leader quorum
  counted now term q left c votes src dst v new (at, inl leads) =
      let current : ltb c.current_term term ≡ false = ground (arith, at) in
      let off : (not (is_candidate c.role) || not (eqb term c.current_term)) ≡ true =
        rw leads refl in
      rw (current, off) (at, inl leads)
  counted now term q left c votes src dst v new (at, inr (stands, has, needs, short, enough)) =
      let current : ltb c.current_term term ≡ false = ground (arith, at) in
      let same : eqb term term ≡ true = (eqb_iff term term).1 refl in
      let on : (not (is_candidate c.role) || not (eqb term c.current_term)) ≡ false =
        rw (stands, at, same) refl in
      let added : add_vote v c.votes ≡ v ∷ votes = rw (has, new) refl in
      rw (current, on)
        (elim (Bool-cases (leb (length c.members / 2 + 1) (length (add_vote v c.votes)))) [
          | inl won ↦ rw won (at, inl refl)
          | inr yet ↦
              let more : suc (length votes) < q =
                let n : leb (length c.members / 2 + 1) (suc (length votes)) ≡ false =
                  rw added at yet in
                ground (arith, n, needs) in
              rw yet (at, inr (stands, added, needs, more, omega (arith, enough)))
        ])

  polled :
      (now q : ℕ) (n : RaftNode A M D) (ps : List (RaftNode A M D)) (c : RaftNode A M D)
      (votes : List String)
      → All (IsBehind n) ps
      → OthersThan votes ps
      → Standing (n.current_term + 1) q (length ps) c votes
      → ((poll now n ps c).current_term ≡ n.current_term + 1) × ((poll now n ps c).role ≡ leader)
  polled now q n [] c votes a o (at, inl leads) = (at, leads)
  polled now q n [] c votes a o (at, inr (stands, has, needs, short, enough)) =
      absurd (omega (arith, short, enough))
  polled now q n (p ∷ ps) c votes a o stand =
      rw (poll, granted now n p a.0)
        (polled now q n ps _ (p.id ∷ votes) a.1 o.1
          (counted now (n.current_term + 1) q (length ps) c votes p.id n.id p.id o.0 stand))

  asking-In :
      (n : RaftNode A M D) (d : String) (xs : List String)
      → In d xs
      → In (asking n d) (map (asking n) xs)
  asking-In n d [] h = absurd h
  asking-In n d (x ∷ xs) (inl e) = inl (ap (asking n) e)
  asking-In n d (x ∷ xs) (inr h) = inr (asking-In n d xs h)

  -- A replica that does not lead and whose deadline is over sends a request for a vote to each of its
  -- peers.
  start_election-asks :
      (now : ℕ) (n : RaftNode A M D) (d : String)
      → n.role ≢ leader
      → n.election_deadline ≤ now
      → In d (peers n)
      → In (asking n d) (tick now n).1
  unfolding tick start_election new_deadline peers last_index last_term
  start_election-asks now n d other due h =
      let idle : is_leader n.role ≡ false = not_leading n.role other in
      let over : leb n.election_deadline now ≡ true = ground (arith, due) in
      let some_peers : is_nil (keep (λ m. not (m == n.id)) n.members) ≡ false = some_peer d _ h in
      rw (idle, over, start_election, some_peers) (asking-In n d _ h)

  -- A replica of a cluster of two or more that does not lead and whose deadline is over stands for
  -- election: it sends a request for a vote to each of its peers. If the request reaches replicas with
  -- names of their own, in no later term and with logs that are not ahead of its own, as many as make
  -- a quorum with it, and their answers reach it, then it leads in the next term.
  pub start_election-wins :
      (now : ℕ) (n : RaftNode A M D) (ps : List (RaftNode A M D))
      → n.role ≢ leader
      → n.election_deadline ≤ now
      → 1 < quorum n
      → All (IsBehind n) ps
      → OthersThan (n.id ∷ []) ps
      → quorum n ≤ 1 + length ps
      → ((poll now n ps (tick now n).0).role ≡ leader)
        × ((poll now n ps (tick now n).0).current_term ≡ n.current_term + 1)
        × ((d : String) → In d (peers n) → In (asking n d) (tick now n).1)
  unfolding tick start_election new_deadline become_leader quorum peers
  start_election-wins now n ps other due several behind named enough =
      let idle : is_leader n.role ≡ false = not_leading n.role other in
      let over : leb n.election_deadline now ≡ true = ground (arith, due) in
      let stood : Standing (n.current_term + 1) (quorum n) (length ps) (tick now n).0 (n.id ∷ []) =
        rw (idle, over)
          (elim (Bool-cases (is_nil (keep (λ m. not (m == n.id)) n.members))) [
            | inl alone ↦ rw (start_election, alone) (refl, inl refl)
            | inr some_peers ↦
                rw (start_election, some_peers) (refl, inr (refl, refl, refl, several, enough))
          ]) in
      let (term, leads) =
        polled now (quorum n) n ps (tick now n).0 (n.id ∷ []) behind named stood in
      (leads, term, λ d. start_election-asks now n d other due)
