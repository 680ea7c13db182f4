-- ===== src/Raft/Votes.antt =====
-- src/annex/cluster/raft.py: which messages carry votes, and what a sender may claim in them.
use python_pj.Prelude.{
  ℕ, ◌+◌, ◌≡◌, ◌≢◌, sym, subst, inl, inr, true, not, List, [], ◌∷◌, map, arith, String, ◌==◌,
  string_eq, text_eq_iff, leb, keep, All, All-append, Bool-cases,
}
use python_pj.Prelude.Dict.{get}
use python_pj.Prelude.Members.{In}
use python_pj.Raft.Types.{Payload, request_vote, vote_reply, Message, RaftNode}
use python_pj.Raft.Log.{peers, last_index}
use python_pj.Raft.Calls.{get_or, append_to, send_all, broadcast_append}
use python_pj.Raft.Ballot.{Votes}

module _ {A D : Type 0} where
  -- `v` granted its vote to `c` in term `t`, by a message among those sent.
  abbrev pub Vote : List (Message A D) → Votes
  Vote sent v c t =
      In
        (record {
          src = v;
          dst = c;
          payload = vote_reply (record { term = t; vote_granted = true; voter = v });
        })
        sent

  abbrev HonestPayload : String → String → Payload A D → Type 0
  HonestPayload src dst (request_vote rv) = (rv.candidate_id ≡ src) × (src ≢ dst)
  HonestPayload src dst (vote_reply r) = r.voter ≡ src
  HonestPayload src dst _ = Unit

  -- A message about votes names its sender.
  abbrev pub Honest : Message A D → Type 0
  Honest m = HonestPayload m.src m.dst m.payload

  abbrev Mute : Payload A D → Type 0
  Mute (vote_reply r) = ⊥
  Mute _ = Unit

  -- A message that names its sender where it asks for a vote, and grants none.
  abbrev pub Fair : Message A D → Type 0
  Fair m = HonestPayload m.src m.dst m.payload × Mute m.payload

  pub All-In :
      (P : Message A D → Type 0) (ms : List (Message A D)) (m : Message A D)
      → All P ms
      → In m ms
      → P m
  All-In P [] m a i = absurd i
  All-In P (x ∷ xs) m a (inl e) = subst P (sym e) a.0
  All-In P (x ∷ xs) m a (inr i) = All-In P xs m a.1 i

  pub Fair-Honest : (ms : List (Message A D)) → All Fair ms → All Honest ms
  Fair-Honest [] a = tt
  Fair-Honest (m ∷ ms) a = (a.0.0, Fair-Honest ms a.1)

  pub Fair-no_vote :
      (ms : List (Message A D)) → All Fair ms → (v c : String) (t : ℕ) → ¬ Vote ms v c t
  Fair-no_vote ms a v c t i = (All-In Fair ms _ a i).1

module _ {A M D : Type 0} where
  pub append_to-Fair : (n : RaftNode A M D) (p : String) → All Fair (append_to n p)
  unfolding append_to
  append_to-Fair n p =
      elim (Bool-cases (leb (get_or (get n.next_index p) (last_index n + 1)) n.snapshot_index)) [
        | inl h ↦ rw h ((tt, tt), tt)
        | inr h ↦ rw h ((tt, tt), tt)
      ]

  send_all-Fair : (n : RaftNode A M D) (ps : List String) → All Fair (send_all n ps)
  unfolding send_all
  send_all-Fair n [] = tt
  send_all-Fair n (p ∷ ps) =
      All-append Fair (append_to n p) (send_all n ps) (append_to-Fair n p) (send_all-Fair n ps)

  pub broadcast-Fair : (n : RaftNode A M D) → All Fair (broadcast_append n)
  unfolding broadcast_append
  broadcast-Fair n = send_all-Fair n (peers n)

module _ {A D : Type 0} where
  -- messages to everyone but the sender
  pub to_peers-Fair :
      (me : String) (f : String → Message A D)
      → ((p : String) → me ≢ p → Fair (f p))
      → (xs : List String) → All Fair (map f (keep (λ m. not (m == me)) xs))
  to_peers-Fair me f h [] = tt
  to_peers-Fair me f h (x ∷ xs) = elim (Bool-cases (x == me)) [
    | inl e ↦ rw e (to_peers-Fair me f h xs)
    | inr e ↦ rw e (h x (λ p. ground (arith, text_eq_iff x me, e, p)), to_peers-Fair me f h xs)
  ]
