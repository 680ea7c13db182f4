-- ===== src/Raft/Moves.antt =====
-- src/annex/cluster/raft.py: how a handler changes the role, the term and the log of a replica, and what
-- it sends.
use python_pj.Prelude.{
  ℕ, ◌+◌, ◌≤◌, ◌<◌, ◌≡◌, ◌≢◌, refl, inl, inr, ◌⊎◌, true, false, not, List, [], ◌∷◌, map, arith,
  String, ◌==◌, string_eq, text_eq_iff, leb, keep, All, All-append, Bool-cases,
}
use python_pj.Prelude.Dict.{get}
use python_pj.Raft.Types.{
  Role, follower, candidate, leader, is_leader, RequestVote, Payload, request_vote, vote_reply,
  append_entries, append_reply, install_snapshot, install_reply, Message, RaftNode,
}
use python_pj.Raft.Log.{peers, last_index}
use python_pj.Raft.Calls.{
  get_or, append_from, append_to, send_all, broadcast_append, tick, start_election, is_nil,
  become_leader,
}

module _ {A M D : Type 0} where
  -- what a message of the replica `n` holds, by its kind
  abbrev pub SentPayload : RaftNode A M D → Payload A D → Type 0
  SentPayload n (append_entries ae) = (n.role ≡ leader) × (prev : ℕ) × (ae ≡ append_from n prev)
  SentPayload n (install_snapshot s) =
      (n.role ≡ leader) × (s.term ≡ n.current_term) × (s.last_included_index ≡ n.snapshot_index)
  SentPayload n (append_reply r) = r.follower_id ≡ n.id
  SentPayload n (install_reply r) = r.follower_id ≡ n.id
  SentPayload n (request_vote rv) = Unit
  SentPayload n (vote_reply r) =
      (r.vote_granted ≡ true) → (r.term ≡ n.current_term) × (n.role ≡ follower)

  -- A message that the replica `n` sends to another.
  abbrev pub SentBy : RaftNode A M D → Message A D → Type 0
  SentBy n m = (m.src ≡ n.id) × (m.dst ≢ n.id) × SentPayload n m.payload

-- A step of a replica, from `n`: the role and the term move as elections allow, and the messages are its
-- own.
pub record Move {A M D : Type 0} (n : RaftNode A M D) (r : RaftNode A M D × List (Message A D))
    : Type 0 where
  pub up : n.current_term ≤ r.0.current_term
  pub crowned :
      r.0.role ≡ leader
      → ((n.role ≡ leader) × (n.current_term ≡ r.0.current_term))
        ⊎ (((n.role ≡ candidate) × (n.current_term ≡ r.0.current_term))
            ⊎ (n.current_term < r.0.current_term))
  pub positive :
      (n.role ≢ follower → 0 < n.current_term) → r.0.role ≢ follower → 0 < r.0.current_term
  pub sends : All (SentBy r.0) r.1

-- It goes on leading while its term is the same.
abbrev pub Stays : {A M D : Type 0} → RaftNode A M D → RaftNode A M D → Type 0
Stays n n' = n.role ≡ leader → n.current_term ≡ n'.current_term → n'.role ≡ leader

-- It keeps its log and its snapshot.
abbrev pub KeepsLog : {A M D : Type 0} → RaftNode A M D → RaftNode A M D → Type 0
KeepsLog n n' =
    (n'.log ≡ n.log) × (n'.snapshot_index ≡ n.snapshot_index) × (n'.snapshot_term ≡ n.snapshot_term)

others : (me : String) (xs : List String) → All (λ p. p ≢ me) (keep (λ m. not (m == me)) xs)
others me [] = tt
others me (x ∷ xs) = elim (Bool-cases (x == me)) [
  | inl e ↦ rw e (others me xs)
  | inr e ↦ rw e ((λ p. ground (arith, text_eq_iff x me, e, p)), others me xs)
]

-- A step that keeps the log, and goes on leading.
pub record Calm {A M D : Type 0} (n : RaftNode A M D) (r : RaftNode A M D × List (Message A D))
    : Type 0 where
  pub move : Move n r
  pub stays : Stays n r.0
  pub keeps : KeepsLog n r.0

pub is_leader-leader : (r : Role) → is_leader r ≡ true → r ≡ leader
is_leader-leader follower h = cc
is_leader-leader candidate h = cc
is_leader-leader leader h = refl

pub not_leader : (r : Role) → is_leader r ≡ false → r ≢ leader
not_leader r h e = let l : is_leader r ≡ true = rw e refl in absurd (cc)

module _ {A M D : Type 0} where
  pub append_to-SentBy :
      (n : RaftNode A M D) (p : String)
      → n.role ≡ leader
      → p ≢ n.id
      → All (SentBy n) (append_to n p)
  unfolding append_to
  append_to-SentBy n p l ne =
      elim (Bool-cases (leb (get_or (get n.next_index p) (last_index n + 1)) n.snapshot_index)) [
        | inl h ↦ rw h ((refl, ne, (l, refl, refl)), tt)
        | inr h ↦ rw h ((refl, ne, (l, _, refl)), tt)
      ]

  send_all-SentBy :
      (n : RaftNode A M D) (ps : List String)
      → n.role ≡ leader
      → All (λ p. p ≢ n.id) ps
      → All (SentBy n) (send_all n ps)
  unfolding send_all
  send_all-SentBy n [] l a = tt
  send_all-SentBy n (p ∷ ps) l a =
      All-append (SentBy n) (append_to n p) (send_all n ps) (append_to-SentBy n p l a.0)
        (send_all-SentBy n ps l a.1)

  pub broadcast-SentBy :
      (n : RaftNode A M D) → n.role ≡ leader → All (SentBy n) (broadcast_append n)
  unfolding broadcast_append peers
  broadcast-SentBy n l = send_all-SentBy n (peers n) l (others n.id n.members)

  idle-Move : (n : RaftNode A M D) → Move n (n, [])
  idle-Move n = record {
    up = omega arith;
    crowned = λ l. inl (l, refl);
    positive = λ h. h;
    sends = tt;
  }

  pub idle-Calm : (n : RaftNode A M D) → Calm n (n, [])
  idle-Calm n = record { move = idle-Move n; stays = λ l e. l; keeps = (refl, refl, refl) }

  -- votes are asked of the others
  asked-SentBy :
      (n : RaftNode A M D) (f : String → RequestVote) (ps : List String)
      → All (λ p. p ≢ n.id) ps
      → All (SentBy n) (map (λ p. record { src = n.id; dst = p; payload = request_vote (f p) }) ps)
  asked-SentBy n f [] a = tt
  asked-SentBy n f (p ∷ ps) a = ((refl, a.0, tt), asked-SentBy n f ps a.1)

  start_election-Calm :
      (now : ℕ) (n : RaftNode A M D) → n.role ≢ leader → Calm n (start_election now n)
  unfolding start_election become_leader peers
  start_election-Calm now n other =
      elim (Bool-cases (is_nil (keep (λ m. not (m == n.id)) n.members))) [
        | inl e ↦ rw e (record {
          move = record {
            up = omega arith;
            crowned = λ l. inr (inr (omega arith));
            positive = λ h e. omega arith;
            sends = tt;
          };
          stays = λ l q. absurd (other l);
          keeps = (refl, refl, refl);
        })
        | inr e ↦ rw e (record {
          move = record {
            up = omega arith;
            crowned = λ l. inr (inr (omega arith));
            positive = λ h e. omega arith;
            sends =
                asked-SentBy _ _ (keep (λ m. not (m == n.id)) n.members) (others n.id n.members);
          };
          stays = λ l q. absurd (other l);
          keeps = (refl, refl, refl);
        })
      ]

  pub tick-Calm : (now : ℕ) (n : RaftNode A M D) → Calm n (tick now n)
  unfolding tick
  tick-Calm now n = elim (Bool-cases (is_leader n.role)) [
    | inl l ↦ rw l (elim (Bool-cases (leb n.next_heartbeat now)) [
      | inl due ↦ rw due (record {
        move = record {
          up = omega arith;
          crowned = λ m. inl (m, refl);
          positive = λ h. h;
          sends = broadcast-SentBy _ (is_leader-leader n.role l);
        };
        stays = λ m e. m;
        keeps = (refl, refl, refl);
      })
      | inr h ↦ rw h (idle-Calm n)
    ])
    | inr l ↦ rw l (elim (Bool-cases (leb n.election_deadline now)) [
      | inl due ↦ rw due (start_election-Calm now n (not_leader n.role l))
      | inr h ↦ rw h (idle-Calm n)
    ])
  ]
