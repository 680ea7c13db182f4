-- ===== src/Raft/Replication.antt =====
-- src/annex/cluster/raft.py: `_on_append` and `_append_to`, log replication between two replicas.
use python_pj.Prelude.{
  ℕ, ◌+◌, ◌-◌, ◌≤◌, ◌<◌, ◌≡◌, refl, sym, ap, subst, ◌∙◌, inl, inr, ◌⊎◌, true, false, not, ◌||◌,
  some, List, [], ◌∷◌, arith, String, ltb, leb, drop, length, get_elem?, string_eq, All, Bool-cases,
  Option-cases, ltb→lt,
}
use python_pj.Prelude.Dict.{get}
use python_pj.Raft.Types.{
  is_follower, LogEntry, AppendEntries, append_entries, append_reply, RaftNode,
}
use python_pj.Raft.Log.{last_index, entry_at, term_at, append_all}
use python_pj.Raft.Calls.{append_from, append_to, get_or}
use python_pj.Raft.Handlers.{follow, conflicts, follow_commit, on_append, answer}
use python_pj.Raft.Frame.{Stored, apply_committed-stored}
use python_pj.Raft.Index.{
  Contiguous, Contiguous-drop, placed_all, placed_all-Contiguous, placed_all-Agrees,
  placed_all-below, placed_all-reaches, Agrees, drop-past, get_elem?-none,
}
use python_pj.Raft.Refine.{
  Logged, logged, append_all-logged, NoHole, last_index-length, term_at-within,
}
use native.Mathlib.Decide.{dec_lt}

-- What a replica's `AppendEntries` satisfies: its entries follow on from the previous index, and that
-- has a term unless there is none or nothing follows.
pub record IsWellFormed {A : Type 0} (ae : AppendEntries A) : Type 0 where
  pub follow_on : Contiguous ae.prev_log_index ae.entries
  pub has_term : (ae.entries ≡ []) ⊎ ((ae.prev_log_index ≡ 0) ⊎ (0 < ae.prev_log_term))

module _ {A M D : Type 0} where
  pub follow-logged :
      (term : ℕ) (leader_id : String) (now : ℕ) (n : RaftNode A M D)
      → logged (follow term leader_id now n) ≡ logged n
  unfolding follow
  follow-logged term leader_id now n =
      elim (Bool-cases (ltb n.current_term term || not (is_follower n.role))) [
        | inl h ↦ rw h refl
        | inr h ↦ rw h refl
      ]

  -- applying commands leaves the log and the snapshot's index alone
  abbrev at_log : RaftNode A M D → ℕ × List (LogEntry A)
  at_log n = (n.snapshot_index, n.log)

  follow_commit-log : (k : ℕ) (n : RaftNode A M D) → at_log (follow_commit k n) ≡ at_log n
  unfolding follow_commit
  follow_commit-log k n = elim (Bool-cases (ltb n.commit_index k)) [
    | inl h ↦ rw h (
        ap
          (λ (s : Stored A).
            let p : ℕ × List (LogEntry A) = (s.stored_snapshot_index, s.stored_log) in p)
          (apply_committed-stored _))
    | inr h ↦ rw h refl
  ]

-- A replica that takes in a well-formed message.
module _ {A M D : Type 0} (src : String) (ae : AppendEntries A) (now : ℕ) (n : RaftNode A M D) where
  abbrev pub followed : RaftNode A M D
  followed = follow ae.term ae.leader_id now n

  abbrev pub grown : RaftNode A M D
  grown = follow_commit ae.leader_commit (append_all ae.entries followed)

  abbrev pub Accepts : Type 0
  Accepts = (ltb ae.term n.current_term ≡ false) × (conflicts ae followed ≡ false)

  pub grown-log : at_log grown ≡ (n.snapshot_index, placed_all n.snapshot_index ae.entries n.log)
  grown-log =
      follow_commit-log ae.leader_commit (append_all ae.entries followed)
      ∙ ap (λ (l : Logged A). let p : ℕ × List (LogEntry A) = (l.l_snapshot_index, l.l_log) in p)
          (append_all-logged ae.entries followed)
      ∙ ap
          (λ (l : Logged A).
            let p : ℕ × List (LogEntry A) =
              (l.l_snapshot_index, placed_all l.l_snapshot_index ae.entries l.l_log) in
            p)
          (follow-logged ae.term ae.leader_id now n)

  grown-snapshot : grown.snapshot_index ≡ n.snapshot_index
  grown-snapshot = ap (λ (p : ℕ × List (LogEntry A)). p.0) grown-log

  grown-entries : grown.log ≡ placed_all n.snapshot_index ae.entries n.log
  grown-entries = ap (λ (p : ℕ × List (LogEntry A)). p.1) grown-log

  pub accepted-term :
      conflicts ae followed ≡ false
      → 0 < ae.prev_log_index
      → term_at followed ae.prev_log_index ≡ ae.prev_log_term
  unfolding conflicts
  accepted-term h pos = ground arith

  followed-within :
      0 < term_at followed ae.prev_log_index → ae.prev_log_index ≤ n.snapshot_index + length n.log
  followed-within h =
      subst (λ (l : Logged A). ae.prev_log_index ≤ l.l_snapshot_index + length l.l_log)
        (follow-logged ae.term ae.leader_id now n) (term_at-within followed ae.prev_log_index h)

  -- An accepted message follows on from an index that the log reaches.
  accepted-fits :
      IsWellFormed ae
      → conflicts ae followed ≡ false
      → (ae.entries ≡ []) ⊎ (ae.prev_log_index ≤ n.snapshot_index + length n.log)
  accepted-fits w h = elim w.has_term [
    | inl e ↦ inl e
    | inr (inl z) ↦ inr (omega arith)
    | inr (inr pos) ↦ elim (Bool-cases (ltb 0 ae.prev_log_index)) [
      | inl p ↦
          inr
            (followed-within (subst (λ (k : ℕ). 0 < k) (sym (accepted-term h (ltb→lt _ _ p))) pos))
      | inr z ↦ inr (ground arith)
    ]
  ]

  grown-NoHole :
      NoHole n
      → (ae.entries ≡ []) ⊎ (ae.prev_log_index ≤ n.snapshot_index + length n.log)
      → IsWellFormed ae
      → NoHole grown
  grown-NoHole c fits w =
      subst (λ (p : ℕ × List (LogEntry A)). Contiguous p.0 p.1) (sym grown-log)
        (elim fits [
          | inl e ↦ rw e c
          | inr h ↦
              placed_all-Contiguous n.snapshot_index ae.prev_log_index ae.entries n.log w.follow_on
                h c
        ])

  followed-NoHole : NoHole n → NoHole followed
  followed-NoHole c =
      subst (λ (l : Logged A). Contiguous l.l_snapshot_index l.l_log)
        (sym (follow-logged ae.term ae.leader_id now n)) c

  on_append-NoHole : NoHole n → IsWellFormed ae → NoHole (on_append src ae now n).0
  unfolding on_append
  on_append-NoHole c w = elim (Bool-cases (ltb ae.term n.current_term)) [
    | inl old ↦ rw old c
    | inr new ↦ rw new (elim (Bool-cases (conflicts ae followed)) [
      | inl bad ↦ rw bad (followed-NoHole c)
      | inr good ↦ rw good (grown-NoHole c (accepted-fits w good) w)
    ])
  ]

  on_append-accepted : Accepts → (on_append src ae now n).0 ≡ grown
  unfolding on_append
  on_append-accepted h = rw (h.0, h.1) refl

  accepted-entries :
      NoHole n
      → IsWellFormed ae
      → Accepts
      → All (Agrees n.snapshot_index (on_append src ae now n).0.log) ae.entries
        × ((i : ℕ)
            → n.snapshot_index + i < ae.prev_log_index
            → get_elem? (on_append src ae now n).0.log i ≡ get_elem? n.log i)
  accepted-entries c w acc =
      rw (on_append-accepted acc, grown-entries)
        (elim (accepted-fits w acc.1) [
          | inl e ↦ rw e (tt, λ i h. refl)
          | inr h ↦ (
            placed_all-Agrees n.snapshot_index ae.prev_log_index ae.entries n.log w.follow_on h c,
            placed_all-below n.snapshot_index ae.prev_log_index ae.entries n.log w.follow_on h c,
          )
        ])

  -- When a follower without holes in its log accepts a well-formed AppendEntries, its log then has no
  -- holes, has, at the index of each entry that the snapshot does not cover, an entry of that term,
  -- and the entries before prev_log_index are those it had.
  pub on_append-Agrees :
      NoHole n
      → IsWellFormed ae
      → Accepts
      → NoHole (on_append src ae now n).0
        × All (Agrees n.snapshot_index (on_append src ae now n).0.log) ae.entries
        × ((i : ℕ)
            → n.snapshot_index + i < ae.prev_log_index
            → get_elem? (on_append src ae now n).0.log i ≡ get_elem? n.log i)
  on_append-Agrees c w acc =
      let (agree, below) = accepted-entries c w acc in (on_append-NoHole c w, agree, below)

  grown-last :
      NoHole n → IsWellFormed ae → Accepts → last_index grown ≡ n.snapshot_index + length grown.log
  grown-last c w acc =
      last_index-length grown (grown-NoHole c (accepted-fits w acc.1) w)
      ∙ ap (λ (s : ℕ). s + length grown.log) grown-snapshot

  grown-covers :
      NoHole n
      → IsWellFormed ae
      → Accepts
      → (ae.entries ≡ []) ⊎ (ae.prev_log_index + length ae.entries ≤ last_index grown)
  grown-covers c w acc = elim (accepted-fits w acc.1) [
    | inl e ↦ inl e
    | inr h ↦ inr (
        rw (grown-last c w acc, grown-entries)
          (placed_all-reaches n.snapshot_index ae.prev_log_index ae.entries n.log w.follow_on h c))
  ]

  grown-idle :
      NoHole n → IsWellFormed ae → Accepts → ae.entries ≡ [] → last_index grown ≡ last_index n
  grown-idle c w acc e =
      grown-last c w acc
      ∙ ap (λ (l : List (LogEntry A)). n.snapshot_index + length l) grown-entries
      ∙ ap
          (λ (es : List (LogEntry A)).
            n.snapshot_index + length (placed_all n.snapshot_index es n.log))
          e
      ∙ sym (last_index-length n c)

  -- A follower without holes that accepts a well-formed AppendEntries answers with success and a
  -- match index that covers the entries sent; when there are none, it is the last index of the
  -- follower's own log.
  pub on_append-match :
      NoHole n
      → IsWellFormed ae
      → Accepts
      → (m : ℕ) × ((on_append src ae now n).1
          ≡ answer grown src (
              append_reply (record {
                term = grown.current_term;
                success = true;
                follower_id = grown.id;
                match_index = m;
                conflict_index = 0;
              })))
        × ((ae.entries ≡ []) ⊎ (ae.prev_log_index + length ae.entries ≤ m))
        × (ae.entries ≡ [] → m ≡ last_index n)
  unfolding on_append
  on_append-match c w acc =
      (last_index grown, rw (acc.0, acc.1) refl, grown-covers c w acc, grown-idle c w acc)

-- What a replica sends.
module _ {A M D : Type 0} (n : RaftNode A M D) (peer : String) where
  -- Log terms are positive, and so is the snapshot's unless there is none.
  pub record Termed : Type 0 where
    pub entry_terms : (i : ℕ) (x : LogEntry A) → get_elem? n.log i ≡ some x → 0 < x.term
    pub snapshot_has_term : (n.snapshot_index ≡ 0) ⊎ (0 < n.snapshot_term)

  sent_term :
      Termed
      → (prev : ℕ) → n.snapshot_index ≤ prev
      → prev < n.snapshot_index + length n.log
      → (prev ≡ 0) ⊎ (0 < term_at n prev)
  unfolding term_at entry_at
  sent_term t prev h lt = elim (Option-cases (get_elem? n.log (prev - n.snapshot_index - 1))) [
    | inl e ↦
        let m = get_elem?-none n.log (prev - n.snapshot_index - 1) e in
        ground (arith, t.snapshot_has_term)
    | inr (x, e) ↦
        ground (arith, e, t.snapshot_has_term, t.entry_terms (prev - n.snapshot_index - 1) x e)
  ]

  append_from-IsWellFormed :
      NoHole n → Termed → (prev : ℕ) → n.snapshot_index ≤ prev → IsWellFormed (append_from n prev)
  unfolding append_from
  append_from-IsWellFormed c t prev h = elim (dec_lt prev (n.snapshot_index + length n.log)) [
    | yes lt ↦ record {
      follow_on =
          subst (λ (b : ℕ). Contiguous b (drop (prev - n.snapshot_index) n.log))
            (let e : n.snapshot_index + (prev - n.snapshot_index) ≡ prev = omega arith in e)
            (Contiguous-drop n.snapshot_index (prev - n.snapshot_index) n.log (omega arith) c);
      has_term = inr (sent_term t prev h lt);
    }
    | no ge ↦
        let past = drop-past (prev - n.snapshot_index) n.log (omega arith) in
        record { follow_on = rw past tt; has_term = inl past }
  ]

  -- The AppendEntries that a node sends, if its log has no holes and its terms are positive, is well
  -- formed: its entries follow on from prev_log_index, and with entries after a positive
  -- prev_log_index its prev_log_term is positive.
  pub append_to-IsWellFormed :
      NoHole n
      → Termed
      → (ae : AppendEntries A)
      → append_to n peer ≡ record { src = n.id; dst = peer; payload = append_entries ae } ∷ []
      → IsWellFormed ae
  unfolding append_to
  append_to-IsWellFormed c t ae h =
      let next_idx = get_or (get n.next_index peer) (last_index n + 1) in
      elim (Bool-cases (leb next_idx n.snapshot_index)) [
        | inl low ↦ absurd (ground (arith, low, h))
        | inr high ↦
            let sent : append_from n (next_idx - 1) ≡ ae = ground (arith, high, h) in
            subst IsWellFormed sent (append_from-IsWellFormed c t (next_idx - 1) (ground arith))
      ]
