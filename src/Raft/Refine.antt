-- ===== src/Raft/Refine.antt =====
-- src/annex/cluster/raft.py: what the handlers do to the log, as operations on lists.
use python_pj.Prelude.{
  ℕ, suc, ◌+◌, ◌-◌, ◌≤◌, ◌<◌, ◌≡◌, refl, ap, ◌∙◌, inl, inr, Option, none, some, List, [], ◌∷◌, ◌++◌,
  arith, String, leb, eqb, length, get_elem?, last?, Bool-cases, Option-cases,
}
use python_pj.Raft.Types.{is_leader, Command, config, client, LogEntry, RaftNode}
use python_pj.Raft.Log.{
  index_or, last_index, entry_at, term_at, track, untrack, adopt_members, append_command,
  push_entry, place_entry, append_entry, append_all,
}
use python_pj.Raft.Index.{Contiguous, get_elem?-lt, place, placed, placed_all}

-- The part of a node's state that the log's indices are read from, and how far it is applied.
pub record Logged (A : Type 0) : Type 0 where
  pub l_log : List (LogEntry A)
  pub l_snapshot_index : ℕ
  pub l_snapshot_term : ℕ
  pub l_commit : ℕ
  pub l_applied : ℕ

module _ {A M D : Type 0} where
  abbrev pub logged : RaftNode A M D → Logged A
  logged n = record {
    l_log = n.log;
    l_snapshot_index = n.snapshot_index;
    l_snapshot_term = n.snapshot_term;
    l_commit = n.commit_index;
    l_applied = n.last_applied;
  }

  -- `n` with another log
  abbrev pub relogged : RaftNode A M D → List (LogEntry A) → Logged A
  relogged n log = record {
    l_log = log;
    l_snapshot_index = n.snapshot_index;
    l_snapshot_term = n.snapshot_term;
    l_commit = n.commit_index;
    l_applied = n.last_applied;
  }

  track-logged :
      (last : ℕ) (ps : List String) (n : RaftNode A M D) → logged (track last ps n) ≡ logged n
  unfolding track
  track-logged last [] n = refl
  track-logged last (p ∷ ps) n = track-logged last ps _

  untrack-logged : (ps : List String) (n : RaftNode A M D) → logged (untrack ps n) ≡ logged n
  unfolding untrack
  untrack-logged [] n = refl
  untrack-logged (p ∷ ps) n = untrack-logged ps _

  pub adopt_members-logged :
      (ms : List String) (n : RaftNode A M D) → logged (adopt_members ms n) ≡ logged n
  unfolding adopt_members
  adopt_members-logged ms n = elim (Bool-cases (is_leader n.role)) [
    | inl e ↦ rw e (untrack-logged _ _ ∙ track-logged _ _ _)
    | inr e ↦ rw e refl
  ]

  pub push_entry-logged :
      (e : LogEntry A) (n : RaftNode A M D) → logged (push_entry e n) ≡ relogged n (n.log ++ e ∷ [])
  unfolding push_entry
  push_entry-logged e n = go e.command
    where
      go :
          (c : Command A)
          → logged (append_command c (record n { log = n.log ++ e ∷ [] }))
            ≡ relogged n (n.log ++ e ∷ [])
      go (config ms) = adopt_members-logged ms _
      go (client c) = refl

  place_entry-logged :
      (e : LogEntry A) (x : Option (LogEntry A)) (n : RaftNode A M D)
      → logged (place_entry e x n) ≡ relogged n (place n.snapshot_index e x n.log)
  unfolding place_entry
  place_entry-logged e none n = push_entry-logged e n
  place_entry-logged e (some x) n = elim (Bool-cases (eqb x.term e.term)) [
    | inl h ↦ rw h refl
    | inr h ↦ rw h (push_entry-logged e _)
  ]

  append_entry-logged :
      (e : LogEntry A) (n : RaftNode A M D)
      → logged (append_entry e n) ≡ relogged n (placed n.snapshot_index e n.log)
  unfolding append_entry entry_at
  append_entry-logged e n = elim (Bool-cases (leb e.index n.snapshot_index)) [
    | inl h ↦ rw h refl
    | inr h ↦ rw h (place_entry-logged e _ n)
  ]

  -- The handlers' loop over the entries writes the log that the list operation gives.
  pub append_all-logged :
      (es : List (LogEntry A)) (n : RaftNode A M D)
      → logged (append_all es n) ≡ relogged n (placed_all n.snapshot_index es n.log)
  unfolding append_all
  append_all-logged [] n = refl
  append_all-logged (e ∷ es) n =
      append_all-logged es (append_entry e n)
      ∙ ap
          (λ (l : Logged A).
            let r : Logged A = record l { l_log = placed_all l.l_snapshot_index es l.l_log } in r)
          (append_entry-logged e n)

module _ {A : Type 0} where
  last-end :
      (d b : ℕ) (x : LogEntry A) (xs : List (LogEntry A))
      → Contiguous b (x ∷ xs)
      → index_or (last? (x ∷ xs)) d ≡ b + suc (length xs)
  last-end d b x [] c = omega (arith, c.0)
  last-end d b x (y ∷ ys) c = omega (arith, last-end d (suc b) y ys c.1)

  log-end :
      (b : ℕ) (xs : List (LogEntry A)) → Contiguous b xs → index_or (last? xs) b ≡ b + length xs
  log-end b [] c = omega arith
  log-end b (x ∷ xs) c = last-end b b x xs c

-- The invariant of a replica's log: it starts after the snapshot and has no hole.
abbrev pub NoHole : {A M D : Type 0} → RaftNode A M D → Type 0
NoHole n = Contiguous n.snapshot_index n.log

module _ {A M D : Type 0} where
  pub last_index-length :
      (n : RaftNode A M D) → NoHole n → last_index n ≡ n.snapshot_index + length n.log
  unfolding last_index
  last_index-length n c = log-end n.snapshot_index n.log c

  -- An index with a positive term is within the log or is the snapshot's.
  pub term_at-within :
      (n : RaftNode A M D) (i : ℕ) → 0 < term_at n i → i ≤ n.snapshot_index + length n.log
  unfolding term_at entry_at
  term_at-within n i h = elim (Option-cases (get_elem? n.log (i - n.snapshot_index - 1))) [
    | inl e ↦ ground (arith, e)
    | inr (x, e) ↦ let lt = get_elem?-lt n.log (i - n.snapshot_index - 1) e in omega arith
  ]

  -- An index past the snapshot has the term of the entry at its place.
  pub term_at-get :
      (n : RaftNode A M D) (i : ℕ) {x : LogEntry A}
      → n.snapshot_index < i
      → get_elem? n.log (i - n.snapshot_index - 1) ≡ some x
      → term_at n i ≡ x.term
  unfolding term_at entry_at
  term_at-get n i h e = ground (arith, e)
