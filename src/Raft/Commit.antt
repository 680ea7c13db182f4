-- ===== src/Raft/Commit.antt =====
-- src/annex/cluster/raft.py: `_advance_commit` and `_apply_committed`.
use python_pj.Prelude.{
  ℕ, zero, suc, ◌+◌, ◌-◌, ◌≤◌, ◌<◌, max, ◌≡◌, refl, sym, ap, subst, ◌∙◌, inl, inr, ◌⊎◌, false, ◌&&◌,
  Option, List, [], ◌∷◌, ◌++◌, arith, leb, eqb, take, drop, get_elem?, Bool-cases, Option-cases,
  lt→ltb,
}
use native.Mathlib.Decide.{dec_le}
use mathlib.Core.List.{append_assoc, append-nil}
use python_pj.Raft.Types.{Command, config, client, LogEntry, RaftNode}
use python_pj.Raft.Log.{
  quorum, last_index, entry_at, term_at, replicated, call_apply, apply_command, apply_round,
  apply_loop, apply_committed, advance_loop, advance_commit,
}
use python_pj.Raft.Frame.{Stored, apply_committed-stored}
use python_pj.Raft.Index.{drop-none, drop-some}

abbrev commands_of : {A : Type 0} → Command A → List A → List A
commands_of (config members) rest = rest
commands_of (client c) rest = c ∷ rest

-- What the commit rule asks of an index: its entry is of the current term, and a quorum of the
-- members, the leader counted, has reported it.
abbrev pub MayCommit : {A M D : Type 0} → RaftNode A M D → ℕ → Type 0
MayCommit n i = (term_at n i ≡ n.current_term) × (quorum n ≤ replicated n i)

-- What may become of the commit index: it stays and no later index may be committed, or it
-- moves to the last index that may.
abbrev pub Advances : {A M D : Type 0} → RaftNode A M D → ℕ → ℕ → Type 0
Advances n last i =
    (n.commit_index ≤ i)
    × ((j : ℕ) → i < j → j ≤ last → ¬ MayCommit n j)
    × ((i ≡ n.commit_index) ⊎ ((i ≤ last) × MayCommit n i))

module _ {A M D : Type 0} where
  apply_committed-commit : (n : RaftNode A M D) → (apply_committed n).commit_index ≡ n.commit_index
  apply_committed-commit n = ap (λ (s : Stored A). s.stored_commit) (apply_committed-stored n)

  barred :
      (n : RaftNode A M D) (i : ℕ)
      → (eqb (term_at n i) n.current_term && leb (quorum n) (replicated n i)) ≡ false
      → ¬ MayCommit n i
  barred n i h q = ground (arith, h, q.0, q.1)

  advance_loop-Advances :
      (k : ℕ) (n : RaftNode A M D) → Advances n (n.commit_index + k) (advance_loop k n).commit_index
  unfolding advance_loop
  advance_loop-Advances zero n = (omega arith, (λ j lt le. absurd (omega arith)), inl refl)
  advance_loop-Advances (suc k) n =
      let i = suc (n.commit_index + k) in
      let ih = advance_loop-Advances k n in
      elim (Bool-cases (eqb (term_at n i) n.current_term && leb (quorum n) (replicated n i))) [
        | inl h ↦
            rw (h, apply_committed-commit (record n { commit_index = i }))
              (
                omega arith,
                (λ j lt le. absurd (omega arith)),
                inr (omega arith, (ground (arith, h), ground (arith, h))),
              )
        | inr h ↦ rw h (
          ih.0,
          (λ j lt le q. elim (dec_le j (n.commit_index + k)) [
            | yes low ↦ ih.1 j lt low q
            | no top ↦ barred n i h (subst (MayCommit n) (let e : j ≡ i = omega arith in e) q)
          ]),
          ground (arith, ih.2),
        )
      ]

  -- If the commit index is not past the log, _advance_commit does not lower it, no later index of
  -- the log has the current term and a quorum, and the new commit index is the old one or an index
  -- of the log that has both.
  pub advance_commit-Advances :
      (n : RaftNode A M D)
      → n.commit_index ≤ last_index n
      → Advances n (last_index n) (advance_commit n).commit_index
  unfolding advance_commit
  advance_commit-Advances n h =
      subst (λ (last : ℕ). Advances n last (advance_commit n).commit_index)
        (let e : n.commit_index + (last_index n - n.commit_index) ≡ last_index n = omega arith in e)
        (advance_loop-Advances (last_index n - n.commit_index) n)

-- the client commands of some log entries, oldest first
abbrev pub client_commands : {A : Type 0} → List (LogEntry A) → List A
client_commands [] = []
client_commands (e ∷ es) = commands_of e.command (client_commands es)

-- the state machine after some commands
abbrev pub run_all : {A M : Type 0} → Option (A → M → M) → List A → M → M
run_all f [] m = m
run_all f (c ∷ cs) m = run_all f cs (call_apply f c m)

module _ {A M D : Type 0} where
  -- the entries that a node has committed and not applied
  abbrev pub pending : RaftNode A M D → List (LogEntry A)
  pending n =
      let applied = max n.last_applied n.snapshot_index in
      take (n.commit_index - applied) (drop (applied - n.snapshot_index) n.log)

  -- What the node has after applying some commands.
  abbrev Applied : RaftNode A M D → List A → RaftNode A M D → Type 0
  Applied n cs m =
      (m.applied_commands ≡ n.applied_commands ++ cs)
      × (m.machine ≡ run_all n.apply_fn cs n.machine)

  abbrev next_commands : ℕ → RaftNode A M D → List A
  next_commands k n = client_commands (take k (drop (n.last_applied - n.snapshot_index) n.log))

  -- What applies the next `k` entries.
  abbrev AppliesNext : ℕ → (RaftNode A M D → RaftNode A M D) → Type 0
  AppliesNext k loop =
      (n : RaftNode A M D)
      → n.snapshot_index ≤ n.last_applied
      → n.last_applied + k ≡ n.commit_index
      → Applied n (next_commands k n) (loop n)

  entry_at-next :
      (n : RaftNode A M D)
      → n.snapshot_index ≤ n.last_applied
      → entry_at n (suc n.last_applied) ≡ get_elem? n.log (n.last_applied - n.snapshot_index)
  unfolding entry_at
  entry_at-next n h =
      let past : leb (suc n.last_applied) n.snapshot_index ≡ false = ground arith in
      rw past (
        ap (get_elem? n.log) (
          let e : suc n.last_applied - n.snapshot_index - 1 ≡ n.last_applied - n.snapshot_index =
            omega arith in
          e))

  -- one entry and those after it
  apply_one :
      (k : ℕ) (loop : RaftNode A M D → RaftNode A M D)
      → AppliesNext k loop
      → (n : RaftNode A M D) (c : Command A) → n.snapshot_index ≤ n.last_applied
      → n.last_applied + suc k ≡ n.commit_index
      → Applied n
          (commands_of c
            (client_commands (take k (drop (suc n.last_applied - n.snapshot_index) n.log))))
          (loop (apply_command c (record n { last_applied = suc n.last_applied })))
  unfolding apply_command
  apply_one k loop later n (config ms) h e =
      later (record n { last_applied = suc n.last_applied }) (omega arith) (omega arith)
  apply_one k loop later n (client c) h e =
      let ih =
        later
          (record n {
            last_applied = suc n.last_applied;
            applied_commands = n.applied_commands ++ c ∷ [];
            machine = call_apply n.apply_fn c n.machine;
          })
          (omega arith) (omega arith) in
      (ih.0 ∙ append_assoc n.applied_commands (c ∷ []) _, ih.1)

  apply_round-Applied :
      (k : ℕ) (loop : RaftNode A M D → RaftNode A M D)
      → AppliesNext k loop
      → (n : RaftNode A M D) → n.snapshot_index ≤ n.last_applied
      → n.last_applied + suc k ≡ n.commit_index
      → Applied n (next_commands (suc k) n) (
          apply_round loop
            (get_elem? n.log (n.last_applied - n.snapshot_index))
            (record n { last_applied = suc n.last_applied }))
  unfolding apply_round
  apply_round-Applied k loop later n h e =
      let at = n.last_applied - n.snapshot_index in
      elim (Option-cases (get_elem? n.log at)) [
        | inl m ↦ rw (m, drop-none at n.log m) (sym (append-nil n.applied_commands), refl)
        | inr (x, m) ↦
            rw (m, drop-some at n.log m)
              (subst
                (λ (i : ℕ).
                  Applied n (commands_of x.command (client_commands (take k (drop i n.log)))) (
                    loop
                      (apply_command x.command (record n { last_applied = suc n.last_applied }))))
                (let e' : suc n.last_applied - n.snapshot_index ≡ suc at = omega arith in e')
                (apply_one k loop later n x.command h e))
      ]

  apply_loop-Applied : (k : ℕ) → AppliesNext k (apply_loop k)
  unfolding apply_loop
  apply_loop-Applied zero n h e = (sym (append-nil n.applied_commands), refl)
  apply_loop-Applied (suc k) n h e =
      rw (lt→ltb n.last_applied n.commit_index (omega arith), entry_at-next n h)
        (apply_round-Applied k (apply_loop k) (apply_loop-Applied k) n h e)

  -- If the commit index is not behind what is applied, _apply_committed records the client commands
  -- of the committed entries that were not applied, in log order, leaves out the configurations, and
  -- runs those commands in that order on the state machine.
  pub apply_committed-Applied :
      (n : RaftNode A M D)
      → max n.last_applied n.snapshot_index ≤ n.commit_index
      → ((apply_committed n).applied_commands ≡ n.applied_commands ++ client_commands (pending n))
        × ((apply_committed n).machine ≡ run_all n.apply_fn (client_commands (pending n)) n.machine)
  unfolding apply_committed
  apply_committed-Applied n h =
      apply_loop-Applied (n.commit_index - max n.last_applied n.snapshot_index)
        (record n { last_applied = max n.last_applied n.snapshot_index }) (omega arith)
        (omega arith)
