-- ===== src/Raft/Grows.antt =====
-- src/annex/cluster/raft.py: the handlers that write the log.
use python_pj.Prelude.{
  ℕ, ◌+◌, ◌≤◌, ◌≡◌, ◌≢◌, refl, sym, ap, subst, ◌∙◌, inl, inr, ◌⊎◌, false, not, ◌||◌, [], ◌∷◌, ◌++◌,
  arith, String, string_eq, ltb, Bool-cases,
}
use python_pj.Raft.Types.{
  Role, follower, candidate, leader, is_leader, is_follower, Command, LogEntry, AppendEntries,
  RaftNode,
}
use python_pj.Raft.Log.{peers, last_index, push_entry, append_all}
use python_pj.Raft.Calls.{is_nil, become_follower, propose}
use python_pj.Raft.Handlers.{follow, conflicts, on_append}
use python_pj.Raft.Frame.{
  Core, core, Stored, apply_committed-stored, append_all-core, push_entry-core,
}
use python_pj.Raft.Index.{placed_all}
use python_pj.Raft.Refine.{Logged, push_entry-logged}
use python_pj.Raft.Replication.{followed, grown, grown-log, Accepts}
use python_pj.Raft.Plain.{follow_commit-core}
use python_pj.Raft.Moves.{Move, Stays, is_leader-leader, not_leader}
use python_pj.Raft.Calm.{apply_committed-kept}
use python_pj.Raft.Yields.{follow-Calm}

is_follower-follower : (r : Role) → not (is_follower r) ≡ false → r ≡ follower
is_follower-follower follower h = refl
is_follower-follower candidate h = cc
is_follower-follower leader h = cc

module _ {A M D : Type 0} where
  follow-follower :
      (t : ℕ) (l : String) (now : ℕ) (n : RaftNode A M D) → (follow t l now n).role ≡ follower
  unfolding follow become_follower
  follow-follower t l now n = elim (Bool-cases (ltb n.current_term t || not (is_follower n.role))) [
    | inl d ↦ rw d refl
    | inr s ↦ rw s (is_follower-follower n.role (ground (arith, s)))
  ]

module _ {A M D : Type 0} (src : String) (ae : AppendEntries A) (now : ℕ) (n : RaftNode A M D) where
  -- What an AppendEntries does to the log, unless it is rejected.
  abbrev pub Appends : RaftNode A M D → Type 0
  Appends n' =
      (n'.snapshot_index ≡ n.snapshot_index)
      × ((n'.log ≡ n.log)
          ⊎ (Accepts src ae now n
              × (n'.role ≡ follower)
              × (n'.log ≡ placed_all n.snapshot_index ae.entries n.log)))

  pub on_append-Move :
      src ≢ n.id
      → (n.role ≡ leader → ae.term ≢ n.current_term)
      → Move n (on_append src ae now n)
        × Stays n (on_append src ae now n).0
        × Appends (on_append src ae now n).0
  unfolding on_append
  on_append-Move other lone = elim (Bool-cases (ltb ae.term n.current_term)) [
    | inl old ↦ rw old (
      record {
        up = omega arith;
        crowned = λ m. inl (m, refl);
        positive = λ p. p;
        sends = ((refl, other, refl), tt);
      },
      (λ m e. m),
      (refl, inl refl),
    )
    | inr new ↦
        let (calm, named) = follow-Calm ae.term ae.leader_id now n new lone in
        let f = followed src ae now n in
        rw new (elim (Bool-cases (conflicts ae f)) [
          | inl bad ↦ rw bad (
            record {
              up = calm.move.up;
              crowned = calm.move.crowned;
              positive = calm.move.positive;
              sends = ((refl, (λ e. other (e ∙ named)), refl), tt);
            },
            calm.stays,
            (calm.keeps.1, inl calm.keeps.0),
          )
          | inr good ↦
              let g = grown src ae now n in
              let same : core g ≡ core f =
                follow_commit-core ae.leader_commit (append_all ae.entries f)
                ∙ append_all-core ae.entries f in
              let term : g.current_term ≡ f.current_term = ap (λ (c : Core). c.term) same in
              let role : g.role ≡ f.role = ap (λ (c : Core). c.role) same in
              let name : g.id ≡ n.id = ap (λ (c : Core). c.id) same ∙ named in
              let log = grown-log src ae now n in
              rw good (
                record {
                  up = subst (λ t. n.current_term ≤ t) (sym term) calm.move.up;
                  crowned = rw (term, role) calm.move.crowned;
                  positive = rw (term, role) calm.move.positive;
                  sends = ((refl, (λ e. other (e ∙ name)), refl), tt);
                },
                rw (term, role) calm.stays,
                (
                  ap (λ p. p.0) log,
                  inr (
                    (refl, refl),
                    role ∙ follow-follower ae.term ae.leader_id now n,
                    ap (λ p. p.1) log,
                  ),
                ),
              )
        ])
  ]

module _ {A M D : Type 0} (c : Command A) (n : RaftNode A M D) where
  abbrev pub proposed : LogEntry A
  proposed = record { term = n.current_term; index = last_index n + 1; command = c }

  -- A command is appended by a leader, and by no one else.
  pub propose-Move :
      ((n.role ≢ leader) × ((propose c n).0 ≡ n))
      ⊎ ((n.role ≡ leader)
          × (core (propose c n).0 ≡ core n)
          × ((propose c n).0.snapshot_index ≡ n.snapshot_index)
          × ((propose c n).0.log ≡ n.log ++ proposed ∷ []))
  unfolding propose
  propose-Move =
      let n1 = push_entry proposed n in
      let logs = push_entry-logged proposed n in
      elim (Bool-cases (is_leader n.role)) [
        | inr l ↦ rw l (inl (not_leader n.role l, refl))
        | inl l ↦ rw l (elim (Bool-cases (is_nil (peers n1))) [
          | inr p ↦ rw p (
              inr (
                is_leader-leader n.role l,
                push_entry-core proposed n,
                ap (λ (x : Logged A). x.l_snapshot_index) logs,
                ap (λ (x : Logged A). x.l_log) logs,
              ))
          | inl p ↦
              let n2 = record n1 { commit_index = last_index n + 1 } in
              let k = apply_committed-kept n2 in
              rw p (
                inr (
                  is_leader-leader n.role l,
                  ap (λ (s : Stored A). s.stored_core) (apply_committed-stored n2)
                      ∙ push_entry-core proposed n,
                  ap (λ p. p.1) k ∙ ap (λ (x : Logged A). x.l_snapshot_index) logs,
                  ap (λ p. p.0) k ∙ ap (λ (x : Logged A). x.l_log) logs,
                ))
        ])
      ]
