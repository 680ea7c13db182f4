-- ===== src/Raft/Frame.antt =====
-- src/annex/cluster/raft.py: what the log's operations leave alone.
use python_pj.Prelude.{
  ℕ, zero, suc, ◌≡◌, refl, ◌∙◌, ap, inl, inr, Option, none, some, List, [], ◌∷◌, ◌++◌, String, ltb,
  leb, eqb, ◌+◌, ◌&&◌, Bool-cases,
}
use python_pj.Raft.Types.{Role, is_leader, Command, config, client, LogEntry, RaftNode}
use python_pj.Raft.Log.{
  quorum, replicated, apply_round, term_at, track, untrack, adopt_members, append_command,
  push_entry, place_entry, append_entry, append_all, apply_command, apply_loop, apply_committed,
  advance_loop, advance_commit,
}

-- The part of a node's state that elections read.
pub record Core : Type 0 where
  pub id : String
  pub role : Role
  pub term : ℕ
  pub voted_for : Option String
  pub votes : List String

module _ {A M D : Type 0} where
  abbrev pub core : RaftNode A M D → Core
  core n = record {
    id = n.id;
    role = n.role;
    term = n.current_term;
    voted_for = n.voted_for;
    votes = n.votes;
  }

  track-core : (last : ℕ) (ps : List String) (n : RaftNode A M D) → core (track last ps n) ≡ core n
  unfolding track
  track-core last [] n = refl
  track-core last (p ∷ ps) n = track-core last ps _

  untrack-core : (ps : List String) (n : RaftNode A M D) → core (untrack ps n) ≡ core n
  unfolding untrack
  untrack-core [] n = refl
  untrack-core (p ∷ ps) n = untrack-core ps _

  pub adopt_members-core :
      (ms : List String) (n : RaftNode A M D) → core (adopt_members ms n) ≡ core n
  unfolding adopt_members
  adopt_members-core ms n = elim (Bool-cases (is_leader n.role)) [
    | inl e ↦ rw e (untrack-core _ _ ∙ track-core _ _ _)
    | inr e ↦ rw e refl
  ]

  pub push_entry-core : (e : LogEntry A) (n : RaftNode A M D) → core (push_entry e n) ≡ core n
  unfolding push_entry
  push_entry-core e n = go e.command
    where
      go : (c : Command A) → core (append_command c (record n { log = n.log ++ e ∷ [] })) ≡ core n
      go (config ms) = adopt_members-core ms _
      go (client c) = refl

  place_entry-core :
      (e : LogEntry A) (x : Option (LogEntry A)) (n : RaftNode A M D)
      → core (place_entry e x n) ≡ core n
  unfolding place_entry
  place_entry-core e none n = push_entry-core e n
  place_entry-core e (some x) n = elim (Bool-cases (eqb x.term e.term)) [
    | inl h ↦ rw h refl
    | inr h ↦ rw h (push_entry-core e _)
  ]

  append_entry-core : (e : LogEntry A) (n : RaftNode A M D) → core (append_entry e n) ≡ core n
  unfolding append_entry
  append_entry-core e n = elim (Bool-cases (leb e.index n.snapshot_index)) [
    | inl h ↦ rw h refl
    | inr h ↦ rw h (place_entry-core e _ n)
  ]

  pub append_all-core :
      (es : List (LogEntry A)) (n : RaftNode A M D) → core (append_all es n) ≡ core n
  unfolding append_all
  append_all-core [] n = refl
  append_all-core (e ∷ es) n = append_all-core es _ ∙ append_entry-core e n

-- What applying and committing leave alone: all but the two indices and the machine.
pub record Stored (A : Type 0) : Type 0 where
  pub stored_core : Core
  pub stored_members : List String
  pub stored_log : List (LogEntry A)
  pub stored_snapshot_index : ℕ
  pub stored_snapshot_term : ℕ
  pub stored_commit : ℕ

module _ {A M D : Type 0} where
  abbrev pub stored : RaftNode A M D → Stored A
  stored n = record {
    stored_core = core n;
    stored_members = n.members;
    stored_log = n.log;
    stored_snapshot_index = n.snapshot_index;
    stored_snapshot_term = n.snapshot_term;
    stored_commit = n.commit_index;
  }

  pub apply_command-stored :
      (c : Command A) (n : RaftNode A M D) → stored (apply_command c n) ≡ stored n
  unfolding apply_command
  apply_command-stored (config ms) n = refl
  apply_command-stored (client c) n = refl

  apply_round-stored :
      (rest : RaftNode A M D → RaftNode A M D)
      → ((m : RaftNode A M D) → stored (rest m) ≡ stored m)
      → (x : Option (LogEntry A)) (n : RaftNode A M D) → stored (apply_round rest x n) ≡ stored n
  unfolding apply_round
  apply_round-stored rest h none n = refl
  apply_round-stored rest h (some e) n = h _ ∙ apply_command-stored e.command n

  apply_loop-stored : (fuel : ℕ) (n : RaftNode A M D) → stored (apply_loop fuel n) ≡ stored n
  unfolding apply_loop
  apply_loop-stored zero n = refl
  apply_loop-stored (suc fuel) n = elim (Bool-cases (ltb n.last_applied n.commit_index)) [
    | inl h ↦ rw h (apply_round-stored (apply_loop fuel) (apply_loop-stored fuel) _ _)
    | inr h ↦ rw h refl
  ]

  pub apply_committed-stored : (n : RaftNode A M D) → stored (apply_committed n) ≡ stored n
  unfolding apply_committed
  apply_committed-stored n = apply_loop-stored _ _

  advance_loop-core : (k : ℕ) (n : RaftNode A M D) → core (advance_loop k n) ≡ core n
  unfolding advance_loop
  advance_loop-core zero n = refl
  advance_loop-core (suc k) n =
      elim (Bool-cases (
        eqb (term_at n (suc (n.commit_index + k))) n.current_term
        && leb (quorum n) (replicated n (suc (n.commit_index + k))))) [
          | inl h ↦ rw h (ap (λ (s : Stored A). s.stored_core) (apply_committed-stored _))
          | inr h ↦ rw h (advance_loop-core k n)
        ]

  pub advance_commit-core : (n : RaftNode A M D) → core (advance_commit n) ≡ core n
  unfolding advance_commit
  advance_commit-core n = advance_loop-core _ n

  advance_loop-members : (k : ℕ) (n : RaftNode A M D) → (advance_loop k n).members ≡ n.members
  unfolding advance_loop
  advance_loop-members zero n = refl
  advance_loop-members (suc k) n =
      elim (Bool-cases (
        eqb (term_at n (suc (n.commit_index + k))) n.current_term
        && leb (quorum n) (replicated n (suc (n.commit_index + k))))) [
          | inl h ↦ rw h (ap (λ (s : Stored A). s.stored_members) (apply_committed-stored _))
          | inr h ↦ rw h (advance_loop-members k n)
        ]
