-- ===== src/Raft/Log.antt =====
-- src/annex/cluster/raft.py: membership, the log by absolute index, appending, applying, committing
-- and compacting.
use python_pj.Prelude.{
  ℕ, zero, suc, ◌+◌, ◌-◌, ◌/◌, min, max, String, not, ◌&&◌, Option, none, some, List, [], ◌∷◌, ◌++◌,
  ltb, leb, eqb, if◌then◌else◌, ◌==◌, string_eq, contains, str_ltb, length, get_elem?, take, drop,
  keep, count_if, last?,
}
use python_pj.Prelude.Dict.{remove, set_default, keys, values}
use python_pj.Raft.Types.{is_leader, Command, config, client, LogEntry, RaftNode}

-- `sorted(set(xs))`
unfoldable pub insert_sorted : String → List String → List String
insert_sorted x [] = x ∷ []
insert_sorted x (y ∷ ys) =
    let rest = insert_sorted x ys in if str_ltb x y then x ∷ y ∷ ys else y ∷ rest

unfoldable pub sorted_set : List String → List String
unfolding insert_sorted contains
sorted_set [] = []
sorted_set (x ∷ xs) = if contains x xs then sorted_set xs else insert_sorted x (sorted_set xs)

-- `sorted(xs)`
unfoldable pub sorted : List String → List String
unfolding insert_sorted
sorted [] = []
sorted (x ∷ xs) = insert_sorted x (sorted xs)

-- `config_command(members)`
unfoldable pub config_command : {A : Type 0} → List String → Command A
unfolding sorted
config_command members = config (sorted members)

abbrev pub index_or : {A : Type 0} → Option (LogEntry A) → ℕ → ℕ
index_or none d = d
index_or (some e) d = e.index

abbrev pub term_or : {A : Type 0} → Option (LogEntry A) → ℕ → ℕ
term_or none d = d
term_or (some e) d = e.term

abbrev pub call_apply : {A M : Type 0} → Option (A → M → M) → A → M → M
call_apply none c m = m
call_apply (some f) c m = f c m

abbrev call_snapshot : {M D : Type 0} → Option (M → D) → M → Option D
call_snapshot none m = none
call_snapshot (some f) m = some (f m)

abbrev pub min_or : Option ℕ → ℕ → ℕ
min_or none m = min m m
min_or (some k) m = min k m

module _ {A M D : Type 0} where
  unfoldable pub peers : RaftNode A M D → List String
  peers n = keep (λ m. not (m == n.id)) n.members

  unfoldable pub quorum : RaftNode A M D → ℕ
  quorum n = length n.members / 2 + 1

  unfoldable pub last_index : RaftNode A M D → ℕ
  last_index n = index_or (last? n.log) n.snapshot_index

  unfoldable pub last_term : RaftNode A M D → ℕ
  last_term n = term_or (last? n.log) n.snapshot_term

  -- `pos = index - snapshot_index - 1` is negative exactly when `index <= snapshot_index`.
  unfoldable pub entry_at : RaftNode A M D → ℕ → Option (LogEntry A)
  entry_at n index =
      if leb index n.snapshot_index then none else get_elem? n.log (index - n.snapshot_index - 1)

  unfoldable pub term_at : RaftNode A M D → ℕ → ℕ
  term_at n index =
      if eqb index n.snapshot_index then n.snapshot_term else term_or (entry_at n index) 0

  -- the two loops of `_adopt_members` over a leader's progress tables
  unfoldable pub track : ℕ → List String → RaftNode A M D → RaftNode A M D
  track last [] n = n
  track last (p ∷ ps) n = track last ps (record n {
    next_index = set_default n.next_index p (last + 1);
    match_index = set_default n.match_index p 0;
  })

  unfoldable pub untrack : List String → RaftNode A M D → RaftNode A M D
  untrack [] n = n
  untrack (p ∷ ps) n =
      untrack ps
        (record n { next_index = remove n.next_index p; match_index = remove n.match_index p })

  unfoldable pub adopt_members : List String → RaftNode A M D → RaftNode A M D
  adopt_members members n =
      let n1 = record n {
        members =
            if contains n.id members then sorted_set (members ++ n.id ∷ []) else sorted_set members;
      } in
      if is_leader n.role
      then (let n2 = track (last_index n1) (peers n1) n1 in
          untrack (keep (λ p. not (contains p n2.members)) (keys n2.next_index)) n2)
      else n1

  -- `self.log.append(entry)`, and the membership of a configuration entry takes effect
  unfoldable pub append_command : Command A → RaftNode A M D → RaftNode A M D
  append_command (config members) n = adopt_members members n
  append_command (client c) n = n

  unfoldable pub push_entry : LogEntry A → RaftNode A M D → RaftNode A M D
  unfolding append_command
  push_entry e n = append_command e.command (record n { log = n.log ++ e ∷ [] })

  -- the body of the loop of `_on_append` past its first test, by what stands at the entry's index
  unfoldable pub place_entry : LogEntry A → Option (LogEntry A) → RaftNode A M D → RaftNode A M D
  unfolding push_entry
  place_entry e none n = push_entry e n
  place_entry e (some existing) n =
      if eqb existing.term e.term
      then n
      else push_entry e (record n { log = take (e.index - n.snapshot_index - 1) n.log })

  unfoldable pub append_entry : LogEntry A → RaftNode A M D → RaftNode A M D
  unfolding place_entry
  append_entry e n =
      if leb e.index n.snapshot_index then n else place_entry e (entry_at n e.index) n

  unfoldable pub append_all : List (LogEntry A) → RaftNode A M D → RaftNode A M D
  unfolding append_entry
  append_all [] n = n
  append_all (e ∷ es) n = append_all es (append_entry e n)

  -- what `_apply_committed` does with one command
  unfoldable pub apply_command : Command A → RaftNode A M D → RaftNode A M D
  apply_command (config members) n = n
  apply_command (client c) n = record n {
    applied_commands = n.applied_commands ++ c ∷ [];
    machine = call_apply n.apply_fn c n.machine;
  }

  -- a round of the loop of `_apply_committed` with the entry found, and the rounds after it
  unfoldable pub apply_round :
      (RaftNode A M D → RaftNode A M D) → Option (LogEntry A) → RaftNode A M D → RaftNode A M D
  apply_round rest none n = n
  apply_round rest (some e) n = rest (apply_command e.command n)

  -- Each round raises `last_applied`, so `commit_index` bounds them.
  unfoldable pub apply_loop : ℕ → RaftNode A M D → RaftNode A M D
  apply_loop zero n = n
  apply_loop (suc fuel) n =
      if ltb n.last_applied n.commit_index
      then apply_round (apply_loop fuel) (entry_at n (suc n.last_applied))
          (record n { last_applied = suc n.last_applied })
      else n

  unfoldable pub apply_committed : RaftNode A M D → RaftNode A M D
  unfolding apply_loop
  apply_committed n =
      apply_loop (n.commit_index - max n.last_applied n.snapshot_index)
        (record n { last_applied = max n.last_applied n.snapshot_index })

  -- `1 + sum(1 for m in self.match_index.values() if m >= index)`
  unfoldable pub replicated : RaftNode A M D → ℕ → ℕ
  replicated n index = 1 + count_if (λ m. leb index m) (values n.match_index)

  -- `for index in range(last_index, commit_index, -1)`, with the rounds that are left
  unfoldable pub advance_loop : ℕ → RaftNode A M D → RaftNode A M D
  advance_loop zero n = n
  advance_loop (suc rounds) n =
      let index = suc (n.commit_index + rounds) in
      let rest = advance_loop rounds n in
      if eqb (term_at n index) n.current_term && leb (quorum n) (replicated n index)
      then apply_committed (record n { commit_index = index })
      else rest

  unfoldable pub advance_commit : RaftNode A M D → RaftNode A M D
  unfolding advance_loop
  advance_commit n = advance_loop (last_index n - n.commit_index) n

  unfoldable pub compact : Option ℕ → RaftNode A M D → RaftNode A M D × ℕ
  unfolding term_at entry_at
  compact up_to n =
      let target = min_or up_to n.last_applied in
      if leb target n.snapshot_index then (n, 0) else (
        record n {
          log = drop (target - n.snapshot_index) n.log;
          snapshot_index = target;
          snapshot_term = term_at n target;
          snapshot_data = call_snapshot n.snapshot_fn n.machine;
        },
        target - n.snapshot_index,
      )

  -- `while conflict > 1 and self.term_at(conflict - 1) == bad_term: conflict -= 1`
  unfoldable pub back_off : RaftNode A M D → ℕ → ℕ → ℕ
  back_off n bad zero = zero
  back_off n bad (suc c) =
      let rest = back_off n bad c in if ltb 0 c && eqb (term_at n c) bad then rest else suc c
