-- ===== src/Tests/Simulator.antt =====
-- src/annex/cluster/simulator.py: three nodes that were just started.
use python_pj.Prelude.{
  ℕ, ◌≡◌, sym, ap, ◌∙◌, inl, inr, String, true, some, [], ◌∷◌, arith, string_eq, ◌==◌, text_eq_iff,
  eqb, Bool-cases,
}
use python_pj.Prelude.Dict.{get}
use python_pj.Prelude.Members.{In}
use python_pj.Raft.Types.{RaftNode}
use python_pj.Raft.Cluster.{System}
use python_pj.Simulator.{ClusterSimulator, run_steps}
use python_pj.Simulator.Refines.{Represents, Runs, run_steps-Represents}
use python_pj.Tests.Raft.{base, booted, three}

abbrev named : String → RaftNode ℕ ℕ ℕ
named i = record base { id = i }

abbrev trio : ClusterSimulator ℕ ℕ ℕ
trio = record {
  nodes = ("a", named "a") ∷ ("b", named "b") ∷ ("c", named "c") ∷ [];
  time = 0;
  latency_low = 1;
  latency_high = 5;
  drops = λ k. eqb k 3;
  randint = λ k low high. low;
  calls = 0;
  queue = [];
  seq = 0;
  partitions = [];
  delivered = 0;
  dropped = 0;
}

chosen :
    (i id : String) (n : RaftNode ℕ ℕ ℕ)
    → (i == id) ≡ true
    → named i ≡ n
    → (named id ≡ n) × (id ≡ i)
chosen i id n y e =
    let same : i ≡ id = (text_eq_iff i id).0 y in (ap named (sym same) ∙ e, sym same)

trio-nodes :
    (id : String) (n : RaftNode ℕ ℕ ℕ) → get trio.nodes id ≡ some n → (named id ≡ n) × In id three
unfolding get
trio-nodes id n e = elim (Bool-cases ("a" == id)) [
  | inl y ↦ let r = chosen "a" id n y (ground (arith, y, e)) in (r.0, inl r.1)
  | inr y ↦ elim (Bool-cases ("b" == id)) [
    | inl z ↦ let r = chosen "b" id n z (ground (arith, y, z, e)) in (r.0, inr (inl r.1))
    | inr z ↦ elim (Bool-cases ("c" == id)) [
      | inl w ↦ let r = chosen "c" id n w (ground (arith, y, z, w, e)) in (r.0, inr (inr (inl r.1)))
      | inr w ↦ ground (arith, y, z, w, e)
    ]
  ]
]

run_steps-Represents_example :
    (u : System ℕ ℕ ℕ) × Runs three booted u × Represents three (run_steps 400 1 trio) u
run_steps-Represents_example =
    run_steps-Represents three 400 1 trio booted (record { same = trio-nodes; carried = tt })
