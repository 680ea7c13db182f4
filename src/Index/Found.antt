-- ===== src/Index/Found.antt =====
-- src/annex/index/hnsw.py: what `_search_layer` finds.
use python_pj.Prelude.{
  ℕ, zero, suc, ◌+◌, ◌-◌, ◌≤◌, ◌≡◌, refl, ◌⊎◌, inl, inr, Bool, true, not, List, [], ◌∷◌, ◌++◌,
  Bool-cases, arith, length, length-drop, drop, eqb, ltb, nat_eq, contains, All,
}
use python_pj.Prelude.Dict.{get}
use python_pj.Prelude.Members.{In, Distinct, Within, contains_iff, In-append_left, In-append_right}
use python_pj.Index.Heap.{push, sort, nearer, farther}
use python_pj.Index.Beam.{
  Layer, links_of, Frontier, no_better, beyond, keep_result, consider, expand, fresh_of, walk,
  accepted, start_results, search_layer, link_count,
}
use python_pj.Index.Sorted.{
  length-push, All-push, All-drop, In-keep, Distinct-keep, nodes, In-push, Distinct-push, In-drop,
  Distinct-drop,
}

-- No list of the layer has a key twice.
abbrev pub Simple : Layer → Type 0
Simple layer = All (λ entry. Distinct entry.1) layer

links_of-Distinct : (layer : Layer) (node : ℕ) → Simple layer → Distinct (links_of layer node)
unfolding get
links_of-Distinct [] node s = tt
links_of-Distinct ((k, nbs) ∷ layer) node s = elim (Bool-cases (eqb k node)) [
  | inl y ↦ rw y s.0
  | inr y ↦ rw y (links_of-Distinct layer node s.1)
]

unseen_not_in : (n : ℕ) (visited : List ℕ) → not (contains n visited) ≡ true → ¬ In n visited
unseen_not_in n visited h = λ i. let c = (contains_iff n visited).1 i in absurd (cc)

module _ {R : Type 0} (less : R → R → Bool) (dist : ℕ → R) (accept : ℕ → Bool) (ef : ℕ) where
  -- No more than `ef` results, no key twice, each with its own distance, and each acceptable.
  pub record AreFound (results : List (R × ℕ)) : Type 0 where
    pub at_most : length results ≤ ef
    pub once : Distinct (nodes results)
    pub measured : All (λ x. x.0 ≡ dist x.1) results
    pub acceptable : All (λ x. accept x.1 ≡ true) results

  keep_result-AreFound :
      (k : ℕ) (results : List (R × ℕ))
      → accept k ≡ true
      → (¬ In k (nodes results))
      → AreFound results
      → AreFound (keep_result less dist accept ef (dist k, k) results)
  unfolding keep_result
  keep_result-AreFound k results a new f =
      let grown : List (R × ℕ) = push (farther less) (dist k, k) results in
      let size : length grown ≡ suc (length results) =
        length-push (farther less) (dist k, k) results in
      let once : Distinct (nodes grown) =
        Distinct-push (farther less) (dist k, k) results new f.once in
      let measured =
        All-push (farther less) (λ x. x.0 ≡ dist x.1) (dist k, k) results refl f.measured in
      let good =
        All-push (farther less) (λ x. accept x.1 ≡ true) (dist k, k) results a f.acceptable in
      elim (Bool-cases (ltb ef (length grown))) [
        | inl y ↦ rw y (record {
          at_most = omega (arith, f.at_most, size, length-drop 1 grown);
          once = Distinct-drop 1 grown once;
          measured = All-drop (λ x. x.0 ≡ dist x.1) 1 grown measured;
          acceptable = All-drop (λ x. accept x.1 ≡ true) 1 grown good;
        })
        | inr y ↦ rw y (record {
          at_most = ground (arith, y);
          once = once;
          measured = measured;
          acceptable = good;
        })
      ]

  In-keep_result :
      (j k : ℕ) (results : List (R × ℕ))
      → In j (nodes (keep_result less dist accept ef (dist k, k) results))
      → (j ≡ k) ⊎ In j (nodes results)
  unfolding keep_result
  In-keep_result j k results i =
      let grown : List (R × ℕ) = push (farther less) (dist k, k) results in
      elim (Bool-cases (ltb ef (length grown))) [
        | inl y ↦ In-push (farther less) j (dist k, k) results (In-drop 1 j grown (rw y at i))
        | inr y ↦ In-push (farther less) j (dist k, k) results (rw y at i)
      ]

  consider-AreFound :
      (k : ℕ) (f : Frontier R)
      → (¬ In k (nodes f.results))
      → AreFound f.results
      → AreFound (consider less dist accept ef k f).results
  unfolding consider
  consider-AreFound k f new found =
      elim (Bool-cases (no_better less dist accept ef (dist k) f.results)) [
        | inl y ↦ rw y found
        | inr y ↦ elim (Bool-cases (accept k)) [
          | inl a ↦ rw (y, a) (keep_result-AreFound k f.results a new found)
          | inr a ↦ rw (y, a) found
        ]
      ]

  In-consider :
      (j k : ℕ) (f : Frontier R)
      → In j (nodes (consider less dist accept ef k f).results)
      → (j ≡ k) ⊎ In j (nodes f.results)
  unfolding consider
  In-consider j k f i = elim (Bool-cases (no_better less dist accept ef (dist k) f.results)) [
    | inl y ↦ inr (rw y at i)
    | inr y ↦ elim (Bool-cases (accept k)) [
      | inl a ↦ In-keep_result j k f.results (rw (y, a) at i)
      | inr a ↦ inr (rw (y, a) at i)
    ]
  ]

  expand-AreFound :
      (ks : List ℕ) (f : Frontier R)
      → Distinct ks
      → ((j : ℕ) → In j ks → ¬ In j (nodes f.results))
      → AreFound f.results
      → AreFound (expand less dist accept ef ks f).results
  unfolding expand
  expand-AreFound [] f d new found = found
  expand-AreFound (k ∷ ks) f d new found =
      expand-AreFound ks (consider less dist accept ef k f) d.1
        (λ j i l. elim (In-consider j k f l) [
          | inl e ↦ d.0 (rw (← e) i)
          | inr old ↦ new j (inr i) old
        ])
        (consider-AreFound k f (new k (inl refl)) found)

  In-expand :
      (j : ℕ) (ks : List ℕ) (f : Frontier R)
      → In j (nodes (expand less dist accept ef ks f).results)
      → In j ks ⊎ In j (nodes f.results)
  unfolding expand
  In-expand j [] f i = inr i
  In-expand j (k ∷ ks) f i = elim (In-expand j ks (consider less dist accept ef k f) i) [
    | inl l ↦ inl (inr l)
    | inr l ↦ elim (In-consider j k f l) [ inl e ↦ inl (inl e) | inr old ↦ inr old ]
  ]

  walk-AreFound :
      (layer : Layer) (n : ℕ) (visited : List ℕ) (cs rs : List (R × ℕ))
      → Simple layer
      → Within (nodes rs) visited
      → AreFound rs
      → AreFound (walk less dist accept ef layer n visited cs rs)
  unfolding walk
  walk-AreFound layer zero visited cs rs s w found = found
  walk-AreFound layer (suc n) visited [] rs s w found = found
  walk-AreFound layer (suc n) visited (c ∷ cs) rs s w found =
      elim (Bool-cases (beyond less dist accept ef c.0 rs)) [
        | inl y ↦ rw y found
        | inr y ↦
            let fresh : List ℕ = fresh_of layer c.1 visited in
            let start : Frontier R = record { candidates = cs; results = rs } in
            let f : Frontier R = expand less dist accept ef fresh start in
            let seen : Within (nodes f.results) (fresh ++ visited) = λ j i.
              elim (In-expand j fresh start i) [
                | inl l ↦ In-append_left j fresh visited l
                | inr old ↦ In-append_right j fresh visited (w j old)
              ] in
            rw y (
              walk-AreFound layer n (fresh ++ visited) f.candidates f.results s seen (
                expand-AreFound fresh start
                  (Distinct-keep (λ j. not (contains j visited)) (links_of layer c.1)
                    (links_of-Distinct layer c.1 s))
                  (λ j i old.
                    unseen_not_in j visited
                      (In-keep (λ m. not (contains m visited)) j (links_of layer c.1) i).1
                      (w j old))
                  found))
      ]

  accepted-AreFound :
      (entries : List (R × ℕ))
      → Distinct (nodes entries)
      → All (λ x. x.0 ≡ dist x.1) entries
      → Distinct (nodes (accepted less dist accept ef entries))
        × Within (nodes (accepted less dist accept ef entries)) (nodes entries)
        × All (λ x. x.0 ≡ dist x.1) (accepted less dist accept ef entries)
        × All (λ x. accept x.1 ≡ true) (accepted less dist accept ef entries)
  unfolding accepted
  accepted-AreFound [] d m = (tt, (λ a i. i), tt, tt)
  accepted-AreFound (x ∷ xs) d m =
      let (once, inside, measured, good) = accepted-AreFound xs d.1 m.1 in
      let rest : List (R × ℕ) = accepted less dist accept ef xs in
      elim (Bool-cases (accept x.1)) [
        | inl a ↦ rw a (
          Distinct-push (farther less) x rest (λ i. d.0 (inside x.1 i)) once,
          (λ j i. elim (In-push (farther less) j x rest i) [
            | inl e ↦ inl e
            | inr l ↦ inr (inside j l)
          ]),
          All-push (farther less) (λ y. y.0 ≡ dist y.1) x rest m.0 measured,
          All-push (farther less) (λ y. accept y.1 ≡ true) x rest a good,
        )
        | inr a ↦ rw a (once, (λ j i. inr (inside j i)), measured, good)
      ]

  -- On a layer whose lists have no key twice, from entry points without repetition, each with its own
  -- distance, a search finds no more than `ef` keys, none of them twice, each with its own distance, and
  -- only acceptable ones.
  pub search_layer-AreFound :
      (layer : Layer) (entries : List (R × ℕ))
      → Simple layer
      → Distinct (nodes entries)
      → All (λ x. x.0 ≡ dist x.1) entries
      → AreFound (search_layer less dist accept ef layer entries)
  unfolding search_layer start_results
  search_layer-AreFound layer entries s d m =
      let (once, inside, measured, good) = accepted-AreFound entries d m in
      let all : List (R × ℕ) = accepted less dist accept ef entries in
      let extra : ℕ = length all - ef in
      walk-AreFound layer (length entries + link_count layer) (nodes entries)
        (sort (nearer less) entries) (drop extra all) s (λ j i. inside j (In-drop extra j all i))
        (record {
          at_most = omega (arith, length-drop extra all);
          once = Distinct-drop extra all once;
          measured = All-drop (λ x. x.0 ≡ dist x.1) extra all measured;
          acceptable = All-drop (λ x. accept x.1 ≡ true) extra all good;
        })
