-- ===== src/Index/Reach.antt =====
-- src/annex/index/hnsw.py: a search of a layer with a wide beam misses no node that it can reach.
use python_pj.Prelude.{
  ℕ, zero, suc, ◌+◌, ◌-◌, ◌≤◌, ◌<◌, ◌≡◌, refl, ap, ◌⊎◌, inl, inr, Bool, true, false, not, List, [],
  ◌∷◌, ◌++◌, Bool-cases, arith, length, ltb, leb, nat_eq, contains,
}
use python_pj.Prelude.Members.{In, contains_iff, In-append, In-append_left, In-append_right}
use python_pj.Index.Heap.{push, sort, nearer, farther}
use python_pj.Index.Beam.{
  Layer, links_of, link_count, Frontier, no_better, beyond, keep_result, consider, expand, fresh_of,
  walk, accepted, start_results, search_layer,
}
use python_pj.Index.Rounds.{unseen, unseen-fresh, unseen-link_count, expand-candidates}
use python_pj.Index.Sorted.{
  length-push, length-sort, nodes, keep-In, In-push_new, In-push_old, In-sort_all,
}

-- There is a path of links from a node to another.
pub data Linked (layer : Layer) (from : ℕ) : ℕ → Type 0 where
  itself : Linked layer from from
  onward : {j n : ℕ} → Linked layer from j → In n (links_of layer j) → Linked layer from n

module _ {R : Type 0} (less : R → R → Bool) (dist : ℕ → R) (accept : ℕ → Bool) (ef : ℕ) where
  room-beyond :
      (d : R) (rs : List (R × ℕ)) → length rs < ef → beyond less dist accept ef d rs ≡ false
  room-beyond d [] h = refl
  room-beyond d (w ∷ ws) h =
      let wide : leb ef (length (w ∷ ws)) ≡ false = ground arith in rw wide refl

  room-no_better :
      (d : R) (rs : List (R × ℕ)) → length rs < ef → no_better less dist accept ef d rs ≡ false
  room-no_better d [] h = refl
  room-no_better d (w ∷ ws) h =
      let wide : leb ef (length (w ∷ ws)) ≡ false = ground arith in rw wide refl

  room-keep_result :
      (x : R × ℕ) (rs : List (R × ℕ))
      → length rs < ef
      → keep_result less dist accept ef x rs ≡ push (farther less) x rs
  unfolding keep_result
  room-keep_result x rs h =
      let size = length-push (farther less) x rs in
      let fits : ltb ef (length (push (farther less) x rs)) ≡ false = ground (arith, size) in
      rw fits refl

  -- What a step does to the two heaps while there is room for more results.
  record Grows (ks : List ℕ) (f g : Frontier R) : Type 0 where
    size : length g.results ≤ length ks + length f.results
    results_kept : (j : ℕ) → In j (nodes f.results) → In j (nodes g.results)
    results_new : (j : ℕ) → In j ks → accept j ≡ true → In j (nodes g.results)
    candidates_kept : (j : ℕ) → In j (nodes f.candidates) → In j (nodes g.candidates)
    candidates_new : (j : ℕ) → In j ks → In j (nodes g.candidates)

  consider-Grows :
      (k : ℕ) (f : Frontier R)
      → length f.results < ef
      → Grows (k ∷ []) f (consider less dist accept ef k f)
  unfolding consider
  consider-Grows k f h =
      let x : R × ℕ = (dist k, k) in
      elim (Bool-cases (accept k)) [
        | inl a ↦
            rw (room-no_better (dist k) f.results h, a, room-keep_result x f.results h)
              (record {
                size = omega (arith, length-push (farther less) x f.results);
                results_kept = λ j i. In-push_old (farther less) j x f.results i;
                results_new = λ j i t. elim i [
                  | inl e ↦ rw e (In-push_new (farther less) x f.results)
                  | inr none_left ↦ absurd none_left
                ];
                candidates_kept = λ j i. In-push_old (nearer less) j x f.candidates i;
                candidates_new = λ j i. elim i [
                  | inl e ↦ rw e (In-push_new (nearer less) x f.candidates)
                  | inr none_left ↦ absurd none_left
                ];
              })
        | inr a ↦
            rw (room-no_better (dist k) f.results h, a)
              (record {
                size = omega arith;
                results_kept = λ j i. i;
                results_new = λ j i t. elim i [
                  | inl e ↦ let same : accept j ≡ accept k = ap accept e in absurd (cc)
                  | inr none_left ↦ absurd none_left
                ];
                candidates_kept = λ j i. In-push_old (nearer less) j x f.candidates i;
                candidates_new = λ j i. elim i [
                  | inl e ↦ rw e (In-push_new (nearer less) x f.candidates)
                  | inr none_left ↦ absurd none_left
                ];
              })
      ]

  expand-Grows :
      (ks : List ℕ) (f : Frontier R)
      → length ks + length f.results ≤ ef
      → Grows ks f (expand less dist accept ef ks f)
  unfolding expand
  expand-Grows [] f h = record {
    size = omega arith;
    results_kept = λ j i. i;
    results_new = λ j i t. absurd i;
    candidates_kept = λ j i. i;
    candidates_new = λ j i. absurd i;
  }
  expand-Grows (k ∷ ks) f h =
      let one = consider-Grows k f (omega (arith, h)) in
      let rest = expand-Grows ks (consider less dist accept ef k f) (omega (arith, h, one.size)) in
      record {
        size = omega (arith, one.size, rest.size);
        results_kept = λ j i. rest.results_kept j (one.results_kept j i);
        results_new = λ j i t. elim i [
          | inl e ↦ rest.results_kept j (one.results_new j (inl e) t)
          | inr l ↦ rest.results_new j l t
        ];
        candidates_kept = λ j i. rest.candidates_kept j (one.candidates_kept j i);
        candidates_new = λ j i. elim i [
          | inl e ↦ rest.candidates_kept j (one.candidates_new j (inl e))
          | inr l ↦ rest.candidates_new j l
        ];
      }

  -- Where the walk stands: there is room, what was visited and is acceptable is held, and what was
  -- visited is still a candidate or has all its links visited.
  record IsUnderWay (layer : Layer) (visited : List ℕ) (cs rs : List (R × ℕ)) : Type 0 where
    room : length rs + unseen visited layer < ef
    held : (j : ℕ) → In j visited → accept j ≡ true → In j (nodes rs)
    followed :
        (j : ℕ)
        → In j visited
        → In j (nodes cs) ⊎ ((n : ℕ) → In n (links_of layer j) → In n visited)

  fresh_or_seen :
      (layer : Layer) (node n : ℕ) (visited : List ℕ)
      → In n (links_of layer node)
      → In n (fresh_of layer node visited ++ visited)
  fresh_or_seen layer node n visited i =
      let fresh : List ℕ = fresh_of layer node visited in
      elim (Bool-cases (contains n visited)) [
        | inl y ↦ In-append_right n fresh visited ((contains_iff n visited).0 y)
        | inr y ↦
            In-append_left n fresh visited
              (keep-In (λ m. not (contains m visited)) n (links_of layer node) i (ap not y))
      ]

  step-IsUnderWay :
      (layer : Layer) (visited : List ℕ) (c : R × ℕ) (cs rs : List (R × ℕ)) (g : Frontier R)
      → Grows (fresh_of layer c.1 visited) (record { candidates = cs; results = rs }) g
      → IsUnderWay layer visited (c ∷ cs) rs
      → IsUnderWay layer (fresh_of layer c.1 visited ++ visited) g.candidates g.results
  step-IsUnderWay layer visited c cs rs g grows u =
      let fresh : List ℕ = fresh_of layer c.1 visited in
      record {
        room = omega (arith, grows.size, u.room, unseen-fresh layer c.1 visited);
        held = λ j i t. elim (In-append j fresh visited i) [
          | inl new ↦ grows.results_new j new t
          | inr old ↦ grows.results_kept j (u.held j old t)
        ];
        followed = λ j i. elim (In-append j fresh visited i) [
          | inl new ↦ inl (grows.candidates_new j new)
          | inr old ↦ elim (u.followed j old) [
            | inl waiting ↦ elim waiting [
              | inl e ↦ inr (λ n l. fresh_or_seen layer c.1 n visited (rw (← e) l))
              | inr later ↦ inl (grows.candidates_kept j later)
            ]
            | inr closed ↦ inr (λ n l. In-append_right n fresh visited (closed n l))
          ]
        ];
      }

  Linked-visited :
      (layer : Layer) (visited : List ℕ)
      → ((j : ℕ) → In j visited → (n : ℕ) → In n (links_of layer j) → In n visited)
      → {from j : ℕ} → In from visited
      → Linked layer from j
      → In j visited
  Linked-visited layer visited closed i itself = i
  Linked-visited layer visited closed i (onward path l) =
      closed _ (Linked-visited layer visited closed i path) _ l

  done-finds :
      (layer : Layer) (visited : List ℕ) (rs : List (R × ℕ)) (from j : ℕ)
      → IsUnderWay layer visited [] rs
      → In from visited
      → Linked layer from j
      → accept j ≡ true
      → In j (nodes rs)
  done-finds layer visited rs from j u i path a =
      u.held j
        (Linked-visited layer visited
          (λ k s. elim (u.followed k s) [ inl waiting ↦ absurd waiting | inr closed ↦ closed ]) i
          path)
        a

  walk-finds :
      (layer : Layer) (n : ℕ) (visited : List ℕ) (cs rs : List (R × ℕ)) (from j : ℕ)
      → length cs + unseen visited layer ≤ n
      → IsUnderWay layer visited cs rs
      → In from visited
      → Linked layer from j
      → accept j ≡ true
      → In j (nodes (walk less dist accept ef layer n visited cs rs))
  unfolding walk
  walk-finds layer zero visited [] rs from j h u i path a =
      done-finds layer visited rs from j u i path a
  walk-finds layer zero visited (c ∷ cs) rs from j h u i path a = absurd (omega (arith, h))
  walk-finds layer (suc n) visited [] rs from j h u i path a =
      done-finds layer visited rs from j u i path a
  walk-finds layer (suc n) visited (c ∷ cs) rs from j h u i path a =
      let fresh : List ℕ = fresh_of layer c.1 visited in
      let start : Frontier R = record { candidates = cs; results = rs } in
      let g : Frontier R = expand less dist accept ef fresh start in
      let seen = unseen-fresh layer c.1 visited in
      let few = expand-candidates less dist accept ef fresh start in
      let going = room-beyond c.0 rs (omega (arith, u.room)) in
      rw going (
        walk-finds layer n (fresh ++ visited) g.candidates g.results from j
          (omega (arith, h, seen, few))
          (step-IsUnderWay layer visited c cs rs g
            (expand-Grows fresh start (omega (arith, u.room, seen))) u)
          (In-append_right from fresh visited i) path a)

  accepted-all :
      (entries : List (R × ℕ)) (j : ℕ)
      → In j (nodes entries)
      → accept j ≡ true
      → In j (nodes (accepted less dist accept ef entries))
  unfolding accepted
  accepted-all [] j i a = i
  accepted-all (x ∷ xs) j i a = elim (Bool-cases (accept x.1)) [
    | inl y ↦ rw y (elim i [
      | inl e ↦ rw e (In-push_new (farther less) x (accepted less dist accept ef xs))
      | inr l ↦
          In-push_old (farther less) j x (accepted less dist accept ef xs) (accepted-all xs j l a)
    ])
    | inr y ↦ rw y (elim i [
      | inl e ↦ let same : accept j ≡ accept x.1 = ap accept e in absurd (cc)
      | inr l ↦ accepted-all xs j l a
    ])
  ]

  length-accepted :
      (entries : List (R × ℕ)) → length (accepted less dist accept ef entries) ≤ length entries
  unfolding accepted
  length-accepted [] = omega arith
  length-accepted (x ∷ xs) = elim (Bool-cases (accept x.1)) [
    | inl y ↦ rw y (
        omega (
          arith,
          length-push (farther less) x (accepted less dist accept ef xs),
          length-accepted xs,
        ))
    | inr y ↦ rw y (omega (arith, length-accepted xs))
  ]

  -- When `ef` exceeds the entry points and the links of the layer together, a search of the layer finds
  -- every acceptable node that a path of links leads to from an entry point.
  pub search_layer-complete :
      (layer : Layer) (entries : List (R × ℕ)) (from j : ℕ)
      → length entries + link_count layer < ef
      → In from (nodes entries)
      → Linked layer from j
      → accept j ≡ true
      → In j (nodes (search_layer less dist accept ef layer entries))
  unfolding search_layer start_results
  search_layer-complete layer entries from j h i path a =
      let few = unseen-link_count (nodes entries) layer in
      let size = length-accepted entries in
      let all_kept : length (accepted less dist accept ef entries) - ef ≡ 0 =
        omega (arith, h, size) in
      rw all_kept (
        walk-finds layer (length entries + link_count layer) (nodes entries)
          (sort (nearer less) entries) (accepted less dist accept ef entries) from j
          (omega (arith, few, length-sort (nearer less) entries))
          (record {
            room = omega (arith, h, few, size);
            held = λ k l t. accepted-all entries k l t;
            followed = λ k l. inl (In-sort_all (nearer less) k entries l);
          })
          i path a)
