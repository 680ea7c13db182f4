-- ===== src/Index/Rounds.antt =====
-- src/annex/index/hnsw.py: the loops of `_search_layer` and `_greedy_descend` end.
use python_pj.Prelude.{
  ℕ, zero, suc, ◌+◌, ◌≤◌, ◌≡◌, refl, ap, inl, inr, Bool, true, false, not, ◌&&◌, ◌||◌, List, [],
  ◌∷◌, ◌++◌, Bool-cases, arith, length, map, keep, count_if, eqb, eqb_iff, nat_eq, contains,
}
use python_pj.Prelude.Dict.{get}
use python_pj.Index.Heap.{sort, nearer}
use python_pj.Index.Beam.{
  Layer, link_count, Frontier, no_better, consider, expand, fresh_of, walk, beyond, start_results,
  search_layer,
}
use python_pj.Index.Sorted.{length-push, length-sort}

contains-append :
    (n : ℕ) (xs ys : List ℕ) → contains n (xs ++ ys) ≡ (contains n xs || contains n ys)
unfolding contains
contains-append n [] ys = refl
contains-append n (x ∷ xs) ys = ground (arith, contains-append n xs ys)

contains-keep :
    (p : ℕ → Bool) (n : ℕ) (xs : List ℕ) → contains n (keep p xs) ≡ (contains n xs && p n)
unfolding contains
contains-keep p n [] = refl
contains-keep p n (x ∷ xs) = elim (Bool-cases (eqb n x)) [
  | inl y ↦
      let same : p n ≡ p x = ap p ((eqb_iff n x).0 y) in
      ground (arith, y, same, contains-keep p n xs)
  | inr y ↦ ground (arith, y, contains-keep p n xs)
]

length-keep : (p : ℕ → Bool) (xs : List ℕ) → length (keep p xs) ≡ count_if p xs
length-keep p [] = refl
length-keep p (x ∷ xs) = ground (arith, length-keep p xs)

pub count_if-le :
    (p q : ℕ → Bool) (xs : List ℕ)
    → ((n : ℕ) → p n ≡ true → q n ≡ true)
    → count_if p xs ≤ count_if q xs
count_if-le p q [] h = omega arith
count_if-le p q (x ∷ xs) h = ground (arith, h x, count_if-le p q xs h)

count_if-none :
    (p : ℕ → Bool) (xs : List ℕ)
    → ((n : ℕ) → contains n xs ≡ true → p n ≡ false)
    → count_if p xs ≡ 0
unfolding contains
count_if-none p [] h = refl
count_if-none p (x ∷ xs) h =
    ground (arith, h x, (eqb_iff x x).1 refl, count_if-none p xs (λ n c. h n (ground (arith, c))))

abbrev unseen_in : List ℕ → List ℕ → ℕ
unseen_in visited nbs = count_if (λ n. not (contains n visited)) nbs

-- the links to nodes that were not visited
abbrev pub unseen : List ℕ → Layer → ℕ
unseen visited [] = 0
unseen visited ((k, nbs) ∷ layer) = unseen_in visited nbs + unseen visited layer

unseen_in-le : (more visited nbs : List ℕ) → unseen_in (more ++ visited) nbs ≤ unseen_in visited nbs
unseen_in-le more visited nbs =
    count_if-le _ _ nbs (λ n h. ground (arith, h, contains-append n more visited))

unseen-le :
    (more visited : List ℕ) (layer : Layer) → unseen (more ++ visited) layer ≤ unseen visited layer
unseen-le more visited [] = omega arith
unseen-le more visited ((k, nbs) ∷ layer) =
    omega (arith, unseen_in-le more visited nbs, unseen-le more visited layer)

pub unseen-link_count : (visited : List ℕ) (layer : Layer) → unseen visited layer ≤ link_count layer
unfolding link_count
unseen-link_count visited [] = omega arith
unseen-link_count visited ((k, nbs) ∷ layer) =
    let some_of : (p : ℕ → Bool) (xs : List ℕ) → count_if p xs ≤ length xs = count_if-length in
    omega (arith, some_of (λ n. not (contains n visited)) nbs, unseen-link_count visited layer)
  where
    count_if-length : (p : ℕ → Bool) (xs : List ℕ) → count_if p xs ≤ length xs
    count_if-length p [] = omega arith
    count_if-length p (x ∷ xs) = ground (arith, count_if-length p xs)

fresh_seen :
    (visited nbs : List ℕ) → unseen_in (keep (λ n. not (contains n visited)) nbs ++ visited) nbs ≡ 0
fresh_seen visited nbs = count_if-none _ nbs (λ n c. ground (
  arith,
  c,
  contains-append n (keep (λ j. not (contains j visited)) nbs) visited,
  contains-keep (λ j. not (contains j visited)) n nbs,
))

-- What is visited for the first time is no longer unseen.
fresh-unseen :
    (layer : Layer) (node : ℕ) (visited fresh : List ℕ)
    → fresh ≡ fresh_of layer node visited
    → unseen (fresh ++ visited) layer + length fresh ≤ unseen visited layer
unfolding get
fresh-unseen [] node visited fresh e = rw e (omega arith)
fresh-unseen ((k, nbs) ∷ layer) node visited fresh e = elim (Bool-cases (eqb k node)) [
  | inl y ↦
      let own : fresh ≡ keep (λ n. not (contains n visited)) nbs = rw y at e in
      let none_left : unseen_in (fresh ++ visited) nbs ≡ 0 = rw own (fresh_seen visited nbs) in
      let counted : length fresh ≡ unseen_in visited nbs =
        rw own (length-keep (λ n. not (contains n visited)) nbs) in
      omega (arith, none_left, counted, unseen-le fresh visited layer)
  | inr y ↦
      let own : fresh ≡ fresh_of layer node visited = rw y at e in
      omega (arith, unseen_in-le fresh visited nbs, fresh-unseen layer node visited fresh own)
]

pub unseen-fresh :
    (layer : Layer) (node : ℕ) (visited : List ℕ)
    → unseen (fresh_of layer node visited ++ visited) layer + length (fresh_of layer node visited)
      ≤ unseen visited layer
unseen-fresh layer node visited = fresh-unseen layer node visited (fresh_of layer node visited) refl

module _ {R : Type 0} (less : R → R → Bool) (dist : ℕ → R) (accept : ℕ → Bool) (ef : ℕ) where
  consider-candidates :
      (k : ℕ) (f : Frontier R)
      → length (consider less dist accept ef k f).candidates ≤ suc (length f.candidates)
  unfolding consider
  consider-candidates k f = elim (Bool-cases (no_better less dist accept ef (dist k) f.results)) [
    | inl y ↦ rw y (omega arith)
    | inr y ↦ rw y (omega (arith, length-push (nearer less) (dist k, k) f.candidates))
  ]

  pub expand-candidates :
      (ks : List ℕ) (f : Frontier R)
      → length (expand less dist accept ef ks f).candidates ≤ length ks + length f.candidates
  unfolding expand
  expand-candidates [] f = omega arith
  expand-candidates (k ∷ ks) f =
      omega
        (arith, consider-candidates k f, expand-candidates ks (consider less dist accept ef k f))

  -- What the loop `while candidates` ends with: no candidate is left, or the nearest one is too far. The
  -- rounds are not bounded: a run that does not end has no such derivation.
  pub data Ends (layer : Layer) : List ℕ → List (R × ℕ) → List (R × ℕ) → List (R × ℕ) → Type 0 where
    no_candidate : (visited : List ℕ) (rs : List (R × ℕ)) → Ends layer visited [] rs rs
    too_far :
        (visited : List ℕ) (c : R × ℕ) (cs rs : List (R × ℕ))
        → beyond less dist accept ef c.0 rs ≡ true
        → Ends layer visited (c ∷ cs) rs rs
    one_round :
        (visited : List ℕ) (c : R × ℕ) (cs rs out : List (R × ℕ))
        → beyond less dist accept ef c.0 rs ≡ false
        → Ends layer
            (fresh_of layer c.1 visited ++ visited)
            (expand less dist accept ef
              (fresh_of layer c.1 visited)
              (record { candidates = cs; results = rs })).candidates
            (expand less dist accept ef
              (fresh_of layer c.1 visited)
              (record { candidates = cs; results = rs })).results
            out
        → Ends layer visited (c ∷ cs) rs out

  walk-Ends :
      (layer : Layer) (n : ℕ) (visited : List ℕ) (cs rs : List (R × ℕ))
      → length cs + unseen visited layer ≤ n
      → Ends layer visited cs rs (walk less dist accept ef layer n visited cs rs)
  unfolding walk
  walk-Ends layer zero visited [] rs h = no_candidate visited rs
  walk-Ends layer (suc n) visited [] rs h = no_candidate visited rs
  walk-Ends layer zero visited (c ∷ cs) rs h = absurd (omega arith)
  walk-Ends layer (suc n) visited (c ∷ cs) rs h =
      elim (Bool-cases (beyond less dist accept ef c.0 rs)) [
        | inl y ↦ rw y (too_far visited c cs rs y)
        | inr y ↦
            let fresh : List ℕ = fresh_of layer c.1 visited in
            let f : Frontier R =
              expand less dist accept ef fresh (record { candidates = cs; results = rs }) in
            let fewer =
              expand-candidates (fresh_of layer c.1 visited)
                (record { candidates = cs; results = rs }) in
            let seen = unseen-fresh layer c.1 visited in
            rw y (
              one_round visited c cs rs _ y (
                walk-Ends layer n (fresh ++ visited) f.candidates f.results
                  (omega (arith, fewer, seen))))
      ]

  -- From any entry points the loop that searches a layer ends, by its own tests, without a bound on its
  -- rounds, and what it ends with is what the search gives in as many rounds as there are entry points
  -- and links.
  pub search_layer-Ends :
      (layer : Layer) (entries : List (R × ℕ))
      → Ends layer
          (map (λ x. x.1) entries)
          (sort (nearer less) entries)
          (start_results less dist accept ef entries)
          (search_layer less dist accept ef layer entries)
  unfolding search_layer
  search_layer-Ends layer entries =
      let few = unseen-link_count (map (λ x. x.1) entries) layer in
      let same = length-sort (nearer less) entries in
      walk-Ends layer (length entries + link_count layer) (map (λ x. x.1) entries)
        (sort (nearer less) entries) (start_results less dist accept ef entries)
        (omega (arith, few, same))
