-- ===== src/Index/Descent.antt =====
-- src/annex/index/hnsw.py: where the greedy walk of `_greedy_descend` ends.
use python_pj.Prelude.{
  ℕ, zero, suc, ◌≤◌, ◌<◌, ◌≡◌, refl, ap, ◌∙◌, inl, inr, Bool, true, false, not, ◌||◌, Option, none,
  some, List, [], ◌∷◌, Bool-cases, List-cases, arith, length, count_if, All, eqb, eqb_iff, nat_eq,
  contains, is_some,
}
use python_pj.Prelude.Dict.{get, keys}
use python_pj.Prelude.Once.{contains-keys}
use python_pj.Index.Beam.{Layer, or_nil, links_of, closest, descend, greedy_descend}
use python_pj.Index.Rounds.{count_if-le}

count_if-lt :
    (p q : ℕ → Bool) (a : ℕ) (xs : List ℕ)
    → ((n : ℕ) → p n ≡ true → q n ≡ true)
    → contains a xs ≡ true
    → p a ≡ false
    → q a ≡ true
    → count_if p xs < count_if q xs
unfolding contains
count_if-lt p q a [] h c f t = cc
count_if-lt p q a (x ∷ xs) h c f t = elim (Bool-cases (eqb a x)) [
  | inl y ↦
      let same_p : p a ≡ p x = ap p ((eqb_iff a x).0 y) in
      let same_q : q a ≡ q x = ap q ((eqb_iff a x).0 y) in
      ground (arith, same_p, same_q, f, t, count_if-le p q xs h)
  | inr y ↦ ground (arith, y, h x, c, count_if-lt p q a xs h (ground (arith, c, y)) f t)
]

count_if-pos :
    (p : ℕ → Bool) (a : ℕ) (xs : List ℕ) → contains a xs ≡ true → p a ≡ true → 0 < count_if p xs
unfolding contains
count_if-pos p a [] c t = cc
count_if-pos p a (x ∷ xs) c t = elim (Bool-cases (eqb a x)) [
  | inl y ↦ let same : p a ≡ p x = ap p ((eqb_iff a x).0 y) in ground (arith, same, t)
  | inr y ↦ ground (arith, y, c, count_if-pos p a xs (ground (arith, c, y)) t)
]

All-map :
    {A : Type 0} (P Q : A → Type 0) → ((a : A) → P a → Q a) → (xs : List A) → All P xs → All Q xs
All-map P Q f [] h = tt
All-map P Q f (x ∷ xs) h = (f x h.0, All-map P Q f xs h.1)

length-keys_of : (layer : Layer) → length (keys layer) ≡ length layer
length-keys_of [] = refl
length-keys_of ((k, nbs) ∷ layer) = omega (arith, length-keys_of layer)

count_if-length : (p : ℕ → Bool) (xs : List ℕ) → count_if p xs ≤ length xs
count_if-length p [] = omega arith
count_if-length p (x ∷ xs) = ground (arith, count_if-length p xs)

nil_or_not : (o : Option (List ℕ)) (k : ℕ) (ks : List ℕ) → or_nil o ≡ k ∷ ks → is_some o ≡ true
nil_or_not none k ks h = cc
nil_or_not (some xs) k ks h = refl

module _ {R : Type 0} (less : R → R → Bool) (dist : ℕ → R)
    (irreflexive : (x : R) → less x x ≡ false)
    (transitive : (x y z : R) → less x y ≡ true → less y z ≡ true → less x z ≡ true)
    (comparable : (x y z : R) → less x z ≡ true → (less x y || less y z) ≡ true) where
  -- the nodes with links that are no farther than a distance
  within : R → Layer → ℕ
  within d layer = count_if (λ k. not (less d (dist k))) (keys layer)

  nearer_keeps :
      (d e : R) (n : ℕ)
      → less e d ≡ true
      → not (less e (dist n)) ≡ true
      → not (less d (dist n)) ≡ true
  nearer_keeps d e n h k = ground (arith, h, k, transitive e d (dist n))

  within-lt :
      (layer : Layer) (node : ℕ) (e : R)
      → is_some (get layer node) ≡ true
      → less e (dist node) ≡ true
      → within e layer < within (dist node) layer
  unfolding within
  within-lt layer node e there h =
      count_if-lt (λ k. not (less e (dist k))) (λ k. not (less (dist node) (dist k))) node
        (keys layer) (λ n. nearer_keeps (dist node) e n h) (contains-keys layer node ∙ there)
        (ap not h) (ap not (irreflexive (dist node)))

  after : (x y : R) → less x y ≡ true → less y x ≡ false
  after x y h = elim (Bool-cases (less y x)) [
    | inl t ↦ let loop = transitive x y x h t in let never = irreflexive x in cc
    | inr f ↦ f
  ]

  within-pos :
      (layer : Layer) (node : ℕ) → is_some (get layer node) ≡ true → 0 < within (dist node) layer
  unfolding within
  within-pos layer node there =
      count_if-pos (λ k. not (less (dist node) (dist k))) node (keys layer)
        (contains-keys layer node ∙ there) (ap not (irreflexive (dist node)))

  not_nearer : (x y z : R) → less x y ≡ false → less y z ≡ false → less x z ≡ false
  not_nearer x y z h k = elim (Bool-cases (less x z)) [
    | inl t ↦ ground (arith, h, k, comparable x y z t)
    | inr f ↦ f
  ]

  closest-least :
      (best : ℕ) (ks : List ℕ) (least : ℕ)
      → least ≡ closest less dist best ks
      → (less (dist best) (dist least) ≡ false) × All (λ j. less (dist j) (dist least) ≡ false) ks
  unfolding closest
  closest-least best [] least e = (rw e (irreflexive (dist best)), tt)
  closest-least best (k ∷ ks) least e = elim (Bool-cases (less (dist k) (dist best))) [
    | inl y ↦
        let rest = closest-least k ks least (rw y at e) in
        (not_nearer (dist best) (dist k) (dist least) (after (dist k) (dist best) y) rest.0, rest)
    | inr y ↦
        let rest = closest-least best ks least (rw y at e) in
        (rest.0, (not_nearer (dist k) (dist best) (dist least) y rest.0, rest.1))
  ]

  -- A node that no link leads nearer from, and that is no farther than another one.
  pub record IsLocalMinimum (layer : Layer) (start : ℕ) (end : R × ℕ) : Type 0 where
    pub measured : end.0 ≡ dist end.1
    pub no_farther : less (dist start) end.0 ≡ false
    pub least : All (λ j. less (dist j) end.0 ≡ false) (links_of layer end.1)

  descend-IsLocalMinimum :
      (layer : Layer) (n node : ℕ)
      → within (dist node) layer ≤ n
      → IsLocalMinimum layer node (descend less dist layer n (dist node, node))
  unfolding descend
  descend-IsLocalMinimum layer zero node h = elim (List-cases (links_of layer node)) [
    | inl e ↦ record { measured = refl; no_farther = irreflexive (dist node); least = rw e tt }
    | inr (x, xs, e) ↦
        absurd (omega (arith, h, within-pos layer node (nil_or_not (get layer node) x xs e)))
  ]
  descend-IsLocalMinimum layer (suc n) node h = elim (List-cases (links_of layer node)) [
    | inl e ↦
        rw (e, descend)
          (record { measured = refl; no_farther = irreflexive (dist node); least = rw e tt })
    | inr (x, xs, e) ↦
        let there : is_some (get layer node) ≡ true = nil_or_not (get layer node) x xs e in
        let next : ℕ = closest less dist x xs in
        let least = closest-least x xs next refl in
        elim (Bool-cases (less (dist next) (dist node))) [
          | inl y ↦
              let rest =
                descend-IsLocalMinimum layer n next
                  (omega (arith, h, within-lt layer node (dist next) there y)) in
              rw (e, descend)
                (rw y (record {
                  measured = rest.measured;
                  no_farther =
                      not_nearer (dist node) (dist next) _ (after (dist next) (dist node) y)
                        rest.no_farther;
                  least = rest.least;
                }))
          | inr y ↦
              rw (e, descend)
                (rw y (record {
                  measured = refl;
                  no_farther = irreflexive (dist node);
                  least = rw e (
                    not_nearer (dist x) (dist next) (dist node) least.0 y,
                    All-map (λ j. less (dist j) (dist next) ≡ false)
                        (λ j. less (dist j) (dist node) ≡ false)
                        (λ j l. not_nearer (dist j) (dist next) (dist node) l y) xs least.1,
                  );
                }))
        ]
  ]

  -- With an order of the distances as floats have it, the greedy walk on any layer, with as many rounds
  -- as the layer has nodes, ends at a node whose distance it gives, which is no farther than the start,
  -- and from which no link leads nearer.
  pub greedy_descend-IsLocalMinimum :
      (layer : Layer) (node : ℕ)
      → IsLocalMinimum layer node (greedy_descend less dist layer (dist node, node))
  unfolding greedy_descend within
  greedy_descend-IsLocalMinimum layer node = descend-IsLocalMinimum layer (length layer) node (
      omega (
        arith,
        length-keys_of layer,
        count_if-length (λ k. not (less (dist node) (dist k))) (keys layer),
      ))
