-- ===== src/Index/Nearest.antt =====
-- src/annex/index/flat.py: a scan gives the nearest keys.
use python_pj.Prelude.{
  ℕ, zero, suc, ◌-◌, ◌≤◌, ◌<◌, ◌≡◌, refl, sym, subst, ap, ◌∙◌, ◌⊎◌, ◌↔◌, inl, inr, Bool, true,
  false, List, [], ◌∷◌, Bool-cases, arith, leb, eqb, nat_eq, length, length-take, take, drop, keep,
  min, All,
}
use python_pj.Prelude.Members.{In, Distinct}
use python_pj.Index.Heap.{sort}
use python_pj.Index.Hnsw.{Space}
use python_pj.Index.Flat.{FlatIndex, not_after, rows_of, exact_scan, search_flat, scanned_distance}
use python_pj.Index.Sorted.{
  nodes, length-sort, All-sort, All-take, In-sort, In-sort_all, Distinct-sort, Distinct-take,
  In-take, Ascending, Ascending-sort, In-keep, Distinct-keep, keep-In,
}
use python_pj.Index.Shuffled.{
  Shuffled, length-Shuffled, All-Shuffled, Shuffled-In, back, Distinct-Shuffled, sort-Shuffled,
  nodes-Shuffled,
}

module _ {R : Type 0} where
  take_or_drop :
      (n k : ℕ) (xs : List (R × ℕ))
      → In k (nodes xs)
      → In k (nodes (take n xs)) ⊎ In k (nodes (drop n xs))
  take_or_drop zero k xs i = inr i
  take_or_drop (suc n) k [] i = absurd i
  take_or_drop (suc n) k (x ∷ xs) (inl e) = inl (inl e)
  take_or_drop (suc n) k (x ∷ xs) (inr i) = elim (take_or_drop n k xs i) [
    | inl l ↦ inl (inr l)
    | inr r ↦ inr r
  ]

  nodes-rows :
      (less : R → R → Bool) (arrange : ℕ → List (R × ℕ) → List (R × ℕ)) (dist : ℕ → R) (ks : List ℕ)
      → nodes (rows_of less arrange dist ks) ≡ ks
  nodes-rows less arrange dist [] = refl
  nodes-rows less arrange dist (k ∷ ks) = ap (◌∷◌ k) (nodes-rows less arrange dist ks)

  measured-rows :
      (less : R → R → Bool) (arrange : ℕ → List (R × ℕ) → List (R × ℕ)) (dist : ℕ → R) (ks : List ℕ)
      → All (λ x. x.0 ≡ dist x.1) (rows_of less arrange dist ks)
  measured-rows less arrange dist [] = tt
  measured-rows less arrange dist (k ∷ ks) = (refl, measured-rows less arrange dist ks)

  length-nodes : (xs : List (R × ℕ)) → length (nodes xs) ≡ length xs
  length-nodes [] = refl
  length-nodes (x ∷ xs) = ap suc (length-nodes xs)

module _ {R : Type 0} (less : R → R → Bool) where
  -- What `np.argpartition` promises of an order at n: it is of the same rows, and none of those after
  -- the place n has a smaller distance than one of those up to it.
  pub record IsPartition (arrange : ℕ → List (R × ℕ) → List (R × ℕ)) : Type 0 where
    pub shuffled : (n : ℕ) (rows : List (R × ℕ)) → Shuffled (arrange n rows) rows
    pub parted :
        (n : ℕ) (rows : List (R × ℕ))
        → n < length rows
        → All
            (λ x. All (λ y. less y.0 x.0 ≡ false) (drop (suc n) (arrange n rows)))
            (take (suc n) (arrange n rows))

  -- The nearest of some keys: as many as asked for or as there are, none twice, each with its distance,
  -- none before a nearer one, each of them one of the keys; and none of the other keys is nearer than a
  -- hit.
  pub record AreNearest (dist : ℕ → R) (k : ℕ) (ks : List ℕ) (hits : List (R × ℕ)) : Type 0 where
    pub as_many : length hits ≡ min k (length ks)
    pub once : Distinct (nodes hits)
    pub measured : All (λ x. x.0 ≡ dist x.1) hits
    pub ordered : Ascending (λ x y. less x.0 y.0) hits
    pub inside : (j : ℕ) → In j (nodes hits) → In j ks
    pub nearest :
        (j : ℕ) → In j ks → (¬ In j (nodes hits)) → All (λ x. less (dist j) x.0 ≡ false) hits

  -- A scan gives no other keys.
  pub exact_scan-inside :
      (arrange : ℕ → List (R × ℕ) → List (R × ℕ))
      → IsPartition arrange
      → (dist : ℕ → R) (k : ℕ) (ks : List ℕ) (j : ℕ)
      → In j (nodes (exact_scan less arrange dist k ks))
      → In j ks
  unfolding exact_scan
  exact_scan-inside arrange partition dist k [] j i = i
  exact_scan-inside arrange partition dist k (x ∷ xs) j i =
      let rows : List (R × ℕ) = rows_of less arrange dist (x ∷ xs) in
      let kk : ℕ = min k (length rows) in
      let placed : List (R × ℕ) = arrange (kk - 1) rows in
      subst (λ ns. In j ns) (nodes-rows less arrange dist (x ∷ xs))
        (Shuffled-In j (nodes-Shuffled (partition.shuffled (kk - 1) rows))
          (In-take kk j placed (In-sort (not_after less arrange) j (take kk placed) i)))

  module _ (arrange : ℕ → List (R × ℕ) → List (R × ℕ)) (partition : IsPartition arrange)
      (asymmetric : (x y : R) → less x y ≡ true → less y x ≡ false) where
    put_before : (x y : R × ℕ) → not_after less arrange x y ≡ true → less y.0 x.0 ≡ false
    put_before x y h = ground (arith, h)

    put_after : (x y : R × ℕ) → not_after less arrange x y ≡ false → less x.0 y.0 ≡ false
    put_after x y h = asymmetric y.0 x.0 (ground (arith, h))

    swap_all :
        (j : ℕ) (dist : ℕ → R) (xs ys : List (R × ℕ))
        → All (λ x. All (λ y. less y.0 x.0 ≡ false) ys) xs
        → All (λ y. y.0 ≡ dist y.1) ys
        → In j (nodes ys)
        → All (λ x. less (dist j) x.0 ≡ false) xs
    swap_all j dist [] ys h m i = tt
    swap_all j dist (x ∷ xs) ys h m i = (node-less ys h.0 m i, swap_all j dist xs ys h.1 m i)
      where
        node-less :
            (zs : List (R × ℕ))
            → All (λ y. less y.0 x.0 ≡ false) zs
            → All (λ y. y.0 ≡ dist y.1) zs
            → In j (nodes zs)
            → less (dist j) x.0 ≡ false
        node-less [] a b i = absurd i
        node-less (z ∷ zs) a b (inl e) = rw (e, ← b.0) a.0
        node-less (z ∷ zs) a b (inr l) = node-less zs a.1 b.1 l

    All-dropped : (P : R × ℕ → Type 0) (n : ℕ) (xs : List (R × ℕ)) → All P xs → All P (drop n xs)
    All-dropped P zero xs h = h
    All-dropped P (suc n) [] h = tt
    All-dropped P (suc n) (x ∷ xs) h = All-dropped P n xs h.1

    farther_rest :
        (kk j : ℕ) (dist : ℕ → R) (rows : List (R × ℕ))
        → kk ≤ length rows
        → All (λ x. x.0 ≡ dist x.1) rows
        → In j (nodes (drop kk (arrange (kk - 1) rows)))
        → All (λ x. less (dist j) x.0 ≡ false) (take kk (arrange (kk - 1) rows))
    farther_rest zero j dist rows n m i = tt
    farther_rest (suc kk) j dist rows n m i =
        let back : suc kk - 1 ≡ kk = omega arith in
        let all = All-Shuffled (λ x. x.0 ≡ dist x.1) (partition.shuffled kk rows) m in
        rw back (
          swap_all j dist (take (suc kk) (arrange kk rows)) (drop (suc kk) (arrange kk rows))
            (partition.parted kk rows (omega (arith, n)))
            (All-dropped (λ x. x.0 ≡ dist x.1) (suc kk) (arrange kk rows) all) (rw back at i))

    -- Scanning keys without repetition gives the nearest of them, given an order of the distances that is
    -- asymmetric and a partition as numpy documents it.
    pub exact_scan-AreNearest :
        (dist : ℕ → R) (k : ℕ) (ks : List ℕ)
        → Distinct ks
        → AreNearest dist k ks (exact_scan less arrange dist k ks)
    unfolding exact_scan
    exact_scan-AreNearest dist k [] d = record {
      as_many = omega arith;
      once = tt;
      measured = tt;
      ordered = tt;
      inside = λ j i. i;
      nearest = λ j i n. tt;
    }
    exact_scan-AreNearest dist k (x ∷ xs) d =
        let rows : List (R × ℕ) = rows_of less arrange dist (x ∷ xs) in
        let kk : ℕ = min k (length rows) in
        let placed : List (R × ℕ) = arrange (kk - 1) rows in
        let shuffled = partition.shuffled (kk - 1) rows in
        let named : nodes rows ≡ x ∷ xs = nodes-rows less arrange dist (x ∷ xs) in
        let renamed = nodes-Shuffled shuffled in
        let once = Distinct-Shuffled renamed (subst Distinct (sym named) d) in
        let rows-length : length rows ≡ length (x ∷ xs) =
          sym (length-nodes rows) ∙ ap length named in
        let few : List (R × ℕ) = take kk placed in
        let all =
          All-Shuffled (λ y. y.0 ≡ dist y.1) shuffled (measured-rows less arrange dist (x ∷ xs)) in
        record {
          as_many = omega (
            arith,
            length-sort (not_after less arrange) few,
            length-take kk placed,
            length-Shuffled shuffled,
            rows-length,
          );
          once = Distinct-sort (not_after less arrange) few (Distinct-take kk placed once);
          measured =
              All-sort (not_after less arrange) (λ y. y.0 ≡ dist y.1) few
                (All-take (λ y. y.0 ≡ dist y.1) kk placed all);
          ordered =
              Ascending-sort (λ y z. less y.0 z.0) (not_after less arrange) put_before put_after
                few;
          inside = λ j i. exact_scan-inside arrange partition dist k (x ∷ xs) j i;
          nearest = λ j i n.
              All-sort (not_after less arrange) (λ y. less (dist j) y.0 ≡ false) few
                (elim (take_or_drop kk j placed
                  (Shuffled-In j (back renamed) (subst (λ ns. In j ns) (sym named) i))) [
                    | inl l ↦ absurd (n (In-sort_all (not_after less arrange) j few l))
                    | inr r ↦
                        farther_rest kk j dist rows (omega arith)
                          (measured-rows less arrange dist (x ∷ xs)) r
                  ]);
        }

module _ {S V R : Type 0} (less : R → R → Bool) (arrange : ℕ → List (R × ℕ) → List (R × ℕ))
    (sp : Space S V R) where
  -- the keys that a search scans
  abbrev pub scanned : (ℕ → Bool) → FlatIndex S → List ℕ
  scanned allow f = keep allow (sort leb f.live)

  In-scanned :
      (allow : ℕ → Bool) (f : FlatIndex S) (j : ℕ)
      → In j (scanned allow f) ↔ (In j f.live × (allow j ≡ true))
  In-scanned allow f j = (
    (λ i.
        let r = In-keep allow j (sort leb f.live) i in
        (Shuffled-In j (sort-Shuffled leb f.live) r.0, r.1)),
    (λ h.
        keep-In allow j (sort leb f.live) (Shuffled-In j (back (sort-Shuffled leb f.live)) h.0)
          h.1),
  )

  -- With a partition as numpy documents it and an asymmetric order of the distances, a search of a flat
  -- index whose live keys are without repetition gives the nearest of the keys that are live and
  -- allowed.
  pub search_flat-AreNearest :
      (query : V) (k : ℕ) (allow : ℕ → Bool) (f : FlatIndex S)
      → IsPartition less arrange
      → ((x y : R) → less x y ≡ true → less y x ≡ false)
      → Distinct f.live
      → AreNearest less
          (scanned_distance less arrange sp f query)
          k
          (scanned allow f)
          (search_flat less arrange sp query k allow f)
        × ((j : ℕ) → In j (scanned allow f) ↔ (In j f.live × (allow j ≡ true)))
  unfolding search_flat
  search_flat-AreNearest query k allow f partition asymmetric d =
      let once =
        Distinct-keep allow (sort leb f.live) (Distinct-Shuffled (sort-Shuffled leb f.live) d) in
      elim (Bool-cases (eqb k 0)) [
        | inl y ↦ rw y (
          record {
            as_many = ground (arith, y);
            once = tt;
            measured = tt;
            ordered = tt;
            inside = λ j i. absurd i;
            nearest = λ j i n. tt;
          },
          In-scanned allow f,
        )
        | inr y ↦ rw y (
          exact_scan-AreNearest less arrange partition asymmetric
              (scanned_distance less arrange sp f query) k (scanned allow f) once,
          In-scanned allow f,
        )
      ]
