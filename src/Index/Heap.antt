-- ===== src/Index/Heap.antt =====
-- `heapq` and `sorted` on pairs of a distance and a key, which src/annex/index/hnsw.py orders its nodes
-- by. A heap is kept as the list of its elements in the order in which they are popped.
use python_pj.Prelude.{ℕ, Bool, not, ◌&&◌, ◌||◌, List, [], ◌∷◌, if◌then◌else◌, ltb}

module _ {A : Type 0} (before : A → A → Bool) where
  -- `heapq.heappush`
  unfoldable pub push : A → List A → List A
  push x [] = x ∷ []
  push x (y ∷ ys) = let rest = push x ys in if before x y then x ∷ y ∷ ys else y ∷ rest

  -- `sorted` and `heapq.heapify`
  unfoldable pub sort : List A → List A
  unfolding push
  sort [] = []
  sort (x ∷ xs) = push x (sort xs)

module _ {R : Type 0} (less : R → R → Bool) where
  -- `(d, k) < (e, j)`
  abbrev pub nearer : R × ℕ → R × ℕ → Bool
  nearer x y = less x.0 y.0 || (not (less y.0 x.0) && ltb x.1 y.1)

  -- `(-d, k) < (-e, j)`
  abbrev pub farther : R × ℕ → R × ℕ → Bool
  farther x y = less y.0 x.0 || (not (less x.0 y.0) && ltb x.1 y.1)
