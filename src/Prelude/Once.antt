-- ===== src/Prelude/Once.antt =====
-- Dicts with each key once, as Python's have.
use Prim.Native.Nat.{ℕ, ◌+◌}
use mathlib.Core.Path.{◌≡◌, refl}
use mathlib.Core.Logic.{inl, inr}
use mathlib.Core.Bool.{Bool, true, false, ◌&&◌}
use mathlib.Core.List.{[], ◌∷◌}
use mathlib.Core.Option.{Option, none, some}
use native.Mathlib.Omega.{arith}
use python_pj.Prelude.Tests.{if◌then◌else◌, is_some, Bool-cases}
use python_pj.Prelude.Lists.{length, keep}
use python_pj.Prelude.Keys.{Eq, ◌==◌, nat_eq, contains}
use python_pj.Prelude.Dict.{Dict, get, insert, remove, keys, get-insert, get-remove}

module _ {ℓ κ} {K : Type ℓ} {V : Type κ} ⦃e : Eq K⦄ where
  abbrev pub Once : Dict K V → Type κ
  Once [] = Unit
  Once ((k, v) ∷ d) = (get d k ≡ none) × Once d

  pub Once-insert : (d : Dict K V) (k : K) (v : V) → Once d → Once (insert d k v)
  unfolding insert get
  Once-insert [] k v o = (refl, tt)
  Once-insert ((i, w) ∷ d) k v o = elim (Bool-cases (i == k)) [
    | inl y ↦ rw y o
    | inr y ↦ rw y (
      ground (arith, get-insert d k i v, e.is_same_iff i k, e.is_same_iff k i, o.0, y),
      Once-insert d k v o.1,
    )
  ]

  pub Once-remove : (d : Dict K V) (k : K) → Once d → Once (remove d k)
  unfolding remove
  Once-remove [] k o = tt
  Once-remove ((i, w) ∷ d) k o = elim (Bool-cases (i == k)) [
    | inl y ↦ rw y (Once-remove d k o.1)
    | inr y ↦ rw y (ground (arith, get-remove d k i, o.0), Once-remove d k o.1)
  ]

  pub contains-keys : (d : Dict K V) (k : K) → contains k (keys d) ≡ is_some (get d k)
  unfolding contains get
  contains-keys [] k = refl
  contains-keys ((i, w) ∷ d) k =
      ground (arith, e.is_same_iff i k, e.is_same_iff k i, contains-keys d k)

abbrev pub count_at : Option ℕ → ℕ
count_at none = 0
count_at (some n) = n

-- `sum(d.values())`
module _ {ℓ} {K : Type ℓ} ⦃e : Eq K⦄ where
  unfoldable pub total : Dict K ℕ → ℕ
  total [] = 0
  total ((k, n) ∷ d) = n + total d

  pub total-remove :
      (d : Dict K ℕ) (k : K) → Once d → total (remove d k) + count_at (get d k) ≡ total d
  unfolding total remove get
  total-remove [] k o = refl
  total-remove ((i, w) ∷ d) k o = elim (Bool-cases (i == k)) [
    | inl y ↦ ground (arith, y, o.0, e.is_same_iff i k, total-remove d k o.1)
    | inr y ↦ ground (arith, y, total-remove d k o.1)
  ]

  pub total-insert :
      (d : Dict K ℕ) (k : K) (n : ℕ) → get d k ≡ none → total (insert d k n) ≡ total d + n
  unfolding total insert get
  total-insert [] k n f = omega arith
  total-insert ((i, w) ∷ d) k n f = elim (Bool-cases (i == k)) [
    | inl y ↦ ground (arith, y, f)
    | inr y ↦ ground (arith, y, f, total-insert d k n)
  ]

module _ {ℓ κ} {K : Type ℓ} {W : Type κ} ⦃e : Eq K⦄ where
  pub length-remove :
      (d : Dict K W) (k : K)
      → Once d
      → length d ≡ length (remove d k) + (if is_some (get d k) then 1 else 0)
  unfolding remove get
  length-remove [] k o = refl
  length-remove ((i, w) ∷ d) k o = elim (Bool-cases (i == k)) [
    | inl y ↦ ground (arith, y, o.0, e.is_same_iff i k, length-remove d k o.1)
    | inr y ↦ ground (arith, y, length-remove d k o.1)
  ]

  no_keys : (d : Dict K W) → ((k : K) → is_some (get d k) ≡ false) → length d ≡ 0
  unfolding get
  no_keys [] h = refl
  no_keys ((i, w) ∷ d) h = ground (arith, h i, e.is_same_iff i i)

module _ {ℓ κ} {K : Type ℓ} {V W : Type κ} ⦃e : Eq K⦄ where
  -- A dict whose keys are those of another that pass a test.
  pub length-keys :
      (d : Dict K V) (p : Dict K W) (q : K → Bool)
      → Once d
      → Once p
      → ((j : K) → is_some (get p j) ≡ (is_some (get d j) && q j))
      → length p ≡ length (keep q (keys d))
  unfolding get
  length-keys [] p q od op h = no_keys p h
  length-keys ((k, v) ∷ d) p q od op h = elim (Bool-cases (q k)) [
    | inl y ↦
        let here : is_some (get p k) ≡ true = ground (arith, y, h k, e.is_same_iff k k) in
        let rest : length (remove p k) ≡ length (keep q (keys d)) =
          length-keys d (remove p k) q od.1 (Once-remove p k op)
            (λ j. rw (get-remove p k j) (ground (arith, y, h j, od.0, e.is_same_iff k j))) in
        rw y (ground (arith, length-remove p k op, here, rest))
    | inr y ↦
        rw y (length-keys d p q od.1 op (λ j. ground (arith, y, h j, od.0, e.is_same_iff k j)))
  ]
