-- ===== src/Prelude/Dict.antt =====
-- Python's `dict`: an association list in insertion order, each key once when it is built by the
-- operations below. Assigning to a key that is there keeps its place.
use mathlib.Core.Path.{◌≡◌, refl}
use mathlib.Core.List.{List, [], ◌∷◌}
use mathlib.Core.Option.{Option, none, some}
use native.Mathlib.Omega.{arith}
use python_pj.Prelude.Tests.{if◌then◌else◌, is_some}
use python_pj.Prelude.Keys.{Eq, ◌==◌}

abbrev pub Dict {ℓ κ} : Type ℓ → Type κ → Type (ℓ ⊔ κ)
Dict K V = List (K × V)

module _ {ℓ κ} {K : Type ℓ} {V : Type κ} where
  abbrev pub keys : Dict K V → List K
  keys [] = []
  keys ((k, v) ∷ d) = k ∷ keys d

  abbrev pub values : Dict K V → List V
  values [] = []
  values ((k, v) ∷ d) = v ∷ values d

module _ {ℓ κ} {K : Type ℓ} {V : Type κ} ⦃e : Eq K⦄ where
  -- `d.get(k)`
  unfoldable pub get : Dict K V → K → Option V
  get [] k = none
  get ((j, v) ∷ d) k = if j == k then some v else get d k

  -- `d[k] = v`
  unfoldable pub insert : Dict K V → K → V → Dict K V
  insert [] k v = (k, v) ∷ []
  insert ((j, w) ∷ d) k v = if j == k then (j, v) ∷ d else (j, w) ∷ insert d k v

  -- `d.pop(k, None)`
  unfoldable pub remove : Dict K V → K → Dict K V
  remove [] k = []
  remove ((j, w) ∷ d) k = let rest = remove d k in if j == k then rest else (j, w) ∷ rest

  -- `dict.fromkeys(ks, v)`
  unfoldable pub from_keys : List K → V → Dict K V
  from_keys [] v = []
  from_keys (k ∷ ks) v = (k, v) ∷ remove (from_keys ks v) k

  -- `d.setdefault(k, v)`
  unfoldable pub set_default : Dict K V → K → V → Dict K V
  unfolding get
  set_default d k v = if is_some (get d k) then d else insert d k v

  pub get-insert :
      (d : Dict K V) (k j : K) (v : V) → get (insert d k v) j ≡ (if k == j then some v else get d j)
  unfolding get insert
  get-insert [] k j v = refl
  get-insert ((i, w) ∷ d) k j v =
      ground (arith, e.is_same_iff k j, e.is_same_iff i k, e.is_same_iff i j, get-insert d k j v)

  pub get-remove :
      (d : Dict K V) (k j : K) → get (remove d k) j ≡ (if k == j then none else get d j)
  unfolding get remove
  get-remove [] k j = ground arith
  get-remove ((i, w) ∷ d) k j =
      ground (arith, e.is_same_iff k j, e.is_same_iff i k, e.is_same_iff i j, get-remove d k j)
