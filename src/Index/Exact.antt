-- ===== src/Index/Exact.antt =====
-- src/annex/index/space.py: `VectorSpace` with its growth, and `ExactSpace`. `blank` is a row of zeros;
-- `rows` are all rows of the buffer. `int(capacity * 1.6)` is taken as a whole quotient, as the product
-- of floats gives it below 2 ^ 49.
use python_pj.Prelude.{
  ℕ, zero, suc, ◌+◌, ◌-◌, ◌*◌, ◌/◌, ◌≤◌, ◌<◌, ◌≡◌, ◌≢◌, refl, ap, ◌∙◌, inl, inr, Option, some, List,
  [], ◌∷◌, ◌++◌, Bool-cases, arith, if◌then◌else◌, ltb, length, length-append, get_elem?, max,
}

pub record ExactSpace (V : Type 0) : Type 0 where
  pub rows : List V
  pub capacity : ℕ
  pub count : ℕ

-- `np.zeros((n, dim))`
unfoldable pub blanks : {V : Type 0} → V → ℕ → List V
blanks blank zero = []
blanks blank (suc n) = blank ∷ blanks blank n

-- `buf[key] = vector`
unfoldable pub set_row : {V : Type 0} → List V → ℕ → V → List V
set_row [] key v = []
set_row (r ∷ rs) zero v = v ∷ rs
set_row (r ∷ rs) (suc key) v = r ∷ set_row rs key v

module _ {V : Type 0} (blank : V) where
  unfoldable pub new_exact : ℕ → ExactSpace V
  unfolding blanks
  new_exact capacity = record {
    rows = blanks blank (max capacity 1);
    capacity = max capacity 1;
    count = 0;
  }

  -- a new buffer with the old rows in front
  unfoldable pub grow : ℕ → ExactSpace V → ExactSpace V
  unfolding blanks
  grow new_cap s = record s {
    rows = s.rows ++ blanks blank (new_cap - length s.rows);
    capacity = new_cap;
  }

  unfoldable pub ensure : ℕ → ExactSpace V → ExactSpace V
  unfolding grow
  ensure key s =
      let grown =
        if ltb s.capacity (key + 1) then grow (max (s.capacity * 8 / 5 + 1) (key + 1)) s else s in
      record grown { count = max grown.count (key + 1) }

  unfoldable pub set_vector : ℕ → V → ExactSpace V → ExactSpace V
  unfolding ensure set_row
  set_vector key v s = let e = ensure key s in record e { rows = set_row e.rows key v }

  -- none outside the buffer, where numpy raises
  unfoldable pub get_vector : ExactSpace V → ℕ → Option V
  get_vector s key = get_elem? s.rows key

  -- The buffer has as many rows as its capacity, and no key in use is outside it.
  pub record IsFit (s : ExactSpace V) : Type 0 where
    pub full : length s.rows ≡ s.capacity
    pub within : s.count ≤ s.capacity

  length-blanks : (n : ℕ) → length (blanks blank n) ≡ n
  unfolding blanks
  length-blanks zero = refl
  length-blanks (suc n) = ap suc (length-blanks n)

  length-set_row : (rows : List V) (key : ℕ) (v : V) → length (set_row rows key v) ≡ length rows
  unfolding set_row
  length-set_row [] key v = refl
  length-set_row (r ∷ rs) zero v = refl
  length-set_row (r ∷ rs) (suc key) v = ap suc (length-set_row rs key v)

  get_elem?-set_row :
      (rows : List V) (key : ℕ) (v : V)
      → key < length rows
      → get_elem? (set_row rows key v) key ≡ some v
  unfolding set_row
  get_elem?-set_row [] key v h = absurd (omega (arith, h))
  get_elem?-set_row (r ∷ rs) zero v h = refl
  get_elem?-set_row (r ∷ rs) (suc key) v h = get_elem?-set_row rs key v (omega (arith, h))

  get_elem?-set_row_other :
      (rows : List V) (key j : ℕ) (v : V)
      → j ≢ key
      → get_elem? (set_row rows key v) j ≡ get_elem? rows j
  unfolding set_row
  get_elem?-set_row_other [] key j v ne = refl
  get_elem?-set_row_other (r ∷ rs) zero zero v ne = absurd (ne refl)
  get_elem?-set_row_other (r ∷ rs) zero (suc j) v ne = refl
  get_elem?-set_row_other (r ∷ rs) (suc key) zero v ne = refl
  get_elem?-set_row_other (r ∷ rs) (suc key) (suc j) v ne =
      get_elem?-set_row_other rs key j v (λ e. ne (ap suc e))

  get_elem?-append :
      (xs ys : List V) (j : ℕ) (v : V) → get_elem? xs j ≡ some v → get_elem? (xs ++ ys) j ≡ some v
  get_elem?-append [] ys j v h = absurd (cc)
  get_elem?-append (x ∷ xs) ys zero v h = h
  get_elem?-append (x ∷ xs) ys (suc j) v h = get_elem?-append xs ys j v h

  -- room for the key, and the old rows
  record Fits (key : ℕ) (s e : ExactSpace V) : Type 0 where
    fit : IsFit e
    room : key < length e.rows
    kept : (j : ℕ) (w : V) → get_elem? s.rows j ≡ some w → get_elem? e.rows j ≡ some w
    counted : e.count ≡ max s.count (key + 1)

  ensure-Fits : (key : ℕ) (s : ExactSpace V) → IsFit s → Fits key s (ensure key s)
  unfolding ensure grow
  ensure-Fits key s f = elim (Bool-cases (ltb s.capacity (key + 1))) [
    | inl y ↦
        let new_cap : ℕ = max (s.capacity * 8 / 5 + 1) (key + 1) in
        let more : List V = blanks blank (new_cap - length s.rows) in
        let size = length-append s.rows more in
        let added = length-blanks (new_cap - length s.rows) in
        let short : s.capacity < key + 1 = ground (arith, y) in
        rw y (record {
          fit = record {
            full = omega (arith, size, added, f.full, short);
            within = omega (arith, f.within, short);
          };
          room = omega (arith, size, added, f.full, short);
          kept = λ j w h. get_elem?-append s.rows more j w h;
          counted = refl;
        })
    | inr y ↦
        let long : key + 1 ≤ s.capacity = ground (arith, y) in
        rw y (record {
          fit = record { full = f.full; within = omega (arith, f.within, long) };
          room = omega (arith, f.full, long);
          kept = λ j w h. h;
          counted = refl;
        })
  ]

  -- Storing a vector under any key of a fit space leaves it fit, gives the vector back under the key and
  -- what was stored under every other one, and counts up to the key.
  pub get_vector-set_vector :
      (key : ℕ) (v : V) (s : ExactSpace V)
      → IsFit s
      → IsFit (set_vector key v s)
        × (get_vector (set_vector key v s) key ≡ some v)
        × ((j : ℕ) (w : V)
            → j ≢ key
            → get_vector s j ≡ some w
            → get_vector (set_vector key v s) j ≡ some w)
        × ((set_vector key v s).count ≡ max s.count (key + 1))
  unfolding set_vector get_vector
  get_vector-set_vector key v s f =
      let e = ensure-Fits key s f in
      let rows : List V = (ensure key s).rows in
      (
        record {
          full = omega (arith, length-set_row rows key v, e.fit.full);
          within = e.fit.within;
        },
        get_elem?-set_row rows key v e.room,
        (λ j w ne h. get_elem?-set_row_other rows key j v ne ∙ e.kept j w h),
        e.counted,
      )
