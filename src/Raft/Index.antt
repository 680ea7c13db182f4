-- ===== src/Raft/Index.antt =====
-- src/annex/cluster/raft.py: the log as a list whose entries have consecutive indices.
use python_pj.Prelude.{
  ℕ, zero, suc, ◌+◌, ◌-◌, ◌≤◌, ◌<◌, ◌≡◌, refl, ap, ◌∙◌, inl, inr, false, lt→ltb, leb→le, Option,
  none, some, List, [], ◌∷◌, ◌++◌, arith, if◌then◌else◌, ltb, leb, eqb, keep, take, drop, length,
  get_elem?, last?, Bool-cases, Option-cases, All, length-append, length-take,
}
use native.Mathlib.Nat.{zero-add, add-zero, suc-add, add-suc}
use python_pj.Raft.Types.{LogEntry}

module _ {ℓ} {A : Type ℓ} where
  pub get_elem?-none : (xs : List A) (i : ℕ) → get_elem? xs i ≡ none → length xs ≤ i
  get_elem?-none [] i h = omega arith
  get_elem?-none (x ∷ xs) zero h = cc
  get_elem?-none (x ∷ xs) (suc i) h = omega (arith, get_elem?-none xs i h)

  pub get_elem?-lt : (xs : List A) (i : ℕ) {a : A} → get_elem? xs i ≡ some a → i < length xs
  get_elem?-lt [] i h = cc
  get_elem?-lt (x ∷ xs) zero h = omega arith
  get_elem?-lt (x ∷ xs) (suc i) h = omega (arith, get_elem?-lt xs i h)

  pub get_elem?-append_left :
      (xs ys : List A) (i : ℕ) → i < length xs → get_elem? (xs ++ ys) i ≡ get_elem? xs i
  get_elem?-append_left [] ys i h = absurd (omega arith)
  get_elem?-append_left (x ∷ xs) ys zero h = refl
  get_elem?-append_left (x ∷ xs) ys (suc i) h = get_elem?-append_left xs ys i (omega arith)

  pub get_elem?-append_at :
      (xs : List A) (y : A) (i : ℕ) → i ≡ length xs → get_elem? (xs ++ y ∷ []) i ≡ some y
  get_elem?-append_at [] y zero h = refl
  get_elem?-append_at [] y (suc i) h = absurd (omega arith)
  get_elem?-append_at (x ∷ xs) y zero h = absurd (omega arith)
  get_elem?-append_at (x ∷ xs) y (suc i) h = get_elem?-append_at xs y i (omega arith)

  pub get_elem?-take :
      (n : ℕ) (xs : List A) (i : ℕ) → i < n → get_elem? (take n xs) i ≡ get_elem? xs i
  get_elem?-take zero xs i h = absurd (omega arith)
  get_elem?-take (suc n) [] i h = refl
  get_elem?-take (suc n) (x ∷ xs) zero h = refl
  get_elem?-take (suc n) (x ∷ xs) (suc i) h = get_elem?-take n xs i (omega arith)

  pub get_elem?-drop :
      (n : ℕ) (xs : List A) (i : ℕ) → get_elem? (drop n xs) i ≡ get_elem? xs (n + i)
  get_elem?-drop zero xs i = rw (zero-add i) refl
  get_elem?-drop (suc n) [] i = refl
  get_elem?-drop (suc n) (x ∷ xs) i = rw (suc-add n i) (get_elem?-drop n xs i)

  pub drop-none : (n : ℕ) (xs : List A) → get_elem? xs n ≡ none → drop n xs ≡ []
  drop-none zero [] h = refl
  drop-none zero (x ∷ xs) h = cc
  drop-none (suc n) [] h = refl
  drop-none (suc n) (x ∷ xs) h = drop-none n xs h

  pub drop-some :
      (n : ℕ) (xs : List A) {a : A} → get_elem? xs n ≡ some a → drop n xs ≡ a ∷ drop (suc n) xs
  drop-some zero [] h = cc
  drop-some zero (x ∷ xs) h = ap (λ o. elim o as (λ _. List A) [ none ↦ xs | some y ↦ y ∷ xs ]) h
  drop-some (suc n) [] h = cc
  drop-some (suc n) (x ∷ xs) h = drop-some n xs h

module _ {A : Type 0} where
  -- The entries have the indices `base + 1`, `base + 2`, ….
  abbrev pub Contiguous : ℕ → List (LogEntry A) → Type 0
  Contiguous base [] = Unit
  Contiguous base (e ∷ es) = (e.index ≡ suc base) × Contiguous (suc base) es

  pub Contiguous-append :
      (b : ℕ) (xs : List (LogEntry A)) (e : LogEntry A)
      → Contiguous b xs
      → e.index ≡ suc (b + length xs)
      → Contiguous b (xs ++ e ∷ [])
  Contiguous-append b [] e c h = (omega arith, tt)
  Contiguous-append b (x ∷ xs) e c h = (c.0, Contiguous-append (suc b) xs e c.1 (omega arith))

  pub Contiguous-take :
      (b n : ℕ) (xs : List (LogEntry A)) → Contiguous b xs → Contiguous b (take n xs)
  Contiguous-take b zero xs c = tt
  Contiguous-take b (suc n) [] c = tt
  Contiguous-take b (suc n) (x ∷ xs) c = (c.0, Contiguous-take (suc b) n xs c.1)

  pub Contiguous-drop :
      (b n : ℕ) (xs : List (LogEntry A))
      → n ≤ length xs
      → Contiguous b xs
      → Contiguous (b + n) (drop n xs)
  Contiguous-drop b zero xs h c = rw (add-zero b) c
  Contiguous-drop b (suc n) [] h c = tt
  Contiguous-drop b (suc n) (x ∷ xs) h c =
      rw (add-suc b n, ← suc-add b n) (Contiguous-drop (suc b) n xs (omega arith) c.1)

  keep-drop :
      (b k n : ℕ) (xs : List (LogEntry A))
      → Contiguous b xs
      → n ≡ k - b
      → keep (λ (e : LogEntry A). ltb k e.index) xs ≡ drop n xs
  keep-drop b k zero [] c h = refl
  keep-drop b k (suc n) [] c h = refl
  keep-drop b k zero (x ∷ xs) c h =
      rw (lt→ltb k x.index (omega (arith, c.0)))
        (ap (◌∷◌ x) (keep-drop (suc b) k zero xs c.1 (omega arith)))
  keep-drop b k (suc n) (x ∷ xs) c h =
      let past : ltb k x.index ≡ false = ground (arith, c.0) in
      rw past (keep-drop (suc b) k n xs c.1 (omega arith))

  -- Keeping the entries past an index is dropping those up to it.
  pub keep-Contiguous :
      (b k : ℕ) (xs : List (LogEntry A))
      → Contiguous b xs
      → keep (λ (e : LogEntry A). ltb k e.index) xs ≡ drop (k - b) xs
  keep-Contiguous b k xs c = keep-drop b k (k - b) xs c refl

  pub last-index :
      (b : ℕ) (xs : List (LogEntry A)) {e : LogEntry A}
      → Contiguous b xs
      → last? xs ≡ some e
      → e.index ≡ b + length xs
  last-index b [] c h = cc
  last-index b (x ∷ []) c h = ground (arith, c.0)
  last-index b (x ∷ y ∷ ys) c h = omega (arith, last-index (suc b) (y ∷ ys) c.1 h)

  -- The place of an entry in a log that starts after `s`, as `_on_append` writes it.
  abbrev pub place : ℕ → LogEntry A → Option (LogEntry A) → List (LogEntry A) → List (LogEntry A)
  place s e none log = log ++ e ∷ []
  place s e (some x) log = if eqb x.term e.term then log else take (e.index - s - 1) log ++ e ∷ []

  abbrev pub placed : ℕ → LogEntry A → List (LogEntry A) → List (LogEntry A)
  placed s e log = if leb e.index s then log else place s e (get_elem? log (e.index - s - 1)) log

  abbrev pub placed_all : ℕ → List (LogEntry A) → List (LogEntry A) → List (LogEntry A)
  placed_all s [] log = log
  placed_all s (e ∷ es) log = placed_all s es (placed s e log)

-- One entry, whose index is at most one past the end of the log.
module _ {A : Type 0} (s b : ℕ) (e : LogEntry A) (log : List (LogEntry A)) (at : e.index ≡ suc b)
    (fits : b ≤ s + length log) (c : Contiguous s log) where
  -- What holds of the log after the entry is placed.
  abbrev Placed : List (LogEntry A) → Type 0
  Placed new =
      Contiguous s new
      × (suc b ≤ s + length new)
      × ((i : ℕ) → s + i < b → get_elem? new i ≡ get_elem? log i)
      × (s ≤ b → (x : LogEntry A) × (get_elem? new (b - s) ≡ some x) × (x.term ≡ e.term))

  place-none : s ≤ b → get_elem? log (b - s) ≡ none → Placed (log ++ e ∷ [])
  place-none h m =
      let whole : b ≡ s + length log = omega (arith, get_elem?-none log (b - s) m) in
      (
        Contiguous-append s log e c (omega arith),
        omega (arith, length-append log (e ∷ [])),
        (λ i lt. get_elem?-append_left log (e ∷ []) i (omega arith)),
        (λ _. (e, get_elem?-append_at log e (b - s) (omega arith), refl)),
      )

  place-cut : s ≤ b → b - s < length log → Placed (take (b - s) log ++ e ∷ [])
  place-cut h m =
      let cut : length (take (b - s) log) ≡ b - s = omega (arith, length-take (b - s) log) in
      (
        Contiguous-append s _ e (Contiguous-take s (b - s) log c) (omega arith),
        omega (arith, length-append (take (b - s) log) (e ∷ [])),
        (λ i lt.
            get_elem?-append_left _ (e ∷ []) i (omega arith)
            ∙ get_elem?-take (b - s) log i (omega arith)),
        (λ _. (e, get_elem?-append_at _ e (b - s) (omega arith), refl)),
      )

  place-some :
      s ≤ b
      → (x : LogEntry A) → get_elem? log (b - s) ≡ some x
      → Placed (if eqb x.term e.term then log else take (b - s) log ++ e ∷ [])
  place-some h x m = elim (Bool-cases (eqb x.term e.term)) [
    | inl same ↦
        rw same
          (c, omega (arith, get_elem?-lt log (b - s) m), (λ i lt. refl), λ _. (x, m, ground arith))
    | inr other ↦ rw other (place-cut h (get_elem?-lt log (b - s) m))
  ]

  pub placed-Placed : Placed (placed s e log)
  placed-Placed =
      let pos : e.index - s - 1 ≡ b - s = omega arith in
      elim (Bool-cases (leb e.index s)) [
        | inl old ↦ rw old (
          c,
          omega (arith, leb→le _ _ old),
          (λ i lt. refl),
          λ h. absurd (omega (arith, leb→le _ _ old)),
        )
        | inr new ↦
            rw (new, pos)
              (elim (Option-cases (get_elem? log (b - s))) [
                | inl m ↦ rw m (place-none (ground arith) m)
                | inr (x, m) ↦ rw m (rw pos (place-some (ground arith) x m))
              ])
      ]

module _ {A : Type 0} where
  -- Entries that follow on from `b` are in the log afterwards, and the log is still contiguous.
  pub placed_all-Contiguous :
      (s b : ℕ) (es log : List (LogEntry A))
      → Contiguous b es
      → b ≤ s + length log
      → Contiguous s log
      → Contiguous s (placed_all s es log)
  placed_all-Contiguous s b [] log ce h c = c
  placed_all-Contiguous s b (e ∷ es) log ce h c =
      let p = placed-Placed s b e log ce.0 h c in
      placed_all-Contiguous s (suc b) es (placed s e log) ce.1 p.1 p.0

  -- What stands below the entries is not touched.
  pub placed_all-below :
      (s b : ℕ) (es log : List (LogEntry A))
      → Contiguous b es
      → b ≤ s + length log
      → Contiguous s log
      → (i : ℕ) → s + i < b
      → get_elem? (placed_all s es log) i ≡ get_elem? log i
  placed_all-below s b [] log ce h c i lt = refl
  placed_all-below s b (e ∷ es) log ce h c i lt =
      let p = placed-Placed s b e log ce.0 h c in
      placed_all-below s (suc b) es (placed s e log) ce.1 p.1 p.0 i (omega arith) ∙ p.2 i lt

  -- The log has an entry of the same term at the index of `e`, unless it starts after it.
  abbrev pub Agrees : ℕ → List (LogEntry A) → LogEntry A → Type 0
  Agrees s log e =
      s < e.index
      → (x : LogEntry A) × (get_elem? log (e.index - s - 1) ≡ some x) × (x.term ≡ e.term)

  pub placed_all-Agrees :
      (s b : ℕ) (es log : List (LogEntry A))
      → Contiguous b es
      → b ≤ s + length log
      → Contiguous s log
      → All (Agrees s (placed_all s es log)) es
  placed_all-Agrees s b [] log ce h c = tt
  placed_all-Agrees s b (e ∷ es) log ce h c =
      let p = placed-Placed s b e log ce.0 h c in
      (
        (λ lt.
            let pos : e.index - s - 1 ≡ b - s = omega (arith, ce.0) in
            let there = p.3 (omega (arith, ce.0)) in
            (
              there.0,
              ap (get_elem? (placed_all s es (placed s e log))) pos
                  ∙ placed_all-below s (suc b) es (placed s e log) ce.1 p.1 p.0 (b - s)
                      (omega (arith, ce.0))
                  ∙ there.1,
              there.2,
            )),
        placed_all-Agrees s (suc b) es (placed s e log) ce.1 p.1 p.0,
      )

  -- The log reaches to the last of the entries.
  pub placed_all-reaches :
      (s b : ℕ) (es log : List (LogEntry A))
      → Contiguous b es
      → b ≤ s + length log
      → Contiguous s log
      → b + length es ≤ s + length (placed_all s es log)
  placed_all-reaches s b [] log ce h c = omega arith
  placed_all-reaches s b (e ∷ es) log ce h c =
      let p = placed-Placed s b e log ce.0 h c in
      omega (arith, placed_all-reaches s (suc b) es (placed s e log) ce.1 p.1 p.0)

pub drop-past {ℓ} : {A : Type ℓ} (n : ℕ) (xs : List A) → length xs ≤ n → drop n xs ≡ []
drop-past zero [] h = refl
drop-past zero (x ∷ xs) h = absurd (omega arith)
drop-past (suc n) [] h = refl
drop-past (suc n) (x ∷ xs) h = drop-past n xs (omega arith)
