-- ===== src/Index/Entry.antt =====
-- src/annex/index/hnsw.py: the entry point that `_unlink` picks anew.
use python_pj.Prelude.{
  ℕ, suc, ◌≤◌, ◌≡◌, refl, sym, ap, ◌⊎◌, inl, inr, true, false, not, ◌||◌, Option, none, some, [],
  ◌∷◌, Bool-cases, arith, ltb, eqb, eqb_iff, nat_eq, is_some, All,
}
use python_pj.Prelude.Dict.{Dict, get}
use python_pj.Prelude.Members.{In}
use python_pj.Prelude.Once.{Once}
use python_pj.Index.Hnsw.{pick_entry}

pub get-In : (d : Dict ℕ ℕ) (k v : ℕ) → get d k ≡ some v → In (k, v) d
unfolding get
get-In [] k v h = absurd (cc)
get-In ((j, w) ∷ d) k v h = elim (Bool-cases (eqb j k)) [
  | inl y ↦
      let same : some w ≡ some v = rw y at h in let key : j ≡ k = (eqb_iff j k).0 y in inl (cc)
  | inr y ↦ inr (get-In d k v (rw y at h))
]

pub In-get : (d : Dict ℕ ℕ) (k v : ℕ) → Once d → In (k, v) d → get d k ≡ some v
unfolding get
In-get [] k v o i = absurd i
In-get ((j, w) ∷ d) k v o i = elim i [
  | inl e ↦
      let key : k ≡ j = ap (λ (x : ℕ × ℕ). x.0) e in
      let value : v ≡ w = ap (λ (x : ℕ × ℕ). x.1) e in
      let same : eqb j k ≡ true = (eqb_iff j k).1 (sym key) in rw same (rw value refl)
  | inr l ↦ elim (Bool-cases (eqb j k)) [
    | inl y ↦
        let later = In-get d k v o.1 l in
        let key : j ≡ k = (eqb_iff j k).0 y in
        let gone : get d k ≡ none = rw (← key) o.0 in absurd (cc)
    | inr y ↦ rw y (In-get d k v o.1 l)
  ]
]

-- The pick is the best so far or a node of the list with its level plus one, and no level is higher.
pub record IsPick (ls : Dict ℕ ℕ) (best picked : Option ℕ × ℕ) : Type 0 where
  pub no_lower : best.1 ≤ picked.1
  pub highest : All (λ x. suc x.1 ≤ picked.1) ls
  pub from : (picked ≡ best) ⊎ ((k lvl : ℕ) × (picked ≡ (some k, suc lvl)) × In (k, lvl) ls)

abbrev pub Fitting : Option ℕ × ℕ → Type 0
Fitting best = best.0 ≡ none → best.1 ≡ 0

pub pick_entry-IsPick :
    (ls : Dict ℕ ℕ) (best : Option ℕ × ℕ) → Fitting best → IsPick ls best (pick_entry ls best)
unfolding pick_entry
pick_entry-IsPick [] best fit = record { no_lower = omega arith; highest = tt; from = inl refl }
pick_entry-IsPick ((k, lvl) ∷ ls) best fit =
    elim (Bool-cases (not (is_some best.0) || ltb best.1 (suc lvl))) [
      | inl y ↦
          let p = pick_entry-IsPick ls (some k, suc lvl) (λ e. absurd (cc)) in
          rw y (record {
            no_lower = omega (arith, p.no_lower, below_pick best lvl fit y);
            highest = (p.no_lower, p.highest);
            from = elim p.from [
              | inl e ↦ inr (k, lvl, e, inl refl)
              | inr (j, m, e, i) ↦ inr (j, m, e, inr i)
            ];
          })
      | inr y ↦
          let p = pick_entry-IsPick ls best fit in
          rw y (record {
            no_lower = p.no_lower;
            highest = (omega (arith, p.no_lower, above_pick best lvl y), p.highest);
            from = elim p.from [ inl e ↦ inl e | inr (j, m, e, i) ↦ inr (j, m, e, inr i) ];
          })
    ]
  where
    below_pick :
        (best : Option ℕ × ℕ) (lvl : ℕ)
        → Fitting best
        → (not (is_some best.0) || ltb best.1 (suc lvl)) ≡ true
        → best.1 ≤ suc lvl
    below_pick (none, n) lvl fit y = omega (arith, fit refl)
    below_pick (some e, n) lvl fit y = ground (arith, y)

    above_pick :
        (best : Option ℕ × ℕ) (lvl : ℕ)
        → (not (is_some best.0) || ltb best.1 (suc lvl)) ≡ false
        → suc lvl ≤ best.1
    above_pick (none, n) lvl y = absurd (cc)
    above_pick (some e, n) lvl y = ground (arith, y)
