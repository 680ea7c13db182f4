-- ===== src/Raft/Links.antt =====
-- src/annex/cluster/raft.py: logs whose entries a leader once appended. A link says that an entry was
-- appended to a log at an index, after an entry of a term, and by whom.
use python_pj.Prelude.{
  ℕ, zero, suc, ◌+◌, ◌-◌, ◌≤◌, ◌≡◌, refl, sym, ap, subst, ◌∙◌, inl, inr, some, List, [], ◌∷◌, ◌++◌,
  String, arith, eqb, leb, take, drop, length, get_elem?, Bool-cases, Option-cases, length-take,
  length-append, eqb_iff, false,
}
use native.Mathlib.Nat.{add-zero, add-suc, suc-add}
use python_pj.Prelude.Members.{In}
use python_pj.Raft.Types.{Command, LogEntry}
use python_pj.Raft.Index.{Contiguous, placed, placed_all, get_elem?-none, get_elem?-lt}

pub record Link (A : Type 0) : Type 0 where
  pub term : ℕ
  pub index : ℕ
  pub command : Command A
  pub prev : ℕ
  pub maker : String

take-all : {B : Type 0} (n : ℕ) (xs : List B) → length xs ≤ n → take n xs ≡ xs
take-all zero [] h = refl
take-all zero (x ∷ xs) h = absurd (omega (arith, h))
take-all (suc n) [] h = refl
take-all (suc n) (x ∷ xs) h = ap (λ ys. x ∷ ys) (take-all n xs (omega (arith, h)))

module _ {A : Type 0} where
  -- An entry was appended after an entry of the term `prev`.
  abbrev pub Linked : List (Link A) → ℕ → LogEntry A → Type 0
  Linked links prev e =
      (maker : String) × In
        (record { term = e.term; index = e.index; command = e.command; prev = prev; maker = maker })
        links

  -- The entries follow on from the index `i` and the term `t`, and each was appended there.
  abbrev pub Chain : List (Link A) → ℕ → ℕ → List (LogEntry A) → Type 0
  Chain links i t [] = Unit
  Chain links i t (e ∷ es) = (e.index ≡ suc i) × Linked links t e × Chain links (suc i) e.term es

  -- the term of the last entry, or the term before the entries
  abbrev pub end_term : ℕ → List (LogEntry A) → ℕ
  end_term t [] = t
  end_term t (e ∷ es) = end_term e.term es

  pub Chain-more :
      (links more : List (Link A)) (i t : ℕ) (es : List (LogEntry A))
      → ((l : Link A) → In l links → In l more)
      → Chain links i t es
      → Chain more i t es
  Chain-more links more i t [] h c = tt
  Chain-more links more i t (e ∷ es) h (at, (maker, l), c) =
      (at, (maker, h _ l), Chain-more links more (suc i) e.term es h c)

  pub Chain-Contiguous :
      (links : List (Link A)) (i t : ℕ) (es : List (LogEntry A))
      → Chain links i t es
      → Contiguous i es
  Chain-Contiguous links i t [] c = tt
  Chain-Contiguous links i t (e ∷ es) c = (c.0, Chain-Contiguous links (suc i) e.term es c.2)

  pub Chain-append :
      (links : List (Link A)) (i t : ℕ) (es : List (LogEntry A)) (e : LogEntry A)
      → Chain links i t es
      → e.index ≡ suc (i + length es)
      → Linked links (end_term t es) e
      → Chain links i t (es ++ e ∷ [])
  Chain-append links i t [] e c at l = (omega (arith, at), l, tt)
  Chain-append links i t (x ∷ xs) e c at l =
      (c.0, c.1, Chain-append links (suc i) x.term xs e c.2 (omega (arith, at)) l)

  pub Chain-take :
      (links : List (Link A)) (i t n : ℕ) (es : List (LogEntry A))
      → Chain links i t es
      → Chain links i t (take n es)
  Chain-take links i t zero es c = tt
  Chain-take links i t (suc n) [] c = tt
  Chain-take links i t (suc n) (e ∷ es) c = (c.0, c.1, Chain-take links (suc i) e.term n es c.2)

  pub Chain-drop :
      (links : List (Link A)) (i t n : ℕ) (es : List (LogEntry A))
      → Chain links i t es
      → n ≤ length es
      → Chain links (i + n) (end_term t (take n es)) (drop n es)
  Chain-drop links i t zero es c le = rw (add-zero i) c
  Chain-drop links i t (suc n) [] c le = tt
  Chain-drop links i t (suc n) (e ∷ es) c le =
      rw (add-suc i n, ← suc-add i n) (Chain-drop links (suc i) e.term n es c.2 (omega (arith, le)))

  -- the entry at a position, with its link
  pub Chain-at :
      (links : List (Link A)) (i t k : ℕ) (es : List (LogEntry A)) (x : LogEntry A)
      → Chain links i t es
      → get_elem? es k ≡ some x
      → (x.index ≡ suc (i + k))
        × Linked links (end_term t (take k es)) x
        × (end_term t (take (suc k) es) ≡ x.term)
  Chain-at links i t k [] x c e = absurd (cc)
  Chain-at links i t zero (y ∷ ys) x c e =
      let it : y ≡ x = cc e in
      subst (λ (z : LogEntry A). (z.index ≡ suc (i + 0)) × Linked links t z × (y.term ≡ z.term)) it
        (omega (arith, c.0), c.1, refl)
  Chain-at links i t (suc k) (y ∷ ys) x c e =
      let r = Chain-at links (suc i) y.term k ys x c.2 e in (omega (arith, r.0), r.1, r.2)

  end_term-append :
      (t n : ℕ) (es : List (LogEntry A)) (e : LogEntry A)
      → n ≡ length es
      → end_term t (take (suc n) (es ++ e ∷ [])) ≡ e.term
  end_term-append t zero [] e h = refl
  end_term-append t (suc n) [] e h = absurd (omega (arith, h))
  end_term-append t zero (x ∷ xs) e h = absurd (omega (arith, h))
  end_term-append t (suc n) (x ∷ xs) e h = end_term-append x.term n xs e (omega (arith, h))

  -- What holds of a log after an entry is placed at the index after `b`.
  abbrev Placed : List (Link A) → ℕ → LogEntry A → List (LogEntry A) → Type 0
  Placed links b e new =
      Chain links 0 0 new × (suc b ≤ length new) × (end_term 0 (take (suc b) new) ≡ e.term)

  snoc-Placed :
      (links : List (Link A)) (b : ℕ) (e : LogEntry A) (log : List (LogEntry A))
      → e.index ≡ suc b
      → b ≡ length log
      → Chain links 0 0 log
      → Linked links (end_term 0 log) e
      → Placed links b e (log ++ e ∷ [])
  snoc-Placed links b e log at whole c l = (
    Chain-append links 0 0 log e c (omega (arith, at, whole)) l,
    omega (arith, length-append log (e ∷ []), whole),
    end_term-append 0 b log e whole,
  )

  placed-Chain :
      (links : List (Link A)) (b : ℕ) (e : LogEntry A) (log : List (LogEntry A))
      → e.index ≡ suc b
      → b ≤ length log
      → Chain links 0 0 log
      → Linked links (end_term 0 (take b log)) e
      → Placed links b e (placed 0 e log)
  placed-Chain links b e log at le c l =
      let pos : e.index - 0 - 1 ≡ b = omega (arith, at) in
      let new : leb e.index 0 ≡ false = ground (arith, at) in
      rw (new, pos)
        (elim (Option-cases (get_elem? log b)) [
          | inl m ↦
              let whole : b ≡ length log = omega (arith, le, get_elem?-none log b m) in
              let all : take b log ≡ log = take-all b log (omega (arith, whole)) in
              rw m (
                snoc-Placed links b e log at whole c
                  (subst (λ xs. Linked links (end_term 0 xs) e) all l))
          | inr (x, m) ↦ rw m (elim (Bool-cases (eqb x.term e.term)) [
            | inl same ↦ rw same (
              c,
              omega (arith, get_elem?-lt log b m),
              (Chain-at links 0 0 b log x c m).2 ∙ (eqb_iff x.term e.term).0 same,
            )
            | inr other ↦
                let cut : b ≡ length (take b log) = omega (arith, length-take b log, le) in
                rw (other, pos)
                  (snoc-Placed links b e (take b log) at cut (Chain-take links 0 0 b log c) l)
          ])
        ])

  -- Entries that follow on from an entry of the log leave a log whose entries were all appended there.
  pub placed_all-Chain :
      (links : List (Link A)) (b t : ℕ) (es log : List (LogEntry A))
      → Chain links b t es
      → b ≤ length log
      → t ≡ end_term 0 (take b log)
      → Chain links 0 0 log
      → Chain links 0 0 (placed_all 0 es log)
  placed_all-Chain links b t [] log ce le same c = c
  placed_all-Chain links b t (e ∷ es) log (at, l, ce) le same c =
      let p = placed-Chain links b e log at le c (subst (λ u. Linked links u e) same l) in
      placed_all-Chain links (suc b) e.term es (placed 0 e log) ce p.1 (sym p.2) p.0

  -- Links of one term and one index are one link.
  abbrev pub Unique : List (Link A) → Type 0
  Unique links =
      (l m : Link A) → In l links → In m links → l.term ≡ m.term → l.index ≡ m.index → l ≡ m

  same_entry :
      (x y : LogEntry A) → x.term ≡ y.term → x.index ≡ y.index → x.command ≡ y.command → x ≡ y
  same_entry x y p q r = cc (p, q, r)

  -- Entries of one term at one index are one entry, after entries of one term.
  same_link :
      (links : List (Link A)) (xs ys : List (LogEntry A)) (k : ℕ) (x y : LogEntry A)
      → Unique links
      → Chain links 0 0 xs
      → Chain links 0 0 ys
      → get_elem? xs k ≡ some x
      → get_elem? ys k ≡ some y
      → x.term ≡ y.term
      → (x ≡ y) × (end_term 0 (take k xs) ≡ end_term 0 (take k ys))
  same_link links xs ys k x y u cx cy ex ey same =
      let (ix, (mx, lx), tx) = Chain-at links 0 0 k xs x cx ex in
      let (iy, (my, ly), ty) = Chain-at links 0 0 k ys y cy ey in
      let index : x.index ≡ y.index = ix ∙ sym iy in
      let one = u _ _ lx ly same index in
      (same_entry x y same index (ap (λ l. l.command) one), ap (λ l. l.prev) one)

  -- Two such logs that have entries of one term at an index are the same up to it.
  pub Chain-match :
      (links : List (Link A)) (xs ys : List (LogEntry A)) (k : ℕ) (x y : LogEntry A)
      → Unique links
      → Chain links 0 0 xs
      → Chain links 0 0 ys
      → get_elem? xs k ≡ some x
      → get_elem? ys k ≡ some y
      → x.term ≡ y.term
      → (j : ℕ) → j ≤ k
      → get_elem? xs j ≡ get_elem? ys j
  Chain-match links xs ys zero x y u cx cy ex ey same j le =
      let here : j ≡ 0 = omega (arith, le) in
      let one = (same_link links xs ys 0 x y u cx cy ex ey same).0 in
      rw here (ex ∙ ap some one ∙ sym ey)
  Chain-match links xs ys (suc k) x y u cx cy ex ey same j le =
      let (one, prev) = same_link links xs ys (suc k) x y u cx cy ex ey same in
      elim (Bool-cases (eqb j (suc k))) [
        | inl y1 ↦ rw ((eqb_iff j (suc k)).0 y1) (ex ∙ ap some one ∙ sym ey)
        | inr n ↦
            let below : j ≤ k = ground (arith, n, le) in
            elim (Option-cases (get_elem? xs k)) [
              | inl m ↦ absurd (omega (arith, get_elem?-none xs k m, get_elem?-lt xs (suc k) ex))
              | inr (v, ev) ↦ elim (Option-cases (get_elem? ys k)) [
                | inl m ↦ absurd (omega (arith, get_elem?-none ys k m, get_elem?-lt ys (suc k) ey))
                | inr (w, ew) ↦
                    let vt = (Chain-at links 0 0 k xs v cx ev).2 in
                    let wt = (Chain-at links 0 0 k ys w cy ew).2 in
                    Chain-match links xs ys k v w u cx cy ev ew (sym vt ∙ prev ∙ wt) j below
              ]
            ]
      ]
