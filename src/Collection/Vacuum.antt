-- ===== src/Collection/Vacuum.antt =====
-- src/annex/db.py, src/annex/mvcc.py: the vacuum and the snapshots that are open.
use python_pj.Prelude.{
  ℕ, ◌≤◌, ◌≡◌, refl, ◌∙◌, inl, inr, some, List, [], ◌∷◌, leb, arith, nat_eq, string_eq, keep,
  Bool-cases, Option-cases,
}
use python_pj.Prelude.Dict.{Dict, get, remove, values, keys, get-remove}
use python_pj.Prelude.Members.{In}
use python_pj.Mvcc.{Version, SnapshotRegistry, horizon, lesser, least, min_default}
use python_pj.Collection.{Engines, Collection, reclaimable, remove_keys, vacuum}
use python_pj.Collection.Snapshots.{shown, seen}

-- The horizon is not after a snapshot that is open.
least-le : (x : ℕ) (ys : List ℕ) → least x ys ≤ x
least-le x [] = omega arith
least-le x (y ∷ ys) = ground (arith, least-le (lesser x y) ys)

least-In : (x y : ℕ) (ys : List ℕ) → In y ys → least x ys ≤ y
least-In x y [] i = elim i [ ]
least-In x y (z ∷ ys) (inl e) = ground (arith, e, least-le (lesser x z) ys)
least-In x y (z ∷ ys) (inr i) = least-In (lesser x z) y ys i

min_default-In : (current y : ℕ) (ys : List ℕ) → In y ys → min_default current ys ≤ y
min_default-In current y [] i = elim i [ ]
min_default-In current y (z ∷ ys) (inl e) = ground (arith, e, least-le z ys)
min_default-In current y (z ∷ ys) (inr i) = least-In z y ys i

pub horizon-In :
    (current y : ℕ) (r : SnapshotRegistry) → In y (values r.open_snapshots) → horizon current r ≤ y
unfolding horizon
horizon-In current y r i = min_default-In current y (values r.open_snapshots) i

module _ {J : Type 0} (snap : ℕ) where
  -- Taking out versions that are dead at a snapshot does not change what it shows.
  shown-remove :
      (key k : ℕ) (vs : Dict ℕ (Version J))
      → ((v : Version J) → get vs key ≡ some v → v.dead ≤ snap)
      → shown snap (get (remove vs key) k) ≡ shown snap (get vs k)
  shown-remove key k vs h = elim (Option-cases (get vs key)) [
    | inl e ↦ rw get-remove (ground (arith, e))
    | inr (v, e) ↦ rw get-remove (ground (arith, e, h v e))
  ]

  abbrev AllDead : Dict ℕ (Version J) → List ℕ → Type 0
  AllDead vs [] = Unit
  AllDead vs (k ∷ ks) = ((v : Version J) → get vs k ≡ some v → v.dead ≤ snap) × AllDead vs ks

  AllDead-remove :
      (vs : Dict ℕ (Version J)) (key : ℕ) (ks : List ℕ) → AllDead vs ks → AllDead (remove vs key) ks
  AllDead-remove vs key [] a = tt
  AllDead-remove vs key (k ∷ ks) (h, a) =
      (λ v e. h v (ground (arith, e, get-remove vs key k)), AllDead-remove vs key ks a)

  AllDead-keep :
      (oldest : ℕ) (vs : Dict ℕ (Version J)) (ks : List ℕ)
      → oldest ≤ snap
      → AllDead vs (keep (reclaimable oldest vs) ks)
  AllDead-keep oldest vs [] le = tt
  AllDead-keep oldest vs (k ∷ ks) le = elim (Option-cases (get vs k)) [
    | inl e ↦ rw e (AllDead-keep oldest vs ks le)
    | inr (v, e) ↦ elim (Bool-cases (leb v.dead oldest)) [
      | inl y ↦ rw (e, y) ((λ w f. ground (arith, e, f, y, le)), AllDead-keep oldest vs ks le)
      | inr y ↦ rw (e, y) (AllDead-keep oldest vs ks le)
    ]
  ]

module _ {R V J I T : Type 0} (x : Engines R V I T) (snap : ℕ) where
  seen-remove_keys :
      (ks : List ℕ) (c : Collection V J I T)
      → AllDead snap c.versions ks
      → (k : ℕ) → seen (remove_keys x ks c) snap k ≡ seen c snap k
  seen-remove_keys [] c a k = refl
  seen-remove_keys (key ∷ ks) c (h, a) k =
      seen-remove_keys ks _ (AllDead-remove snap c.versions key ks a) k
      ∙ shown-remove snap key k c.versions h

  -- A vacuum does not change what a reader at a snapshot that is open sees under any key.
  pub vacuum-seen :
      (c : Collection V J I T) (k : ℕ)
      → In snap (values c.snapshots.open_snapshots)
      → seen (vacuum x c).1 snap k ≡ seen c snap k
  unfolding vacuum
  vacuum-seen c k pinned =
      seen-remove_keys _ c
        (AllDead-keep snap (horizon c.store.seq c.snapshots) c.versions (keys c.versions)
          (horizon-In _ snap _ pinned))
        k
