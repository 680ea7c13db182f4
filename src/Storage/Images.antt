-- ===== src/Storage/Images.antt =====
-- src/annex/storage/lsm.py: what loading the segments gives when there is one more, and the records of
-- a segment made from a table.
use mathlib.Core.Option
use mathlib.Core.List.{append-nil, append_assoc}
use python_pj.Prelude.{
  ℕ, suc, ◌≤◌, ◌≡◌, refl, sym, ap, subst, ◌∙◌, inl, inr, String, true, false, Option, none, some,
  List, [], ◌∷◌, ◌++◌, map, arith, keep, string_eq, eq_refl, Option-cases,
}
use python_pj.Prelude.Dict.{Dict, get, insert, remove, values, get-insert, get-remove}
use python_pj.Storage.Segment.{StoredRecord, Segment, clean, records}
use python_pj.Storage.Lsm.{
  SegmentName, same_name, name_eq, sort_by_id, load, remove_files, visible, is_live,
}
use python_pj.Storage.Keyed.{
  Keyed, last_of-values, DistinctIds-values, last_of-live, DistinctIds-live, last_of-clean,
  DistinctIds-clean,
}
use python_pj.Storage.Replay.{
  or_else, last_of, DistinctIds, last_of-sort_by_id, DistinctIds-sort_by_id,
}
use python_pj.Storage.Recovery.{Numbered, Past}

-- A name that none of some segments has.
abbrev New : SegmentName → List SegmentName → Type 0
New n [] = Unit
New n (m ∷ ms) = (same_name n m ≡ false) × New n ms

pub get-insert_self :
    {W : Type 0} (files : Dict SegmentName W) (n : SegmentName) (g : W)
    → get (insert files n g) n ≡ some g
get-insert_self files n g = rw (get-insert, eq_refl n) refl

pub or_else-none : {V J : Type 0} (o : Option (StoredRecord V J)) → or_else o none ≡ o
or_else-none none = refl
or_else-none (some r) = refl

module _ {V J : Type 0} where
  -- A file under a new name does not change what is loaded.
  pub load-insert :
      (files : Dict SegmentName (Segment V J)) (n : SegmentName) (g : Segment V J)
      (names : List SegmentName)
      → New n names
      → load (insert files n g) names ≡ load files names
  unfolding load
  load-insert files n g [] h = refl
  load-insert files n g (m ∷ ms) h = rw (get-insert, h.0, load-insert files n g ms h.1) refl

  pub load-append :
      (files : Dict SegmentName (Segment V J)) (names : List SegmentName) (n : SegmentName)
      (rs : List (StoredRecord V J)) (g : Segment V J)
      → load files names ≡ some rs
      → get files n ≡ some g
      → load files (names ++ n ∷ []) ≡ some (rs ++ records g)
  unfolding load
  load-append files [] n rs g h e =
      let p : [] ≡ rs = cc h in
      rw e (
        subst (λ (l : List (StoredRecord V J)). some (records g ++ []) ≡ some (l ++ records g)) p
          (ap some (append-nil (records g))))
  load-append files (m ∷ ms) n rs g h e = elim (Option-cases (get files m)) [
    | inl em ↦ absurd (let q = rw em at h in cc q)
    | inr (x, em) ↦ elim (Option-cases (load files ms)) [
      | inl el ↦ absurd (let q = rw (em, el) at h in cc q)
      | inr (rest, el) ↦
          let q : records x ++ rest ≡ rs = (let w = rw (em, el) at h in cc w) in
          rw (em, load-append files ms n rest g el e)
            (ap some (sym (append_assoc (records x) rest (records g)) ∙ ap (λ l. l ++ records g) q))
    ]
  ]

  pub get-remove_files :
      (names : List SegmentName) (files : Dict SegmentName (Segment V J)) (n : SegmentName)
      → New n names
      → get (remove_files names files) n ≡ get files n
  unfolding remove_files
  get-remove_files [] files n h = refl
  get-remove_files (m ∷ ms) files n h =
      get-remove_files ms (remove files m) n h.1 ∙ get-remove files m n ∙ ground (arith, h.0)

  -- The records of a segment made from a table with each record under its name.
  abbrev pub image : Dict String (StoredRecord V J) → List (StoredRecord V J)
  image t = map clean (sort_by_id (values t))

  pub last_of-image :
      (t : Dict String (StoredRecord V J)) (id : String)
      → Keyed t
      → last_of (image t) id ≡ Option.map clean (get t id)
  last_of-image t id k =
      last_of-clean (sort_by_id (values t)) id
      ∙ ap (Option.map clean)
          (last_of-sort_by_id (values t) id (DistinctIds-values t k) ∙ last_of-values t id k)

  pub image-DistinctIds : (t : Dict String (StoredRecord V J)) → Keyed t → DistinctIds (image t)
  image-DistinctIds t k =
      DistinctIds-clean (sort_by_id (values t))
        (DistinctIds-sort_by_id (values t) (DistinctIds-values t k))

  abbrev pub live_image : Dict String (StoredRecord V J) → List (StoredRecord V J)
  live_image t = map clean (keep is_live (sort_by_id (values t)))

  pub last_of-live_image :
      (t : Dict String (StoredRecord V J)) (id : String)
      → Keyed t
      → last_of (live_image t) id ≡ Option.map clean (visible (get t id))
  last_of-live_image t id k =
      last_of-clean (keep is_live (sort_by_id (values t))) id
      ∙ ap (Option.map clean) (
          last_of-live (sort_by_id (values t)) id
            (DistinctIds-sort_by_id (values t) (DistinctIds-values t k))
          ∙ ap visible
              (last_of-sort_by_id (values t) id (DistinctIds-values t k) ∙ last_of-values t id k))

  pub live_image-DistinctIds :
      (t : Dict String (StoredRecord V J)) → Keyed t → DistinctIds (live_image t)
  live_image-DistinctIds t k = DistinctIds-clean (keep is_live (sort_by_id (values t))) (
      DistinctIds-live (sort_by_id (values t))
        (DistinctIds-sort_by_id (values t) (DistinctIds-values t k)))

pub Numbered-New :
    (n m : ℕ) (now : ℕ) (names : List SegmentName)
    → Numbered n names
    → n ≤ m
    → New (record { number = m; compacted = false; at = now }) names
Numbered-New n m now [] h le = tt
Numbered-New n m now (x ∷ xs) h le = (ground (arith, h.0), Numbered-New n m now xs h.1 le)

pub Numbered-append :
    (n : ℕ) (names : List SegmentName) (x : SegmentName)
    → Numbered n names
    → x.number ≡ n
    → Numbered (suc n) (names ++ x ∷ [])
Numbered-append n [] x h e = ((λ _. omega arith), tt)
Numbered-append n (y ∷ ys) x h e =
    ((λ p. let q = h.0 p in omega (arith, q)), Numbered-append n ys x h.1 e)

pub Past-New :
    (now m : ℕ) (names : List SegmentName)
    → Past now names
    → New (record { number = m; compacted = true; at = now }) names
Past-New now m [] h = tt
Past-New now m (x ∷ xs) h = (ground (arith, h.0), Past-New now m xs h.1)
