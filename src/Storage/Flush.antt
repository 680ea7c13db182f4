-- ===== src/Storage/Flush.antt =====
-- src/annex/storage/lsm.py: flushing and compacting, and the relation of the files to the table.
use mathlib.Core.Option
use python_pj.Prelude.{
  ℕ, suc, ◌≡◌, refl, sym, ap, subst, ◌∙◌, inl, inr, String, false, Option, none, some, List, [],
  ◌∷◌, ◌++◌, arith, leb, eqb, length, length-append, string_eq, Bool-cases, Option-cases,
}
use python_pj.Prelude.Dict.{Dict, get, values}
use python_pj.Storage.Segment.{StoredRecord, clean, records-write_segment}
use python_pj.Storage.Lsm.{
  SegmentName, name_eq, LsmStore, apply_all, sort_by_id, flush_memtable, flush, after_mutation,
  visible,
}
use python_pj.Storage.Keyed.{apply_all-append, AllFrom-last_of, last_of-le, last_of-ge}
use python_pj.Storage.Replay.{
  or_else, last_of, Fits, get-apply_all, Bounded, AllFrom, DistinctIds-Fits,
}
use python_pj.Storage.Recovery.{Durable, wal_records, Numbered, Past}
use python_pj.Storage.Images.{
  get-insert_self, load-insert, load-append, image, last_of-image, image-DistinctIds, Numbered-New,
  Numbered-append,
}
use python_pj.Storage.Compacted.{compact-Durable}

-- A flush without the compaction.
module _ {V J : Type 0} (now : ℕ) (s : LsmStore V J) (d : Durable s) where
  abbrev recs : List (StoredRecord V J)
  recs = wal_records s.disk.wal

  abbrev base : Dict String (StoredRecord V J)
  base = apply_all d.base []

  abbrev flushed_name : SegmentName
  flushed_name = record { number = length s.segments; compacted = false; at = now }

  mem-image : (id : String) → last_of (image s.memtable) id ≡ Option.map clean (last_of recs id)
  mem-image id = last_of-image s.memtable id d.mem_keyed ∙ ap (Option.map clean) (d.mem id)

  clean-seq :
      (o : Option (StoredRecord V J)) (r : StoredRecord V J)
      → Option.map clean o ≡ some r
      → (x : StoredRecord V J) × (o ≡ some x) × (x.seq ≡ r.seq)
  clean-seq none r h = cc h
  clean-seq (some x) r h = (x, refl, ap (λ o. elim o as (λ _. ℕ) [ none ↦ 0 | some y ↦ y.seq ]) h)

  image-from : AllFrom d.low (image s.memtable)
  image-from =
      AllFrom-last_of d.low (image s.memtable) (image-DistinctIds s.memtable d.mem_keyed) (λ id r e.
        let (x, ex, q) = clean-seq (last_of recs id) r (sym (mem-image id) ∙ e) in
        let le = last_of-ge d.low recs id x d.rising ex in omega (arith, q, le))

  image-Fits : Fits base (image s.memtable)
  image-Fits =
      DistinctIds-Fits d.low (image s.memtable) base (λ id r x _ e. d.base_low id x e)
        (image-DistinctIds s.memtable d.mem_keyed) image-from

  get-flushed :
      (id : String)
      → get (apply_all (d.base ++ image s.memtable) []) id
        ≡ or_else (Option.map clean (last_of recs id)) (get base id)
  get-flushed id =
      ap (λ t. get t id) (apply_all-append d.base (image s.memtable) [])
      ∙ get-apply_all (image s.memtable) base id image-Fits
      ∙ ap (λ o. or_else o (get base id)) (mem-image id)

  flushed-low : Bounded s.seq (apply_all (d.base ++ image s.memtable) [])
  flushed-low id r e = elim (Option-cases (last_of recs id)) [
    | inl n ↦
        let e' : get base id ≡ some r = rw n at (sym (get-flushed id) ∙ e) in
        let q = d.base_low id r e' in omega (arith, q, d.low_top)
    | inr (x, ex) ↦
        let q = last_of-le s.seq recs id x d.wal_top ex in
        let w = rw ex at (sym (get-flushed id) ∙ e) in ground (arith, q, w)
  ]

  flushed-shown :
      (o b : Option (StoredRecord V J))
      → visible (or_else o b) ≡ visible (or_else (Option.map clean o) b)
  flushed-shown none b = refl
  flushed-shown (some r) b = ground arith

  pub flush_memtable-Durable : Durable (flush_memtable now s)
  unfolding flush_memtable
  flush_memtable-Durable = record {
    base = d.base ++ image s.memtable;
    loaded =
        load-append _ s.segments flushed_name d.base _
          (load-insert s.disk.files flushed_name _ s.segments (
              Numbered-New (length s.segments) (length s.segments) now s.segments d.numbered
                (omega arith))
            ∙ d.loaded)
          (get-insert_self s.disk.files flushed_name _)
        ∙ ap (λ l. some (d.base ++ l))
            (records-write_segment s.dim (sort_by_id (values s.memtable)));
    listed = refl;
    same_dim = refl;
    numbered =
        subst (λ (n : ℕ). Numbered n (s.segments ++ flushed_name ∷ []))
          (let e : suc (length s.segments) ≡ length (s.segments ++ flushed_name ∷ []) =
              omega (arith, length-append s.segments (flushed_name ∷ [])) in
            e)
          (Numbered-append (length s.segments) s.segments flushed_name d.numbered refl);
    low = s.seq;
    base_low = flushed-low;
    rising = tt;
    low_top = omega arith;
    wal_top = tt;
    table_top = d.table_top;
    mem = λ id. unfold get in refl;
    mem_keyed = tt;
    shown = λ id.
        d.shown id
        ∙ flushed-shown (last_of recs id) (get base id)
        ∙ ap visible (sym (get-flushed id));
  }

Past-flushed :
    (now n : ℕ) (names : List SegmentName)
    → Past now names
    → Past now (names ++ record { number = n; compacted = false; at = now } ∷ [])
Past-flushed now n [] p = ((λ e. cc e), tt)
Past-flushed now n (x ∷ xs) p = (p.0, Past-flushed now n xs p.1)

module _ {V J : Type 0} where
  -- On a durable store, with the clock past its compactions, a flush, with the compaction that it
  -- may start, succeeds and leaves a durable store.
  pub flush-Durable :
      (now : ℕ) (s : LsmStore V J)
      → Durable s
      → Past now s.segments
      → (t : LsmStore V J) × (flush now s ≡ some t) × Durable t
  unfolding flush
  flush-Durable now s d past = elim (Bool-cases (eqb (length s.memtable) 0)) [
    | inl e ↦ (s, rw e refl, d)
    | inr n ↦
        let s1 = flush_memtable now s in
        let d1 = flush_memtable-Durable now s d in
        elim (Bool-cases (leb s1.config.compaction_trigger (length s1.segments))) [
          | inl many ↦
              let c =
                compact-Durable now s1 d1
                  (unfold flush_memtable in Past-flushed now (length s.segments) s.segments past) in
              (c.0, rw (n, many) c.1, c.2)
          | inr few ↦ (s1, rw (n, few) refl, d1)
        ]
  ]

  pub after_mutation-Durable :
      (now : ℕ) (s : LsmStore V J)
      → Durable s
      → Past now s.segments
      → (t : LsmStore V J) × (after_mutation now s ≡ some t) × Durable t
  unfolding after_mutation
  after_mutation-Durable now s d past =
      let s1 : LsmStore V J = record s { mutations = suc s.mutations } in
      let d1 : Durable s1 = recounted in
      elim (Bool-cases (leb s1.config.memtable_max_records (length s1.memtable))) [
        | inl full ↦ let f = flush-Durable now s1 d1 past in (f.0, rw full f.1, f.2)
        | inr room ↦ (s1, rw room refl, d1)
      ]
    where
      recounted : Durable (record s { mutations = suc s.mutations })
      recounted = record {
        base = d.base;
        loaded = d.loaded;
        listed = d.listed;
        same_dim = d.same_dim;
        numbered = d.numbered;
        low = d.low;
        base_low = d.base_low;
        rising = d.rising;
        low_top = d.low_top;
        wal_top = d.wal_top;
        table_top = d.table_top;
        mem = d.mem;
        mem_keyed = d.mem_keyed;
        shown = d.shown;
      }
