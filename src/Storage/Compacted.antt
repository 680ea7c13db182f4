-- ===== src/Storage/Compacted.antt =====
-- src/annex/storage/lsm.py: compacting, and the relation of the files to the table.
use mathlib.Core.Option
use python_pj.Prelude.{
  ℕ, ◌≡◌, refl, sym, ap, ◌∙◌, inl, inr, String, true, Option, none, some, List, [], ◌∷◌, arith, ltb,
  keep, length, string_eq, Bool-cases,
}
use python_pj.Prelude.Dict.{Dict, get, insert, values}
use python_pj.Storage.Segment.{StoredRecord, clean, write_segment, records-write_segment}
use python_pj.Storage.Lsm.{
  SegmentName, name_eq, LsmStore, apply_all, sort_by_id, load, remove_files, merge_into, compact,
  visible, is_live,
}
use python_pj.Storage.Keyed.{Keyed, Keyed-apply_all, AllFrom-last_of}
use python_pj.Storage.Replay.{or_else, last_of, Fits, get-apply_all, Bounded, DistinctIds-Fits}
use python_pj.Storage.Recovery.{Durable, wal_records, Past}
use python_pj.Storage.Images.{
  get-insert_self, or_else-none, load-append, get-remove_files, live_image, last_of-live_image,
  live_image-DistinctIds, Past-New,
}

module _ {V J : Type 0} (now : ℕ) (s : LsmStore V J) (d : Durable s) where
  abbrev pub recs : List (StoredRecord V J)
  recs = wal_records s.disk.wal

  -- A compaction, with a name that no segment has.
  abbrev merged : Dict String (StoredRecord V J)
  merged = apply_all d.base []

  abbrev compacted_name : SegmentName
  compacted_name = record { number = length s.segments; compacted = true; at = now }

  merged-Keyed : Keyed merged
  merged-Keyed = Keyed-apply_all d.base [] tt

  compacted-Fits : Fits [] (live_image merged)
  compacted-Fits =
      DistinctIds-Fits 0 (live_image merged) [] (λ id r x _ e. absurd (unfold get in cc e))
        (live_image-DistinctIds merged merged-Keyed)
        (AllFrom-last_of 0 (live_image merged) (live_image-DistinctIds merged merged-Keyed)
          (λ id r e. omega arith))

  get-compacted :
      (id : String)
      → get (apply_all (live_image merged) []) id ≡ Option.map clean (visible (get merged id))
  unfolding get
  get-compacted id =
      get-apply_all (live_image merged) [] id compacted-Fits
      ∙ or_else-none (last_of (live_image merged) id)
      ∙ last_of-live_image merged id merged-Keyed

  visible-seq :
      (o : Option (StoredRecord V J)) (r : StoredRecord V J)
      → Option.map clean (visible o) ≡ some r
      → (x : StoredRecord V J) × (o ≡ some x) × (x.seq ≡ r.seq)
  visible-seq none r h = cc h
  visible-seq (some x) r h = (x, refl, ground (arith, h))

  compacted-low : Bounded d.low (apply_all (live_image merged) [])
  compacted-low id r e =
      let (x, ex, q) = visible-seq (get merged id) r (sym (get-compacted id) ∙ e) in
      let le = d.base_low id x ex in omega (arith, q, le)

  compacted-shown :
      (o b : Option (StoredRecord V J))
      → visible (or_else o b) ≡ visible (or_else o (Option.map clean (visible b)))
  compacted-shown (some r) b = refl
  compacted-shown none none = refl
  compacted-shown none (some x) = ground arith

  merged-loaded :
      Past now s.segments
      → load
          (remove_files s.segments (
            insert s.disk.files compacted_name
              (write_segment s.dim (keep is_live (sort_by_id (values merged))))))
          (compacted_name ∷ [])
        ≡ some (live_image merged)
  unfolding load
  merged-loaded past =
      load-append _ [] compacted_name [] _ refl (
        get-remove_files s.segments _ compacted_name
          (Past-New now (length s.segments) s.segments past)
        ∙ get-insert_self s.disk.files compacted_name _)
      ∙ ap some (records-write_segment s.dim (keep is_live (sort_by_id (values merged))))

  merge_into-Durable : Past now s.segments → Durable (merge_into compacted_name d.base s)
  unfolding merge_into
  merge_into-Durable past = record {
    base = live_image merged;
    loaded = merged-loaded past;
    listed = refl;
    same_dim = refl;
    numbered = ((λ e. cc e), tt);
    low = d.low;
    base_low = compacted-low;
    rising = d.rising;
    low_top = d.low_top;
    wal_top = d.wal_top;
    table_top = d.table_top;
    mem = d.mem;
    mem_keyed = d.mem_keyed;
    shown = λ id.
        d.shown id
        ∙ compacted-shown (last_of recs id) (get merged id)
        ∙ ap (λ o. visible (or_else (last_of recs id) o)) (sym (get-compacted id));
  }

  -- Compacting reads every segment, and keeps the files in step.
  pub compact-Durable :
      Past now s.segments → (t : LsmStore V J) × (compact now s ≡ some t) × Durable t
  unfolding compact
  compact-Durable past = elim (Bool-cases (ltb (length s.segments) 2)) [
    | inl few ↦ (s, rw few refl, d)
    | inr many ↦
        (merge_into compacted_name d.base s, rw (many, d.loaded) refl, merge_into-Durable past)
  ]
