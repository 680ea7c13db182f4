-- ===== src/Storage/Segment.antt =====
-- src/annex/storage/segment.py: building a segment and reading it back, and the record of lsm.py that
-- both exchange. `V` is the type of vectors, `J` of metadata values. The files' bytes are not modelled:
-- a segment is what `finish` writes and `Segment` reads, after the decoding.
use python_pj.Prelude.{
  ℕ, zero, suc, ◌≤◌, ◌<◌, min, max, ◌≡◌, refl, sym, ap, ◌∙◌, String, Bool, true, false, Option,
  none, some, List, [], ◌∷◌, ◌++◌, map, arith, length, length-append, get_elem?,
}
use python_pj.Prelude.Dict.{Dict}
use mathlib.Core.List.{append-nil, append_assoc, map-append}

-- lsm.py
pub record StoredRecord (V J : Type 0) : Type 0 where
  pub id : String
  pub vector : Option V
  pub metadata : Dict String J
  pub text : Option String
  pub seq : ℕ
  pub deleted : Bool

-- `row` is none where the source has -1.
pub record SegmentEntry (J : Type 0) : Type 0 where
  pub id : String
  pub seq : ℕ
  pub deleted : Bool
  pub metadata : Dict String J
  pub text : Option String
  pub row : Option ℕ

pub record SegmentWriter (V J : Type 0) : Type 0 where
  pub dim : ℕ
  pub vectors : List V
  pub entries : List (SegmentEntry J)

-- the header's counts and bounds, the vector block and the entries
pub record Segment (V J : Type 0) : Type 0 where
  pub dim : ℕ
  pub records_count : ℕ
  pub vectors_count : ℕ
  pub min_seq : ℕ
  pub max_seq : ℕ
  pub vectors : List V
  pub entries : List (SegmentEntry J)

-- `vector if vector is not None and not deleted`
abbrev kept_vector : {V : Type 0} → Bool → Option V → Option V
kept_vector true v = none
kept_vector false v = v

abbrev to_block : {V : Type 0} → Option V → List V
to_block none = []
to_block (some v) = v ∷ []

abbrev row_of : {V : Type 0} → Option V → ℕ → Option ℕ
row_of none n = none
row_of (some v) n = some n

abbrev min_seqs : {J : Type 0} → List (SegmentEntry J) → ℕ
min_seqs [] = 0
min_seqs (e ∷ []) = e.seq
min_seqs (e ∷ f ∷ es) = min e.seq (min_seqs (f ∷ es))

abbrev max_seqs : {J : Type 0} → List (SegmentEntry J) → ℕ
max_seqs [] = 0
max_seqs (e ∷ es) = max e.seq (max_seqs es)

-- `Segment.vector_of`
unfoldable pub vector_of : {V : Type 0} → List V → Option ℕ → Option V
vector_of vs none = none
vector_of vs (some i) = get_elem? vs i

-- Every row of the entries is in the block.
abbrev RowsIn : {J : Type 0} → ℕ → List (SegmentEntry J) → Type 0
RowsIn n [] = Unit
RowsIn n (e ∷ es) = ((i : ℕ) → e.row ≡ some i → i < n) × RowsIn n es

module _ {V J : Type 0} where
  unfoldable pub new_writer : ℕ → SegmentWriter V J
  new_writer dim = record { dim = dim; vectors = []; entries = [] }

  -- `SegmentWriter.add`
  unfoldable pub add : StoredRecord V J → SegmentWriter V J → SegmentWriter V J
  add r w =
      let kept = kept_vector r.deleted r.vector in
      record w {
        vectors = w.vectors ++ to_block kept;
        entries =
            w.entries
            ++ record {
              id = r.id;
              seq = r.seq;
              deleted = r.deleted;
              metadata = r.metadata;
              text = r.text;
              row = row_of kept (length w.vectors);
            }
              ∷ [];
      }

  unfoldable pub add_all : List (StoredRecord V J) → SegmentWriter V J → SegmentWriter V J
  unfolding add
  add_all [] w = w
  add_all (r ∷ rs) w = add_all rs (add r w)

  -- `SegmentWriter.finish`, read by `Segment.__init__`
  unfoldable pub finish : SegmentWriter V J → Segment V J
  finish w = record {
    dim = w.dim;
    records_count = length w.entries;
    vectors_count = length w.vectors;
    min_seq = min_seqs w.entries;
    max_seq = max_seqs w.entries;
    vectors = w.vectors;
    entries = w.entries;
  }

  -- the record that recovery and compaction make of an entry
  unfoldable pub record_of : List V → SegmentEntry J → StoredRecord V J
  unfolding vector_of
  record_of vs e = record {
    id = e.id;
    vector = vector_of vs e.row;
    metadata = e.metadata;
    text = e.text;
    seq = e.seq;
    deleted = e.deleted;
  }

  unfoldable pub records : Segment V J → List (StoredRecord V J)
  unfolding record_of
  records s = map (record_of s.vectors) s.entries

  -- A tombstone keeps no vector.
  abbrev pub clean : StoredRecord V J → StoredRecord V J
  clean r = record r { vector = kept_vector r.deleted r.vector }

module _ {V : Type 0} where
  get_elem?-append :
      (xs ys : List V) (i : ℕ) → i < length xs → get_elem? (xs ++ ys) i ≡ get_elem? xs i
  get_elem?-append [] ys i h = absurd (omega arith)
  get_elem?-append (x ∷ xs) ys zero h = refl
  get_elem?-append (x ∷ xs) ys (suc i) h = get_elem?-append xs ys i (omega arith)

  get_elem?-end :
      (xs : List V) (y : V) (ys : List V) → get_elem? (xs ++ y ∷ ys) (length xs) ≡ some y
  get_elem?-end [] y ys = refl
  get_elem?-end (x ∷ xs) y ys = get_elem?-end xs y ys

  vector_of-append :
      (vs ws : List V) (o : Option ℕ)
      → ((i : ℕ) → o ≡ some i → i < length vs)
      → vector_of (vs ++ ws) o ≡ vector_of vs o
  unfolding vector_of
  vector_of-append vs ws none h = refl
  vector_of-append vs ws (some i) h = get_elem?-append vs ws i (h i refl)

  vector_of-row :
      (vs : List V) (k : Option V) → vector_of (vs ++ to_block k) (row_of k (length vs)) ≡ k
  unfolding vector_of
  vector_of-row vs none = refl
  vector_of-row vs (some v) = get_elem?-end vs v []

module _ {J : Type 0} where
  RowsIn-add :
      (m n : ℕ) (es : List (SegmentEntry J)) (e : SegmentEntry J)
      → m ≤ n
      → RowsIn m es
      → ((i : ℕ) → e.row ≡ some i → i < n)
      → RowsIn n (es ++ e ∷ [])
  RowsIn-add m n [] e le h g = (g, tt)
  RowsIn-add m n (x ∷ xs) e le h g =
      ((λ i p. let lt = h.0 i p in omega (arith, lt)), RowsIn-add m n xs e le h.1 g)

module _ {V : Type 0} where
  row_of-lt :
      (vs : List V) (k : Option V) (i : ℕ)
      → row_of k (length vs) ≡ some i
      → i < length (vs ++ to_block k)
  row_of-lt vs none i h = cc
  row_of-lt vs (some v) i h = ground (arith, h, length-append vs (v ∷ []))

module _ {V J : Type 0} where
  -- More vectors behind the block change no record.
  grow :
      (vs ws : List V) (es : List (SegmentEntry J))
      → RowsIn (length vs) es
      → map (record_of (vs ++ ws)) es ≡ map (record_of vs) es
  unfolding record_of
  grow vs ws [] h = refl
  grow vs ws (e ∷ es) h = rw (vector_of-append vs ws e.row h.0, grow vs ws es h.1) refl

  add-RowsIn :
      (r : StoredRecord V J) (w : SegmentWriter V J)
      → RowsIn (length w.vectors) w.entries
      → RowsIn (length (add r w).vectors) (add r w).entries
  unfolding add
  add-RowsIn r w h =
      let k = kept_vector r.deleted r.vector in
      RowsIn-add (length w.vectors) _ w.entries _
        (omega (arith, length-append w.vectors (to_block k))) h (row_of-lt w.vectors k)

  records-add :
      (r : StoredRecord V J) (w : SegmentWriter V J)
      → RowsIn (length w.vectors) w.entries
      → records (finish (add r w)) ≡ records (finish w) ++ clean r ∷ []
  unfolding add finish records record_of
  records-add r w h =
      let k = kept_vector r.deleted r.vector in
      rw (map-append, grow w.vectors (to_block k) w.entries h, vector_of-row w.vectors k) refl

  records-add_all :
      (rs : List (StoredRecord V J)) (w : SegmentWriter V J)
      → RowsIn (length w.vectors) w.entries
      → records (finish (add_all rs w)) ≡ records (finish w) ++ map clean rs
  unfolding add_all
  records-add_all [] w h = sym (append-nil _)
  records-add_all (r ∷ rs) w h =
      records-add_all rs (add r w) (add-RowsIn r w h)
      ∙ ap (λ l. l ++ map clean rs) (records-add r w h)
      ∙ append_assoc (records (finish w)) (clean r ∷ []) (map clean rs)

  -- The image of some records in one segment file.
  unfoldable pub write_segment : ℕ → List (StoredRecord V J) → Segment V J
  unfolding add_all finish new_writer
  write_segment dim rs = finish (add_all rs (new_writer dim))

  -- The records read from a segment are those it was written from, in the same order, but for the
  -- vectors of deleted records, which are left out.
  pub records-write_segment :
      (dim : ℕ) (rs : List (StoredRecord V J)) → records (write_segment dim rs) ≡ map clean rs
  unfolding write_segment new_writer records
  records-write_segment dim rs =
      records-add_all rs (record { dim = dim; vectors = []; entries = [] }) tt
