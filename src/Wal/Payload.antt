-- ===== src/Wal/Payload.antt =====
-- src/annex/storage/codec.py: the payloads of put and delete frames. `utf8` and `from_utf8` are Python's,
-- `dumps` and `loads` those of json on metadata with UTF-8, `to_bytes` and `from_bytes` numpy's for one
-- float32. A call that raises returns none.
use python_pj.Prelude.{
  ℕ, zero, suc, ◌+◌, ◌*◌, ◌^◌, Option, none, some, List, [], ◌∷◌, ◌++◌, if◌then◌else◌, ltb, eqb,
  length, take, drop, is_some,
}
use python_pj.Storage.Lsm.{◌>>=◌}
use python_pj.Wal.{pack, unpack, slice}

-- `_pack_bytes`
unfoldable pub pack_bytes : List ℕ → Option (List ℕ)
unfolding pack
pack_bytes b = if ltb (length b) (2 ^ 32) then some (pack 4 (length b) ++ b) else none

-- `_U32.unpack_from`
unfoldable pub unpack_u32 : List ℕ → ℕ → Option ℕ
unfolding unpack
unpack_u32 buf off = if ltb (length buf) (off + 4) then none else some (unpack (slice off 4 buf))

-- `_unpack_bytes`, with the offset behind
unfoldable pub unpack_bytes : List ℕ → ℕ → Option (List ℕ × ℕ)
unfolding unpack_u32
unpack_bytes buf off = do n ← unpack_u32 buf off; some (slice (off + 4) n buf, off + 4 + n)

-- `struct.unpack_from("<B", payload, off)`
unfoldable pub unpack_byte : List ℕ → ℕ → Option ℕ
unfolding unpack
unpack_byte buf off = if ltb (length buf) (off + 1) then none else some (unpack (slice off 1 buf))

-- What the codec calls of Python and numpy. `S` is the type of texts, `F` of float32, `M` of
-- metadata.
pub record Encodings (S F M : Type 0) : Type 0 where
  pub empty_text : S
  pub utf8 : S → List ℕ
  pub from_utf8 : List ℕ → Option S
  pub dumps : M → List ℕ
  pub loads : List ℕ → Option M
  pub no_metadata : M
  pub to_bytes : F → List ℕ
  pub from_bytes : List ℕ → F

module _ {S F M : Type 0} (x : Encodings S F M) where
  -- `text or ""`
  abbrev pub text_or : Option S → S
  text_or none = x.empty_text
  text_or (some t) = t

  -- `vec.tobytes()`
  unfoldable pub vector_bytes : List F → List ℕ
  vector_bytes [] = []
  vector_bytes (f ∷ fs) = x.to_bytes f ++ vector_bytes fs

  -- so many floats from the front of some bytes
  unfoldable pub floats_from : ℕ → List ℕ → List F
  floats_from zero bs = []
  floats_from (suc n) bs = x.from_bytes (take 4 bs) ∷ floats_from n (drop 4 bs)

  -- `np.frombuffer(payload, dtype=np.float32, count=dim, offset=off)`
  unfoldable pub from_buffer : List ℕ → ℕ → ℕ → Option (List F)
  unfolding floats_from
  from_buffer buf dim off =
      if ltb (length buf) (off + dim * 4) then none else some (floats_from dim (drop off buf))

  unfoldable pub encode_put : S → List F → M → Option S → Option (List ℕ)
  unfolding pack_bytes vector_bytes pack
  encode_put rec_id vector metadata text = do
    id_part ← pack_bytes (x.utf8 rec_id)
    dim_part ← (if ltb (length vector) (2 ^ 32) then some (pack 4 (length vector)) else none)
    metadata_part ← pack_bytes (x.dumps metadata)
    text_part ← pack_bytes (x.utf8 (text_or text))
    some (
        id_part
        ++ (dim_part
            ++ (vector_bytes vector
                ++ (metadata_part ++ (text_part ++ (if is_some text then 1 else 0) ∷ [])))))

  -- `json.loads(raw_meta) if raw_meta else {}`
  unfoldable pub metadata_of : List ℕ → Option M
  metadata_of [] = some x.no_metadata
  metadata_of (b ∷ bs) = x.loads (b ∷ bs)

  unfoldable pub text_of : ℕ → List ℕ → Option (Option S)
  text_of has_text raw =
      if eqb has_text 0 then some none else (x.from_utf8 raw >>= λ t. some (some t))

  unfoldable pub decode_put : List ℕ → Option (S × List F × M × Option S)
  unfolding unpack_bytes unpack_u32 from_buffer unpack_byte metadata_of text_of
  decode_put payload = do
    (raw_id, off) ← unpack_bytes payload 0
    dim ← unpack_u32 payload off
    vec ← from_buffer payload dim (off + 4)
    (raw_meta, after_meta) ← unpack_bytes payload (off + 4 + dim * 4)
    (raw_text, after_text) ← unpack_bytes payload after_meta
    has_text ← unpack_byte payload after_text
    rec_id ← x.from_utf8 raw_id
    metadata ← metadata_of raw_meta
    text ← text_of has_text raw_text
    some (rec_id, vec, metadata, text)

  unfoldable pub encode_delete : S → Option (List ℕ)
  unfolding pack_bytes
  encode_delete rec_id = pack_bytes (x.utf8 rec_id)

  unfoldable pub decode_delete : List ℕ → Option S
  unfolding unpack_bytes
  decode_delete payload = unpack_bytes payload 0 >>= λ (raw, off). x.from_utf8 raw
