-- ===== src/Wal/RoundTrip.antt =====
-- src/annex/storage/codec.py: a frame that is written is read back.
use python_pj.Prelude.{
  ℕ, ◌+◌, ◌^◌, ◌<◌, ◌≤◌, ◌≡◌, refl, sym, ap, ◌∙◌, true, false, Option, none, some, List, ◌++◌,
  arith, length, take, drop, length-append, length-take, Bool-cases, inl, inr, subst,
  drop-append_exact, take-append_exact,
}
use python_pj.Wal.{
  FrameType, put_type, delete_type, checkpoint_type, txn_commit_type, type_number, type_of, Frame,
  pack, magic, slice, prefix_of, packable, checksum, encode_frame, decode_frame,
}
use native.Mathlib.Decide.{dec_lt}
use python_pj.Wal.Bytes.{take-drop-take, unpack-pack, drop-append_add}

pub type_of-type_number : (t : FrameType) → type_of (type_number t) ≡ some t
type_of-type_number put_type = refl
type_of-type_number delete_type = refl
type_of-type_number checkpoint_type = refl
type_of-type_number txn_commit_type = refl

pub none-ne-some {ℓ} : {A : Type ℓ} (a : A) → ◌≡◌ {A = Option A} none (some a) → ⊥
none-ne-some a e = cc e

type_number-lt : (t : FrameType) → type_number t < 256 ^ 1
type_number-lt t = ground arith

checksum-lt : (crc32 : List ℕ → ℕ → ℕ) (h p : List ℕ) → checksum crc32 h p < 256 ^ 4
unfolding checksum
checksum-lt crc32 h p = omega arith

module _ (crc32 : List ℕ → ℕ → ℕ) (f : Frame) where
  -- the bytes of a frame
  unfoldable pub frame_bytes : List ℕ
  unfolding prefix_of pack
  frame_bytes = prefix_of f ++ (pack 4 (checksum crc32 (prefix_of f) f.payload) ++ f.payload)

  pub length-frame_bytes : length frame_bytes ≡ 24 + length f.payload
  unfolding frame_bytes
  length-frame_bytes = omega arith

-- What the decoder reads of a buffer that holds a frame behind `pre`.
module _ (crc32 : List ℕ → ℕ → ℕ) (f : Frame) (pre rest : List ℕ) where
  abbrev buf : List ℕ
  buf = pre ++ (frame_bytes crc32 f ++ rest)

  at_offset :
      (k n : ℕ) → slice (length pre + k) n buf ≡ take n (drop k (frame_bytes crc32 f ++ rest))
  at_offset k n = ap (take n) (drop-append_add pre (frame_bytes crc32 f ++ rest) k)

  at_start : (n : ℕ) → slice (length pre) n buf ≡ take n (frame_bytes crc32 f ++ rest)
  at_start n = ap (take n) (drop-append_exact pre (frame_bytes crc32 f ++ rest))

  read_prefix : slice (length pre) 20 buf ≡ prefix_of f
  unfolding frame_bytes
  read_prefix = at_start 20

  read_magic : slice (length pre) 4 buf ≡ magic
  unfolding frame_bytes
  read_magic = at_start 4

  read_version : slice (length pre + 4) 2 buf ≡ pack 2 1
  unfolding frame_bytes
  read_version = at_offset 4 2

  read_type : slice (length pre + 6) 1 buf ≡ pack 1 (type_number f.type)
  unfolding frame_bytes
  read_type = at_offset 6 1

  read_flags : slice (length pre + 7) 1 buf ≡ pack 1 f.flags
  unfolding frame_bytes
  read_flags = at_offset 7 1

  read_seq : slice (length pre + 8) 8 buf ≡ pack 8 f.seq
  unfolding frame_bytes
  read_seq = at_offset 8 8

  read_length : slice (length pre + 16) 4 buf ≡ pack 4 (length f.payload)
  unfolding frame_bytes
  read_length = at_offset 16 4

  read_crc : slice (length pre + 20) 4 buf ≡ pack 4 (checksum crc32 (prefix_of f) f.payload)
  unfolding frame_bytes
  read_crc = at_offset 20 4

  read_payload : slice (length pre + 24) (length f.payload) buf ≡ f.payload
  unfolding frame_bytes
  read_payload = at_offset 24 (length f.payload) ∙ take-append_exact f.payload rest

  fits : length buf ≡ length pre + 24 + length f.payload + length rest
  fits = omega (
    arith,
    length-append pre (frame_bytes crc32 f ++ rest),
    length-append (frame_bytes crc32 f) rest,
    length-frame_bytes crc32 f,
  )

  pub decode-frame_bytes :
      packable f ≡ true
      → decode_frame crc32 buf (length pre) ≡ some (f, length pre + 24 + length f.payload)
  unfolding decode_frame
  decode-frame_bytes ok =
      let flags : f.flags < 256 ^ 1 = ground (arith, ok) in
      let seq : f.seq < 256 ^ 8 = ground (arith, ok) in
      let len : length f.payload < 256 ^ 4 = ground (arith, ok) in
      rw
        (
          read_length,
          unpack-pack 4 (length f.payload) len,
          read_payload,
          read_prefix,
          read_magic,
          read_version,
          read_crc,
          read_type,
          read_flags,
          read_seq,
        )
        (rw
          (
            unpack-pack 2 1 (omega arith),
            unpack-pack 8 f.seq seq,
            unpack-pack 1 f.flags flags,
            unpack-pack 1 (type_number f.type) (type_number-lt f.type),
            unpack-pack 4 _ (checksum-lt crc32 (prefix_of f) f.payload),
          )
          (ground (arith, fits, type_of-type_number f.type)))

-- A write that was cut short.
module _ (crc32 : List ℕ → ℕ → ℕ) (f : Frame) (pre : List ℕ) (n : ℕ) where
  abbrev torn : List ℕ
  torn = pre ++ take n (frame_bytes crc32 f)

  length-torn : n < length (frame_bytes crc32 f) → length torn ≡ length pre + n
  length-torn h =
      omega (
        arith,
        length-append pre (take n (frame_bytes crc32 f)),
        length-take n (frame_bytes crc32 f),
      )

  slice-torn : 20 ≤ n → slice (length pre + 16) 4 torn ≡ pack 4 (length f.payload)
  slice-torn h =
      ap (take 4) (drop-append_add pre (take n (frame_bytes crc32 f)) 16)
      ∙ take-drop-take 16 4 n (frame_bytes crc32 f) h
      ∙ unfold frame_bytes in refl

  -- A frame of which bytes are missing is not decoded.
  pub decode-torn :
      packable f ≡ true
      → n < length (frame_bytes crc32 f)
      → decode_frame crc32 torn (length pre) ≡ none
  unfolding decode_frame
  decode-torn ok h =
      let len : length f.payload < 256 ^ 4 = ground (arith, ok) in
      elim (dec_lt n 24) [
        | yes short ↦ ground (arith, length-torn h)
        | no long ↦
            rw (slice-torn (omega arith), unpack-pack 4 (length f.payload) len)
              (ground (arith, length-torn h, length-frame_bytes crc32 f))
      ]

module _ (crc32 : List ℕ → ℕ → ℕ) (f : Frame) where
  pub encode_frame-bytes : packable f ≡ true → encode_frame crc32 f ≡ some (frame_bytes crc32 f)
  unfolding encode_frame frame_bytes
  encode_frame-bytes ok = rw ok refl

  encode_frame-large : packable f ≡ false → encode_frame crc32 f ≡ none
  unfolding encode_frame
  encode_frame-large large = rw large refl

  -- Encoding succeeds for what fits the header's fields, with these bytes.
  pub encode_frame-inv :
      (blob : List ℕ)
      → encode_frame crc32 f ≡ some blob
      → (packable f ≡ true) × (frame_bytes crc32 f ≡ blob)
  encode_frame-inv blob e = elim (Bool-cases (packable f)) [
    | inl ok ↦ (ok, (cc (encode_frame-bytes ok)))
    | inr large ↦ absurd (none-ne-some blob (sym (encode_frame-large large) ∙ e))
  ]

  -- Decoding a file at the offset where the bytes of an encoded frame stand, whatever stands before
  -- and after them, gives the frame and the offset after it.
  pub decode_frame-encode_frame :
      (blob pre rest : List ℕ)
      → encode_frame crc32 f ≡ some blob
      → decode_frame crc32 (pre ++ (blob ++ rest)) (length pre) ≡ some (f, length pre + length blob)
  decode_frame-encode_frame blob pre rest e =
      let (ok, same) = encode_frame-inv blob e in
      subst
        (λ (b : List ℕ).
          decode_frame crc32 (pre ++ (b ++ rest)) (length pre) ≡ some (f, length pre + length b))
        same
        (decode-frame_bytes crc32 f pre rest ok
          ∙ ap (λ (k : ℕ). let r : Option (Frame × ℕ) = some (f, k) in r)
              (omega (arith, length-frame_bytes crc32 f)))
