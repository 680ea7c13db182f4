-- ===== src/Wal.antt =====
-- src/annex/storage/codec.py and wal.py: frames as bytes, and the log file. A file is the list of its
-- bytes. `crc32` is zlib's, of some bytes and a start value. A call that raises returns none.
pub mod Bytes
pub mod RoundTrip
pub mod Replay
pub mod Rounds
pub mod Payload
pub mod Decoding
use python_pj.Prelude.{
  ℕ, zero, suc, ◌+◌, ◌*◌, ◌/◌, ◌%◌, ◌^◌, Bool, true, false, not, ◌&&◌, ◌||◌, Option, none, some,
  List, [], ◌∷◌, ◌++◌, if◌then◌else◌, ltb, leb, eqb, length, take, drop,
}
use python_pj.Storage.Lsm.{◌>>=◌}

pub data FrameType : Type 0 where
  put_type delete_type checkpoint_type txn_commit_type : FrameType

abbrev pub type_number : FrameType → ℕ
type_number put_type = 1
type_number delete_type = 2
type_number checkpoint_type = 3
type_number txn_commit_type = 4

-- `FrameType(ftype)`
abbrev pub type_of : ℕ → Option FrameType
type_of n =
    if eqb n 1
    then some put_type
    else if eqb n 2
    then some delete_type
    else if eqb n 3
    then some checkpoint_type
    else if eqb n 4
    then some txn_commit_type
    else none

pub record Frame : Type 0 where
  pub type : FrameType
  pub seq : ℕ
  pub payload : List ℕ
  pub flags : ℕ

-- `struct`'s little-endian integers of w bytes
unfoldable pub pack : ℕ → ℕ → List ℕ
pack zero n = []
pack (suc w) n = n % 256 ∷ pack w (n / 256)

unfoldable pub unpack : List ℕ → ℕ
unpack [] = 0
unpack (b ∷ bs) = b + 256 * unpack bs

abbrev same_bytes : List ℕ → List ℕ → Bool
same_bytes [] [] = true
same_bytes (a ∷ bs) (b ∷ cs) = eqb a b && same_bytes bs cs
same_bytes [] (b ∷ cs) = false
same_bytes (a ∷ bs) [] = false

abbrev magic : List ℕ
magic = 65 ∷ 87 ∷ 65 ∷ 76 ∷ []

-- `buf[from : from + n]`
abbrev slice : ℕ → ℕ → List ℕ → List ℕ
slice from n buf = take n (drop from buf)

-- the header without its checksum
unfoldable pub prefix_of : Frame → List ℕ
unfolding pack
prefix_of f =
    magic
    ++ pack 2 1
    ++ pack 1 (type_number f.type)
    ++ pack 1 f.flags
    ++ pack 8 f.seq
    ++ pack 4 (length f.payload)

-- what `struct.pack` takes without raising
abbrev packable : Frame → Bool
packable f = ltb f.flags 256 && (ltb f.seq (2 ^ 64) && ltb (length f.payload) (2 ^ 32))

module _ (crc32 : List ℕ → ℕ → ℕ) where
  -- the checksum of a header prefix and a payload
  unfoldable pub checksum : List ℕ → List ℕ → ℕ
  checksum header payload = crc32 payload (crc32 header 0 % 2 ^ 32) % 2 ^ 32

  unfoldable pub encode_frame : Frame → Option (List ℕ)
  unfolding prefix_of checksum pack
  encode_frame f =
      if packable f
      then some (prefix_of f ++ pack 4 (checksum (prefix_of f) f.payload) ++ f.payload)
      else none

  -- the frame at an offset and the offset after it; none for CorruptionError
  unfoldable pub decode_frame : List ℕ → ℕ → Option (Frame × ℕ)
  unfolding unpack checksum
  decode_frame buf offset =
      let size = unpack (slice (offset + 16) 4 buf) in
      let end = offset + 24 + size in
      let payload = slice (offset + 24) size buf in
      if ltb (length buf) (offset + 24)
        || (not (same_bytes (slice offset 4 buf) magic)
            || (not (eqb (unpack (slice (offset + 4) 2 buf)) 1)
                || (ltb (length buf) end
                    || not (
                        eqb (checksum (slice offset 20 buf) payload)
                          (unpack (slice (offset + 20) 4 buf))))))
      then none
      else (type_of (unpack (slice (offset + 6) 1 buf)) >>= λ kind. some (
        record {
          type = kind;
          seq = unpack (slice (offset + 8) 8 buf);
          payload = payload;
          flags = unpack (slice (offset + 7) 1 buf);
        },
        end,
      ))

-- The file's bytes, and `_bytes_written`.
pub record WriteAheadLog : Type 0 where
  pub bytes : List ℕ
  pub bytes_written : ℕ

-- a log over the bytes that its file has
unfoldable pub open_log : List ℕ → WriteAheadLog
open_log bytes = record { bytes = bytes; bytes_written = length bytes }

unfoldable pub truncate_at : ℕ → WriteAheadLog → WriteAheadLog
truncate_at offset w = record { bytes = take offset w.bytes; bytes_written = offset }

unfoldable pub rotate : WriteAheadLog → WriteAheadLog
rotate w = record { bytes = []; bytes_written = 0 }

abbrev pub yielding :
    Frame → Option (List Frame × WriteAheadLog) → Option (List Frame × WriteAheadLog)
yielding f none = none
yielding f (some (fs, w)) = some (f ∷ fs, w)

module _ (crc32 : List ℕ → ℕ → ℕ) where
  -- the offset that the frame is written at, and the log with it
  unfoldable pub append_frame : Frame → WriteAheadLog → Option (ℕ × WriteAheadLog)
  unfolding encode_frame
  append_frame f w = encode_frame crc32 f >>= λ blob. some (
    w.bytes_written,
    record { bytes = w.bytes ++ blob; bytes_written = w.bytes_written + length blob },
  )

  -- The loop of `replay` from an offset. Every frame has 24 bytes or more, so as many rounds as there
  -- are bytes are enough.
  unfoldable pub replay_from : ℕ → Bool → ℕ → WriteAheadLog → Option (List Frame × WriteAheadLog)
  unfolding decode_frame truncate_at
  replay_from zero truncate_corrupt offset w = some ([], w)
  replay_from (suc fuel) truncate_corrupt offset w =
      if leb (length w.bytes) offset
      then some ([], w)
      else elim (decode_frame crc32 w.bytes offset) [
        | none ↦ if truncate_corrupt then some ([], truncate_at offset w) else none
        | some (f, next) ↦ yielding f (replay_from fuel truncate_corrupt next w)
      ]

  unfoldable pub replay : Bool → WriteAheadLog → Option (List Frame × WriteAheadLog)
  unfolding replay_from
  replay truncate_corrupt w = replay_from (length w.bytes) truncate_corrupt 0 w
