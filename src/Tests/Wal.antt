-- ===== src/Tests/Wal.antt =====
-- src/annex/storage/wal.py: two frames written to a log, read back, and a torn one after them.
use python_pj.Prelude.{ℕ, ◌+◌, ◌≡◌, refl, true, some, List, [], ◌∷◌, ◌++◌, take, drop, arith}
use python_pj.Wal.{
  Frame, put_type, delete_type, WriteAheadLog, encode_frame, open_log, append_frame, replay,
  replay_from, pack, prefix_of, checksum,
}
use python_pj.Wal.Payload.{Encodings, encode_put, decode_put}
use python_pj.Wal.Decoding.{IsFaithful, decode_put-encode_put}
use python_pj.Wal.Rounds.{replay-enough}
use python_pj.Wal.Replay.{append_each, replay-append_each, replay-torn}

-- a text and metadata are their bytes, a float one number
abbrev plain : Encodings (List ℕ) ℕ (List ℕ)
plain = record {
  empty_text = [];
  utf8 = λ t. t;
  from_utf8 = some;
  dumps = λ m. 123 ∷ m;
  loads = λ bs. some (drop 1 bs);
  no_metadata = [];
  to_bytes = λ f. f ∷ 0 ∷ 0 ∷ 0 ∷ [];
  from_bytes = λ bs. first bs;
}
  where
    first : List ℕ → ℕ
    first [] = 0
    first (b ∷ bs) = b

plain-IsFaithful : IsFaithful plain
plain-IsFaithful = record {
  utf8 = λ t. refl;
  json = λ m. refl;
  json_not_empty = λ m. omega arith;
  floats = λ f. refl;
  four = λ f. refl;
}

abbrev put_payload : List ℕ
put_payload =
    1 ∷ 0 ∷ 0 ∷ 0 ∷ 97 ∷ 2 ∷ 0 ∷ 0 ∷ 0 ∷ 5 ∷ 0 ∷ 0 ∷ 0 ∷ 6 ∷ 0 ∷ 0 ∷ 0 ∷ 2 ∷ 0 ∷ 0 ∷ 0 ∷ 123 ∷ 125
    ∷ 0 ∷ 0 ∷ 0 ∷ 0 ∷ 1 ∷ []

-- an empty text, which is not the same as none
put-payload : encode_put plain (97 ∷ []) (5 ∷ 6 ∷ []) (125 ∷ []) (some []) ≡ some put_payload
unfolding encode_put
put-payload = refl

decode_put-encode_put_example :
    decode_put plain put_payload ≡ some (97 ∷ [], 5 ∷ 6 ∷ [], 125 ∷ [], some [])
decode_put-encode_put_example =
    decode_put-encode_put plain plain-IsFaithful (97 ∷ []) (5 ∷ 6 ∷ []) (125 ∷ []) (some [])
      put_payload put-payload

-- a checksum of its own, the bytes added up
abbrev sum_from : List ℕ → ℕ → ℕ
sum_from [] n = n
sum_from (b ∷ bs) n = sum_from bs (n + b)

abbrev put_frame : Frame
put_frame = record { type = put_type; seq = 1; payload = 7 ∷ 8 ∷ []; flags = 0 }

abbrev delete_frame : Frame
delete_frame = record { type = delete_type; seq = 300; payload = 9 ∷ []; flags = 1 }

abbrev header : List ℕ
header = 65 ∷ 87 ∷ 65 ∷ 76 ∷ 1 ∷ 0 ∷ 1 ∷ 0 ∷ 1 ∷ 0 ∷ 0 ∷ 0 ∷ 0 ∷ 0 ∷ 0 ∷ 0 ∷ 2 ∷ 0 ∷ 0 ∷ 0 ∷ []

abbrev put_bytes : List ℕ
put_bytes = header ++ 57 ∷ 1 ∷ 0 ∷ 0 ∷ 7 ∷ 8 ∷ []

abbrev delete_bytes : List ℕ
delete_bytes =
    65 ∷ 87 ∷ 65 ∷ 76 ∷ 1 ∷ 0 ∷ 2 ∷ 1 ∷ 44 ∷ 1 ∷ 0 ∷ 0 ∷ 0 ∷ 0 ∷ 0 ∷ 0 ∷ 1 ∷ 0 ∷ 0 ∷ 0 ∷ 96 ∷ 1 ∷ 0
    ∷ 0 ∷ 9 ∷ []

abbrev written : WriteAheadLog
written = record { bytes = put_bytes ++ delete_bytes; bytes_written = 51 }

put_frame-bytes : encode_frame sum_from put_frame ≡ some put_bytes
unfolding encode_frame prefix_of checksum pack
put_frame-bytes = refl

both-written : append_each sum_from (put_frame ∷ delete_frame ∷ []) (open_log []) ≡ some written
unfolding append_frame encode_frame prefix_of checksum pack open_log
both-written = refl

replay-append_each_example :
    replay sum_from true written ≡ some (put_frame ∷ delete_frame ∷ [], written)
replay-append_each_example =
    replay-append_each sum_from (put_frame ∷ delete_frame ∷ []) written true both-written

replay-torn_example :
    replay sum_from true (open_log (written.bytes ++ take 25 put_bytes))
    ≡ some (put_frame ∷ delete_frame ∷ [], written)
replay-torn_example =
    replay-torn sum_from (put_frame ∷ delete_frame ∷ []) written put_frame put_bytes 25 both-written
      put_frame-bytes (omega arith)

replay-enough_example :
    replay_from sum_from 90 true 0 (open_log (written.bytes ++ take 25 put_bytes))
    ≡ replay sum_from true (open_log (written.bytes ++ take 25 put_bytes))
unfolding open_log
replay-enough_example =
    replay-enough sum_from 90 true (open_log (written.bytes ++ take 25 put_bytes)) (omega arith)
