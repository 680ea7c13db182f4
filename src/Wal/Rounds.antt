-- ===== src/Wal/Rounds.antt =====
-- src/annex/storage/wal.py: how many rounds the loop of `replay` takes.
use python_pj.Prelude.{
  ℕ, zero, suc, ◌+◌, ◌≤◌, ◌≡◌, refl, sym, ap, inl, inr, Bool, true, some, List, [], leb, arith,
  length, Bool-cases, Option-cases,
}
use python_pj.Wal.{Frame, WriteAheadLog, decode_frame, replay_from, yielding, replay}

module _ (crc32 : List ℕ → ℕ → ℕ) where
  -- A frame that is decoded has a header of 24 bytes.
  decode_frame-advances :
      (buf : List ℕ) (offset next : ℕ) (f : Frame)
      → decode_frame crc32 buf offset ≡ some (f, next)
      → offset + 24 ≤ next
  unfolding decode_frame
  decode_frame-advances buf offset next f e = ground (arith, e)

  -- Past the end of the file a round does nothing.
  replay_from-past :
      (fuel : ℕ) (tc : Bool) (offset : ℕ) (w : WriteAheadLog)
      → length w.bytes ≤ offset
      → replay_from crc32 fuel tc offset w ≡ some ([], w)
  unfolding replay_from
  replay_from-past zero tc offset w h = refl
  replay_from-past (suc fuel) tc offset w h =
      let done : leb (length w.bytes) offset ≡ true = ground arith in rw done refl

  same_rounds :
      (m n : ℕ) (tc : Bool) (offset : ℕ) (w : WriteAheadLog)
      → length w.bytes ≤ offset + m
      → length w.bytes ≤ offset + n
      → replay_from crc32 m tc offset w ≡ replay_from crc32 n tc offset w
  unfolding replay_from
  same_rounds zero n tc offset w h k = sym (replay_from-past n tc offset w (omega arith))
  same_rounds (suc m) zero tc offset w h k = replay_from-past (suc m) tc offset w (omega arith)
  same_rounds (suc m) (suc n) tc offset w h k = elim (Bool-cases (leb (length w.bytes) offset)) [
    | inl y ↦ rw y refl
    | inr y ↦ elim (Option-cases (decode_frame crc32 w.bytes offset)) [
      | inl bad ↦ rw (y, bad) refl
      | inr ((f, next), good) ↦
          let far : offset + 24 ≤ next = decode_frame-advances w.bytes offset next f good in
          rw (y, good) (ap (yielding f) (same_rounds m n tc next w (omega arith) (omega arith)))
    ]
  ]

  -- Reading a log with more rounds than its file has bytes, from the start, gives what `replay` gives
  -- with as many rounds as bytes: the rounds have then ended by the code's own tests.
  pub replay-enough :
      (n : ℕ) (tc : Bool) (w : WriteAheadLog)
      → length w.bytes ≤ n
      → replay_from crc32 n tc 0 w ≡ replay crc32 tc w
  unfolding replay
  replay-enough n tc w h = same_rounds n (length w.bytes) tc 0 w (omega arith) (omega arith)
