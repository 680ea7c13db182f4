-- ===== src/Wal/Replay.antt =====
-- src/annex/storage/wal.py: reading back a log of whole frames, with a torn one behind them.
use python_pj.Prelude.{
  ℕ, zero, suc, ◌+◌, ◌-◌, ◌*◌, ◌<◌, ◌≤◌, ◌≡◌, refl, sym, ap, ◌∙◌, Bool, true, false, Option, none,
  some, List, [], ◌∷◌, ◌++◌, arith, length, take, length-append, length-take, Option-cases,
  take-append_exact, leb, inl, inr,
}
use mathlib.Core.List.{append-nil, append_assoc}
use python_pj.Storage.Lsm.{◌>>=◌}
use python_pj.Wal.{
  Frame, packable, encode_frame, decode_frame, WriteAheadLog, open_log, truncate_at, append_frame,
  yielding, replay_from, replay,
}
use python_pj.Wal.RoundTrip.{
  none-ne-some, frame_bytes, length-frame_bytes, decode-frame_bytes, decode-torn, encode_frame-inv,
}

abbrev pub AllPackable : List Frame → Type 0
AllPackable [] = Unit
AllPackable (f ∷ fs) = (packable f ≡ true) × AllPackable fs

abbrev yielding_all :
    List Frame → Option (List Frame × WriteAheadLog) → Option (List Frame × WriteAheadLog)
yielding_all [] r = r
yielding_all (f ∷ fs) r = yielding f (yielding_all fs r)

yielding_all-some :
    (fs : List Frame) (w : WriteAheadLog) → yielding_all fs (some ([], w)) ≡ some (fs, w)
yielding_all-some [] w = refl
yielding_all-some (f ∷ fs) w = rw (yielding_all-some fs w) refl

module _ (crc32 : List ℕ → ℕ → ℕ) where
  -- the bytes of some frames
  abbrev pub stream : List Frame → List ℕ
  stream [] = []
  stream (f ∷ fs) = frame_bytes crc32 f ++ stream fs

  pub length-stream : (fs : List Frame) → 24 * length fs ≤ length (stream fs)
  length-stream [] = omega arith
  length-stream (f ∷ fs) = omega (
    arith,
    length-append (frame_bytes crc32 f) (stream fs),
    length-frame_bytes crc32 f,
    length-stream fs,
  )

  -- The loop yields the whole frames in front of it, and goes on behind them.
  replay_from-stream :
      (fs : List Frame) (fuel : ℕ) (tc : Bool) (pre tail : List ℕ) (w : WriteAheadLog)
      → w.bytes ≡ pre ++ (stream fs ++ tail)
      → AllPackable fs
      → replay_from crc32 (length fs + fuel) tc (length pre) w
        ≡ yielding_all fs (replay_from crc32 fuel tc (length (pre ++ stream fs)) w)
  unfolding replay_from
  replay_from-stream [] fuel tc pre tail w e ok =
      let z : 0 + fuel ≡ fuel = omega arith in rw (append-nil pre, z) refl
  replay_from-stream (f ∷ fs) fuel tc pre tail w e ok =
      let z : suc (length fs) + fuel ≡ suc (length fs + fuel) = omega arith in
      let here : w.bytes ≡ pre ++ (frame_bytes crc32 f ++ (stream fs ++ tail)) =
        e ∙ ap (◌++◌ pre) (append_assoc (frame_bytes crc32 f) (stream fs) tail) in
      let next : w.bytes ≡ (pre ++ frame_bytes crc32 f) ++ (stream fs ++ tail) =
        here ∙ sym (append_assoc pre (frame_bytes crc32 f) (stream fs ++ tail)) in
      let decoded : decode_frame crc32 w.bytes (length pre)
          ≡ some (f, length pre + 24 + length f.payload) =
        rw here (decode-frame_bytes crc32 f pre (stream fs ++ tail) ok.0) in
      let more : leb (length w.bytes) (length pre) ≡ false = ground (
        arith,
        ap length here,
        length-append pre (frame_bytes crc32 f ++ (stream fs ++ tail)),
        length-append (frame_bytes crc32 f) (stream fs ++ tail),
        length-frame_bytes crc32 f,
      ) in
      let at : length (pre ++ frame_bytes crc32 f) ≡ length pre + 24 + length f.payload =
        omega (arith, length-append pre (frame_bytes crc32 f), length-frame_bytes crc32 f) in
      let rest = replay_from-stream fs fuel tc (pre ++ frame_bytes crc32 f) tail w next ok.1 in
      rw (z, more, decoded)
        (ap (yielding f) (
          ap (λ (k : ℕ). replay_from crc32 (length fs + fuel) tc k w) (sym at)
          ∙ rest
          ∙ ap (λ (xs : List ℕ). yielding_all fs (replay_from crc32 fuel tc (length xs) w))
              (append_assoc pre (frame_bytes crc32 f) (stream fs))))

-- appending some frames in turn; none where one is refused
abbrev pub append_each : (List ℕ → ℕ → ℕ) → List Frame → WriteAheadLog → Option WriteAheadLog
append_each crc32 [] w = some w
append_each crc32 (f ∷ fs) w = append_frame crc32 f w >>= λ r. append_each crc32 fs r.1

module _ (crc32 : List ℕ → ℕ → ℕ) where
  append_refused :
      (f : Frame) (w : WriteAheadLog) → encode_frame crc32 f ≡ none → append_frame crc32 f w ≡ none
  unfolding append_frame
  append_refused f w e = rw (e, append_frame) refl

  append_done :
      (f : Frame) (w : WriteAheadLog) (blob : List ℕ)
      → encode_frame crc32 f ≡ some blob
      → append_frame crc32 f w
        ≡ some (
          w.bytes_written,
          record { bytes = w.bytes ++ blob; bytes_written = w.bytes_written + length blob },
        )
  unfolding append_frame
  append_done f w blob e = rw (e, append_frame) refl

  append_frame-inv :
      (f : Frame) (w : WriteAheadLog) (r : ℕ × WriteAheadLog)
      → append_frame crc32 f w ≡ some r
      → (packable f ≡ true)
        × (r.1.bytes ≡ w.bytes ++ frame_bytes crc32 f)
        × (r.1.bytes_written ≡ w.bytes_written + length (frame_bytes crc32 f))
  unfolding append_frame
  append_frame-inv f w r e = elim (Option-cases (encode_frame crc32 f)) [
    | inl refused ↦ absurd (none-ne-some r (sym (append_refused f w refused) ∙ e))
    | inr (blob, done) ↦
        let (ok, same) = encode_frame-inv crc32 f blob done in
        let left : some (
          w.bytes_written,
          record { bytes = w.bytes ++ blob; bytes_written = w.bytes_written + length blob },
        )
            ≡ some r =
          sym (append_done f w blob done) ∙ e in
        (ok, ground (arith, left, same), ground (arith, left, same))
  ]

  append_each-inv :
      (fs : List Frame) (w w' : WriteAheadLog)
      → append_each crc32 fs w ≡ some w'
      → AllPackable fs
        × (w'.bytes ≡ w.bytes ++ stream crc32 fs)
        × (w'.bytes_written ≡ w.bytes_written + length (stream crc32 fs))
  append_each-inv [] w w' e = (tt, ground (arith, e, append-nil w.bytes), ground (arith, e))
  append_each-inv (f ∷ fs) w w' e = elim (Option-cases (append_frame crc32 f w)) [
    | inl refused ↦ absurd (none-ne-some w' (rw refused at e))
    | inr (r, done) ↦
        let (ok, bytes, count) = append_frame-inv f w r done in
        let (oks, more, total) = append_each-inv fs r.1 w' (rw done at e) in
        (
          (ok, oks),
          more
              ∙ ap (λ (xs : List ℕ). xs ++ stream crc32 fs) bytes
              ∙ append_assoc w.bytes (frame_bytes crc32 f) (stream crc32 fs),
          omega (arith, total, count, length-append (frame_bytes crc32 f) (stream crc32 fs)),
        )
  ]

  -- The log that appends leave is the log over its bytes.
  appended :
      (fs : List Frame) (w : WriteAheadLog)
      → append_each crc32 fs (open_log []) ≡ some w
      → AllPackable fs × (w ≡ open_log (stream crc32 fs))
  unfolding open_log
  appended fs w e =
      let (ok, bytes, count) = append_each-inv fs (open_log []) w e in
      let total : w.bytes_written ≡ length (stream crc32 fs) = omega (arith, count) in
      (ok, ground (arith, bytes, total))

  replay_from-end :
      (fuel : ℕ) (tc : Bool) (w : WriteAheadLog)
      → replay_from crc32 fuel tc (length w.bytes) w ≡ some ([], w)
  unfolding replay_from
  replay_from-end zero tc w = refl
  replay_from-end (suc fuel) tc w =
      let done : leb (length w.bytes) (length w.bytes) ≡ true = ground arith in rw done refl

  replay_from-torn :
      (fuel offset : ℕ) (w : WriteAheadLog)
      → offset < length w.bytes
      → decode_frame crc32 w.bytes offset ≡ none
      → replay_from crc32 (suc fuel) true offset w ≡ some ([], truncate_at offset w)
  unfolding replay_from
  replay_from-torn fuel offset w h e =
      let more : leb (length w.bytes) offset ≡ false = ground arith in rw (more, e) refl

  replayed :
      (fs : List Frame) (tc : Bool)
      → AllPackable fs
      → replay crc32 tc (open_log (stream crc32 fs)) ≡ some (fs, open_log (stream crc32 fs))
  unfolding replay open_log
  replayed fs tc ok =
      let w : WriteAheadLog = open_log (stream crc32 fs) in
      let fuel : length (stream crc32 fs) ≡ length fs + (length (stream crc32 fs) - length fs) =
        omega (arith, length-stream crc32 fs) in
      ap (λ (k : ℕ). replay_from crc32 k tc 0 w) fuel
      ∙ replay_from-stream crc32 fs _ tc [] [] w (sym (append-nil (stream crc32 fs))) ok
      ∙ ap (yielding_all fs) (replay_from-end _ tc w)
      ∙ yielding_all-some fs w

  replayed_torn :
      (fs : List Frame) (f : Frame) (n : ℕ)
      → AllPackable fs
      → packable f ≡ true
      → suc n < length (frame_bytes crc32 f)
      → replay crc32 true (open_log (stream crc32 fs ++ take (suc n) (frame_bytes crc32 f)))
        ≡ some (fs, open_log (stream crc32 fs))
  unfolding replay open_log truncate_at
  replayed_torn fs f n ok okf h =
      let tail : List ℕ = take (suc n) (frame_bytes crc32 f) in
      let w : WriteAheadLog = open_log (stream crc32 fs ++ tail) in
      let size : length (stream crc32 fs ++ tail) ≡ length (stream crc32 fs) + suc n =
        omega (
          arith,
          length-append (stream crc32 fs) tail,
          length-take (suc n) (frame_bytes crc32 f),
        ) in
      let rest : ℕ = length (stream crc32 fs) + n - length fs in
      let fuel : length (stream crc32 fs ++ tail) ≡ length fs + suc rest =
        omega (arith, size, length-stream crc32 fs) in
      ap (λ (k : ℕ). replay_from crc32 k true 0 w) fuel
      ∙ replay_from-stream crc32 fs (suc rest) true [] tail w refl ok
      ∙ ap (yielding_all fs) (
          replay_from-torn rest (length (stream crc32 fs)) w (omega (arith, size))
            (decode-torn crc32 f (stream crc32 fs) (suc n) okf h))
      ∙ yielding_all-some fs _
      ∙ ap
          (λ (xs : List ℕ).
            let r : Option (List Frame × WriteAheadLog) =
              some (fs, record { bytes = xs; bytes_written = length (stream crc32 fs) }) in
            r)
          (take-append_exact (stream crc32 fs) tail)

  -- When frames are appended to a new log without error, replaying the log, with truncation or
  -- without, gives those frames in order and leaves the log as it is.
  pub replay-append_each :
      (fs : List Frame) (w : WriteAheadLog) (tc : Bool)
      → append_each crc32 fs (open_log []) ≡ some w
      → replay crc32 tc w ≡ some (fs, w)
  replay-append_each fs w tc e = let (ok, same) = appended fs w e in rw same (replayed fs tc ok)

  -- When frames were appended to a new log without error and the file then ends in a proper prefix,
  -- which may be empty, of the bytes of one more frame, replaying the file with truncation gives
  -- those frames, in order, and leaves the log as it was before the last one.
  pub replay-torn :
      (fs : List Frame) (w : WriteAheadLog) (f : Frame) (blob : List ℕ) (n : ℕ)
      → append_each crc32 fs (open_log []) ≡ some w
      → encode_frame crc32 f ≡ some blob
      → n < length blob
      → replay crc32 true (open_log (w.bytes ++ take n blob)) ≡ some (fs, w)
  unfolding open_log
  replay-torn fs w f blob zero e done h =
      let (ok, same) = appended fs w e in
      rw (same, append-nil (stream crc32 fs)) (replayed fs true ok)
  replay-torn fs w f blob (suc n) e done h =
      let (ok, same) = appended fs w e in
      let (okf, bytes) = encode_frame-inv crc32 f blob done in
      rw (same, sym bytes) (replayed_torn fs f n ok okf (rw bytes h))
