-- ===== src/Wal/Decoding.antt =====
-- src/annex/storage/codec.py: payloads are read back.
use python_pj.Prelude.{
  ℕ, zero, suc, ◌+◌, ◌*◌, ◌^◌, ◌≤◌, ◌<◌, ◌≡◌, refl, sym, ap, ◌∙◌, subst, inl, inr, false, Option,
  none, some, List, [], ◌∷◌, ◌++◌, if◌then◌else◌, Bool-cases, Option-cases, List-cases, arith, ltb,
  length, length-append, length-drop, take, drop, take-append_exact, drop-append_exact, is_some,
}
use mathlib.Core.List.{append_assoc}
use python_pj.Wal.{pack, unpack, slice}
use python_pj.Wal.Bytes.{length-pack, unpack-pack}
use python_pj.Wal.Payload.{
  Encodings, pack_bytes, unpack_u32, unpack_bytes, text_or, vector_bytes, floats_from, from_buffer,
  encode_put, decode_put, metadata_of, text_of, unpack_byte, encode_delete, decode_delete,
}

-- What follows in a buffer from an offset on.
abbrev At : List ℕ → ℕ → List ℕ → Type 0
At buf off tail = drop off buf ≡ tail

drop-nil : (n : ℕ) → drop {A = ℕ} n [] ≡ []
drop-nil zero = refl
drop-nil (suc n) = refl

drop-drop : (m n : ℕ) (xs : List ℕ) → drop n (drop m xs) ≡ drop (m + n) xs
drop-drop zero n xs = let e : 0 + n ≡ n = omega arith in rw e refl
drop-drop (suc m) n [] = drop-nil n ∙ sym (drop-nil (suc m + n))
drop-drop (suc m) n (x ∷ xs) =
    let e : suc m + n ≡ suc (m + n) = omega arith in rw e (drop-drop m n xs)

At-next :
    (buf : List ℕ) (off n : ℕ) (ys zs : List ℕ)
    → At buf off (ys ++ zs)
    → length ys ≡ n
    → At buf (off + n) zs
At-next buf off n ys zs a e =
    sym (drop-drop off n buf)
    ∙ ap (drop n) a
    ∙ subst (λ k. drop k (ys ++ zs) ≡ zs) e (drop-append_exact ys zs)

At-slice :
    (buf : List ℕ) (off n : ℕ) (ys zs : List ℕ)
    → At buf off (ys ++ zs)
    → length ys ≡ n
    → slice off n buf ≡ ys
At-slice buf off n ys zs a e =
    ap (take n) a ∙ subst (λ k. take k (ys ++ zs) ≡ ys) e (take-append_exact ys zs)

-- A part that is there fits in the buffer.
At-fits :
    (buf : List ℕ) (off n : ℕ) (ys zs : List ℕ)
    → At buf off (ys ++ zs)
    → length ys ≡ suc n
    → ltb (length buf) (off + suc n) ≡ false
At-fits buf off n ys zs a e =
    let rest = length-drop off buf in
    let whole : length (drop off buf) ≡ length ys + length zs = ap length a ∙ length-append ys zs in
    let fits : off + suc n ≤ length buf = omega (arith, rest, whole, e) in ground (arith, fits)

u32-At :
    (buf : List ℕ) (off n : ℕ) (zs : List ℕ)
    → n < 2 ^ 32
    → At buf off (pack 4 n ++ zs)
    → unpack_u32 buf off ≡ some n
unfolding unpack_u32
u32-At buf off n zs small a =
    rw
      (
        At-fits buf off 3 (pack 4 n) zs a (length-pack 4 n),
        At-slice buf off 4 (pack 4 n) zs a (length-pack 4 n),
      )
      (ap some (unpack-pack 4 n small))

-- Packed bytes with what follows are read from where they stand.
bytes-At :
    (buf : List ℕ) (off : ℕ) (b part zs : List ℕ)
    → pack_bytes b ≡ some part
    → At buf off (part ++ zs)
    → (unpack_bytes buf off ≡ some (b, off + 4 + length b)) × At buf (off + 4 + length b) zs
unfolding pack_bytes unpack_bytes
bytes-At buf off b part zs packed a = elim (Bool-cases (ltb (length b) (2 ^ 32))) [
  | inr y ↦ let never : none ≡ some part = rw y at packed in absurd (cc)
  | inl y ↦
      let same : pack 4 (length b) ++ b ≡ part = some-same (rw y at packed) in
      let small : length b < 2 ^ 32 = ground (arith, y) in
      let here : At buf off (pack 4 (length b) ++ (b ++ zs)) =
        a ∙ ap (λ ys. ys ++ zs) (sym same) ∙ append_assoc (pack 4 (length b)) b zs in
      let after : At buf (off + 4) (b ++ zs) =
        At-next buf off 4 (pack 4 (length b)) (b ++ zs) here (length-pack 4 (length b)) in
      (
        rw
            (
              u32-At buf off (length b) (b ++ zs) small here,
              At-slice buf (off + 4) (length b) b zs after refl,
            )
            refl,
        At-next buf (off + 4) (length b) b zs after refl,
      )
]
  where
    some-same : {xs ys : List ℕ} → some xs ≡ some ys → xs ≡ ys
    some-same e = cc e

module _ {S F M : Type 0} (x : Encodings S F M) where
  -- What the payloads rely on: UTF-8, JSON and the bytes of a float give back what they were given, the
  -- JSON of metadata is not empty, and a float has 4 bytes.
  pub record IsFaithful : Type 0 where
    pub utf8 : (t : S) → x.from_utf8 (x.utf8 t) ≡ some t
    pub json : (m : M) → x.loads (x.dumps m) ≡ some m
    pub json_not_empty : (m : M) → 0 < length (x.dumps m)
    pub floats : (f : F) → x.from_bytes (x.to_bytes f) ≡ f
    pub four : (f : F) → length (x.to_bytes f) ≡ 4

  module _ (faithful : IsFaithful) where
    length-vector_bytes : (fs : List F) → length (vector_bytes x fs) ≡ length fs * 4
    unfolding vector_bytes
    length-vector_bytes [] = omega arith
    length-vector_bytes (f ∷ fs) = omega (
      arith,
      length-append (x.to_bytes f) (vector_bytes x fs),
      faithful.four f,
      length-vector_bytes fs,
    )

    floats_from-vector_bytes :
        (fs : List F) (zs : List ℕ) → floats_from x (length fs) (vector_bytes x fs ++ zs) ≡ fs
    unfolding floats_from vector_bytes
    floats_from-vector_bytes [] zs = refl
    floats_from-vector_bytes (f ∷ fs) zs =
        let split : (x.to_bytes f ++ vector_bytes x fs) ++ zs
            ≡ x.to_bytes f ++ (vector_bytes x fs ++ zs) =
          append_assoc (x.to_bytes f) (vector_bytes x fs) zs in
        let front : take 4 (x.to_bytes f ++ (vector_bytes x fs ++ zs)) ≡ x.to_bytes f =
          subst (λ k. take k (x.to_bytes f ++ (vector_bytes x fs ++ zs)) ≡ x.to_bytes f)
            (faithful.four f) (take-append_exact (x.to_bytes f) (vector_bytes x fs ++ zs)) in
        let rest : drop 4 (x.to_bytes f ++ (vector_bytes x fs ++ zs)) ≡ vector_bytes x fs ++ zs =
          subst (λ k. drop k (x.to_bytes f ++ (vector_bytes x fs ++ zs)) ≡ vector_bytes x fs ++ zs)
            (faithful.four f) (drop-append_exact (x.to_bytes f) (vector_bytes x fs ++ zs)) in
        ap (λ bs. x.from_bytes (take 4 bs) ∷ floats_from x (length fs) (drop 4 bs)) split
        ∙ ap
            (λ bs.
              x.from_bytes bs
              ∷ floats_from x (length fs) (drop 4 (x.to_bytes f ++ (vector_bytes x fs ++ zs))))
            front
        ∙ ap (λ bs. x.from_bytes (x.to_bytes f) ∷ floats_from x (length fs) bs) rest
        ∙ ap (λ g. g ∷ floats_from x (length fs) (vector_bytes x fs ++ zs)) (faithful.floats f)
        ∙ ap (λ gs. f ∷ gs) (floats_from-vector_bytes fs zs)

    buffer-At :
        (buf : List ℕ) (off : ℕ) (fs : List F) (zs : List ℕ)
        → 0 < length zs
        → At buf off (vector_bytes x fs ++ zs)
        → from_buffer x buf (length fs) off ≡ some fs
    unfolding from_buffer
    buffer-At buf off fs zs more a =
        let size = length-vector_bytes fs in
        let rest = length-drop off buf in
        let whole : length (drop off buf) ≡ length (vector_bytes x fs) + length zs =
          ap length a ∙ length-append (vector_bytes x fs) zs in
        let fits : off + length fs * 4 ≤ length buf = omega (arith, size, rest, whole, more) in
        let test : ltb (length buf) (off + length fs * 4) ≡ false = ground (arith, fits) in
        rw test (ap some (ap (floats_from x (length fs)) a ∙ floats_from-vector_bytes fs zs))

    metadata_of-dumps : (m : M) → metadata_of x (x.dumps m) ≡ some m
    unfolding metadata_of
    metadata_of-dumps m = elim (List-cases (x.dumps m)) [
      | inl e ↦
          let none_left : length (x.dumps m) ≡ 0 = ap length e in
          absurd (omega (arith, faithful.json_not_empty m, none_left))
      | inr (b, bs, e) ↦ rw (e, metadata_of) (ap x.loads (sym e) ∙ faithful.json m)
    ]

    text_of-utf8 :
        (t : Option S) → text_of x (if is_some t then 1 else 0) (x.utf8 (text_or x t)) ≡ some t
    unfolding text_of
    text_of-utf8 none = refl
    text_of-utf8 (some t) = rw (faithful.utf8 t) refl

    -- The payload of a delete, if it is encoded, is decoded to the id.
    pub decode_delete-encode_delete :
        (rec_id : S) (payload : List ℕ)
        → encode_delete x rec_id ≡ some payload
        → decode_delete x payload ≡ some rec_id
    unfolding encode_delete decode_delete
    decode_delete-encode_delete rec_id payload e =
        let whole : At payload 0 (payload ++ []) = sym (append-none payload) in
        let read = bytes-At payload 0 (x.utf8 rec_id) payload [] e whole in
        rw (read.0, faithful.utf8 rec_id) refl
      where
        append-none : (xs : List ℕ) → xs ++ [] ≡ xs
        append-none [] = refl
        append-none (y ∷ ys) = ap (λ zs. y ∷ zs) (append-none ys)

    flag-At :
        (buf : List ℕ) (off n : ℕ) → n < 256 → At buf off (n ∷ []) → unpack_byte buf off ≡ some n
    unfolding unpack_byte unpack
    flag-At buf off n small a =
        rw (At-fits buf off 0 (n ∷ []) [] a refl, At-slice buf off 1 (n ∷ []) [] a refl)
          (ap some (omega arith))

    flag-small : (t : Option S) → (if is_some t then 1 else 0) < 256
    flag-small none = omega arith
    flag-small (some t) = omega arith

    parts-decoded :
        (rec_id : S) (vector : List F) (metadata : M) (text : Option S)
        (id_part metadata_part text_part : List ℕ)
        → pack_bytes (x.utf8 rec_id) ≡ some id_part
        → length vector < 2 ^ 32
        → pack_bytes (x.dumps metadata) ≡ some metadata_part
        → pack_bytes (x.utf8 (text_or x text)) ≡ some text_part
        → decode_put x (
            id_part
            ++ (pack 4 (length vector)
                ++ (vector_bytes x vector
                    ++ (metadata_part ++ (text_part ++ (if is_some text then 1 else 0) ∷ [])))))
          ≡ some (rec_id, vector, metadata, text)
    unfolding decode_put
    parts-decoded rec_id vector metadata text p1 p4 p5 e1 small e4 e5 =
        let flag : ℕ = if is_some text then 1 else 0 in
        let after5 : List ℕ = flag ∷ [] in
        let after4 : List ℕ = p5 ++ after5 in
        let after3 : List ℕ = p4 ++ after4 in
        let after2 : List ℕ = vector_bytes x vector ++ after3 in
        let after1 : List ℕ = pack 4 (length vector) ++ after2 in
        let buf : List ℕ = p1 ++ after1 in
        let r1 = bytes-At buf 0 (x.utf8 rec_id) p1 after1 e1 refl in
        let off1 : ℕ = 0 + 4 + length (x.utf8 rec_id) in
        let at2 =
          At-next buf off1 4 (pack 4 (length vector)) after2 r1.1 (length-pack 4 (length vector)) in
        let at3 =
          At-next buf (off1 + 4) (length vector * 4) (vector_bytes x vector) after3 at2
            (length-vector_bytes vector) in
        let more : 0 < length after3 =
          omega (arith, length-append p4 after4, length-append p5 after5) in
        let off3 : ℕ = off1 + 4 + length vector * 4 in
        let r4 = bytes-At buf off3 (x.dumps metadata) p4 after4 e4 at3 in
        let off4 : ℕ = off3 + 4 + length (x.dumps metadata) in
        let r5 = bytes-At buf off4 (x.utf8 (text_or x text)) p5 after5 e5 r4.1 in
        rw
          (
            r1.0,
            u32-At buf off1 (length vector) after2 small r1.1,
            buffer-At buf (off1 + 4) vector after3 more at2,
            r4.0,
            r5.0,
            flag-At buf (off4 + 4 + length (x.utf8 (text_or x text))) flag (flag-small text) r5.1,
            faithful.utf8 rec_id,
            metadata_of-dumps metadata,
            text_of-utf8 text,
          )
          refl

    -- If UTF-8, JSON and the bytes of a float give back what they were given, the payload of a put, if
    -- it is encoded, is decoded to the id, the vector, the metadata and the text, where no text and an
    -- empty one are told apart.
    pub decode_put-encode_put :
        (rec_id : S) (vector : List F) (metadata : M) (text : Option S) (payload : List ℕ)
        → encode_put x rec_id vector metadata text ≡ some payload
        → decode_put x payload ≡ some (rec_id, vector, metadata, text)
    unfolding encode_put
    decode_put-encode_put rec_id vector metadata text payload e =
        elim (Option-cases (pack_bytes (x.utf8 rec_id))) [
          | inl bad ↦ let never : none ≡ some payload = rw bad at e in absurd (cc)
          | inr (p1, e1) ↦ elim (Bool-cases (ltb (length vector) (2 ^ 32))) [
            | inr long ↦ let never : none ≡ some payload = rw (e1, long) at e in absurd (cc)
            | inl short ↦ elim (Option-cases (pack_bytes (x.dumps metadata))) [
              | inl bad ↦ let never : none ≡ some payload = rw (e1, short, bad) at e in absurd (cc)
              | inr (p4, e4) ↦ elim (Option-cases (pack_bytes (x.utf8 (text_or x text)))) [
                | inl bad ↦
                    let never : none ≡ some payload = rw (e1, short, e4, bad) at e in absurd (cc)
                | inr (p5, e5) ↦
                    subst (λ b. decode_put x b ≡ some (rec_id, vector, metadata, text))
                      (same_payload (rw (e1, short, e4, e5) at e))
                      (parts-decoded rec_id vector metadata text p1 p4 p5 e1 (ground (arith, short))
                        e4 e5)
              ]
            ]
          ]
        ]
      where
        same_payload : {xs ys : List ℕ} → some xs ≡ some ys → xs ≡ ys
        same_payload h = cc h
