-- ===== src/Wal/Bytes.antt =====
-- src/annex/storage/codec.py: little-endian integers and slices of a buffer.
use python_pj.Prelude.{
  ℕ, zero, suc, ◌+◌, ◌/◌, ◌^◌, ◌<◌, ◌≤◌, ◌≡◌, refl, ap, true, List, [], ◌∷◌, ◌++◌, arith, length,
  take, drop,
}
use python_pj.Wal.{pack, unpack, same_bytes}

pub length-pack : (w n : ℕ) → length (pack w n) ≡ w
unfolding pack
length-pack zero n = refl
length-pack (suc w) n = omega (arith, length-pack w (n / 256))

-- An integer that fits its width is read back.
pub unpack-pack : (w n : ℕ) → n < 256 ^ w → unpack (pack w n) ≡ n
unfolding pack unpack
unpack-pack zero n h = omega arith
unpack-pack (suc w) n h =
    let small : n / 256 < 256 ^ w = omega arith in omega (arith, unpack-pack w (n / 256) small)

pub same_bytes_refl : (xs : List ℕ) → same_bytes xs xs ≡ true
same_bytes_refl [] = refl
same_bytes_refl (x ∷ xs) = ground (arith, same_bytes_refl xs)

module _ {ℓ} {A : Type ℓ} where
  pub drop-append_add : (xs ys : List A) (n : ℕ) → drop (length xs + n) (xs ++ ys) ≡ drop n ys
  drop-append_add [] ys n = let e : 0 + n ≡ n = omega arith in rw e refl
  drop-append_add (x ∷ xs) ys n =
      let e : suc (length xs) + n ≡ suc (length xs + n) = omega arith in
      rw e (drop-append_add xs ys n)

  -- A slice that lies within a prefix of a list is the list's.
  pub take-drop-take :
      (j k n : ℕ) (xs : List A) → j + k ≤ n → take k (drop j (take n xs)) ≡ take k (drop j xs)
  take-drop-take j k zero [] h = refl
  take-drop-take j k (suc n) [] h = refl
  take-drop-take zero zero n (x ∷ xs) h = refl
  take-drop-take zero (suc k) zero (x ∷ xs) h = absurd (omega arith)
  take-drop-take zero (suc k) (suc n) (x ∷ xs) h =
      ap (◌∷◌ x) (take-drop-take zero k n xs (omega arith))
  take-drop-take (suc j) k zero (x ∷ xs) h = absurd (omega arith)
  take-drop-take (suc j) k (suc n) (x ∷ xs) h = take-drop-take j k n xs (omega arith)
