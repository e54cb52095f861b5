-- ===== src/Block/Buffer.antt =====
-- Writes into a fixed array of bytes.
use mathlib.Core.List.{append_assoc}
use reftable.Base.{
  ℕ, zero, suc, ◌+◌, ◌≤◌, ◌≡◌, refl, ap, List, [], ◌∷◌, ◌++◌, Result, ok, fault, out_of_bounds,
  length, length-append, length-take, length-drop, take, drop, take-append, drop-append, ltb,
  if◌then◌else◌, arith,
}

abbrev pub splice : List ℕ → ℕ → List ℕ → List ℕ
splice buf off bytes = take off buf ++ (bytes ++ drop (off + length bytes) buf)

-- memcpy(buf + off, bytes, …); past the end of the array it is a fault.
unfoldable pub write_at : List ℕ → ℕ → List ℕ → Result (List ℕ)
write_at buf off bytes =
    if ltb (length buf) (off + length bytes) then fault out_of_bounds else ok (splice buf off bytes)

module _ (buf : List ℕ) (off : ℕ) (bytes : List ℕ) (fits : off + length bytes ≤ length buf) where
  pub write_at-ok : write_at buf off bytes ≡ ok (splice buf off bytes)
  unfolding write_at
  write_at-ok = ground arith

  pub length-splice : length (splice buf off bytes) ≡ length buf
  length-splice = omega (
    arith,
    length-append (take off buf) (bytes ++ drop (off + length bytes) buf),
    length-append bytes (drop (off + length bytes) buf),
    length-take off buf,
    length-drop (off + length bytes) buf,
  )

  -- The array up to the end of the write: what stood before it, and what was written.
  pub take-splice :
      (n : ℕ) → n ≡ off + length bytes → take n (splice buf off bytes) ≡ take off buf ++ bytes
  take-splice n e = rw (← append_assoc (take off buf) bytes (drop (off + length bytes) buf)) (
      take-append n (take off buf ++ bytes) _
        (omega (arith, length-append (take off buf) bytes, length-take off buf)))

-- A shorter front of the array is a front of the longer one.
pub take-take {ℓ} : {A : Type ℓ} (m n : ℕ) (xs : List A) → m ≤ n → take m (take n xs) ≡ take m xs
take-take zero n xs h = refl
take-take (suc m) zero xs h = absurd (omega arith)
take-take (suc m) (suc n) [] h = refl
take-take (suc m) (suc n) (x ∷ xs) h = ap (◌∷◌ x) (take-take m n xs (omega arith))

pub take_append_le {ℓ} :
    {A : Type ℓ} (n : ℕ) (xs ys : List A) → n ≤ length xs → take n (xs ++ ys) ≡ take n xs
take_append_le zero xs ys h = refl
take_append_le (suc n) [] ys h = absurd (omega arith)
take_append_le (suc n) (x ∷ xs) ys h = ap (◌∷◌ x) (take_append_le n xs ys (omega arith))

pub take-append_more {ℓ} :
    {A : Type ℓ} (n k m : ℕ) (xs ys : List A)
    → length xs ≡ n
    → n + k ≡ m
    → take m (xs ++ ys) ≡ xs ++ take k ys
take-append_more zero k m [] ys e s = let e' : m ≡ k = omega arith in rw e'
take-append_more (suc n) k zero (x ∷ xs) ys e s = absurd (omega arith)
take-append_more (suc n) k (suc m) (x ∷ xs) ys e s =
    ap (◌∷◌ x) (take-append_more n k m xs ys (omega arith) (omega arith))
take-append_more zero k m (x ∷ xs) ys e s = absurd (omega arith)
take-append_more (suc n) k m [] ys e s = absurd (omega arith)

-- A write over a part of the same length.
pub splice_middle :
    (a b c d : List ℕ) → length b ≡ length d → splice (a ++ (b ++ c)) (length a) d ≡ a ++ (d ++ c)
splice_middle a b c d e = rw (
  take-append (length a) a (b ++ c) refl,
  ← append_assoc a b c,
  drop-append (length a + length d) (a ++ b) c (omega (arith, length-append a b)),
)
