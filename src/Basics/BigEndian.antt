-- ===== src/Basics/BigEndian.antt =====
-- Big-endian integers: put_be16, put_be24 and get_be24 of c/basics.c; get_be16, put_be32, get_be32,
-- put_be64 and get_be64 of c/git-compat-util.c. A put function returns the bytes that it stores.
use reftable.Base.{
  ℕ, zero, suc, ◌+◌, ◌*◌, ◌/◌, ◌%◌, ◌^◌, ◌<◌, ◌≡◌, refl, List, [], ◌∷◌, ◌++◌, Result, ok, fault,
  out_of_bounds, ◌>>=◌, load, length, arith,
}

unfoldable pub put_be24 : ℕ → List ℕ
put_be24 i = (i / 2 ^ 16 % 256) ∷ (i / 2 ^ 8 % 256) ∷ (i % 256) ∷ []

unfoldable pub get_be24 : List ℕ → Result ℕ
get_be24 bytes = do
  a ← load bytes 0
  b ← load bytes 1
  c ← load bytes 2
  ok (a * 2 ^ 16 + b * 2 ^ 8 + c)

unfoldable pub put_be16 : ℕ → List ℕ
put_be16 i = (i / 2 ^ 8 % 256) ∷ (i % 256) ∷ []

-- The result type is uint16_t.
unfoldable pub get_be16 : List ℕ → Result ℕ
get_be16 bytes = do a ← load bytes 0; b ← load bytes 1; ok ((a * 2 ^ 8 + b) % 2 ^ 16)

unfoldable pub put_be32 : ℕ → List ℕ
put_be32 i = (i / 2 ^ 24 % 256) ∷ (i / 2 ^ 16 % 256) ∷ (i / 2 ^ 8 % 256) ∷ (i % 256) ∷ []

unfoldable pub get_be32 : List ℕ → Result ℕ
get_be32 bytes = do
  a ← load bytes 0
  b ← load bytes 1
  c ← load bytes 2
  d ← load bytes 3
  ok (a * 2 ^ 24 + b * 2 ^ 16 + c * 2 ^ 8 + d)

-- The loop of put_be64 fills the array from its end: `out` holds the bytes stored so far.
unfoldable pub put_be64_loop : ℕ → ℕ → List ℕ → List ℕ
put_be64_loop zero v out = out
put_be64_loop (suc i) v out = put_be64_loop i (v / 2 ^ 8) ((v % 256) ∷ out)

unfoldable pub put_be64 : ℕ → List ℕ
unfolding put_be64_loop
put_be64 v = put_be64_loop 8 v []

-- `v = (v << 8) | bytes[i]`, with `rounds` bytes still to come.
get_be64_loop : ℕ → List ℕ → ℕ → Result ℕ
get_be64_loop zero bytes v = ok v
get_be64_loop (suc rounds) [] v = fault out_of_bounds
get_be64_loop (suc rounds) (b ∷ bytes) v = get_be64_loop rounds bytes (v * 2 ^ 8 % 2 ^ 64 + b % 256)

unfoldable pub get_be64 : List ℕ → Result ℕ
unfolding get_be64_loop
get_be64 bytes = get_be64_loop 8 bytes 0

-- get_be24 reads back a number of 24 bits that put_be24 wrote, whatever follows it.
pub get_be24-put_be24 : (i : ℕ) (rest : List ℕ) → i < 2 ^ 24 → get_be24 (put_be24 i ++ rest) ≡ ok i
unfolding get_be24 put_be24
get_be24-put_be24 i rest h = ground arith

pub get_be16-put_be16 : (i : ℕ) (rest : List ℕ) → i < 2 ^ 16 → get_be16 (put_be16 i ++ rest) ≡ ok i
unfolding get_be16 put_be16
get_be16-put_be16 i rest h = ground arith

pub get_be32-put_be32 : (i : ℕ) (rest : List ℕ) → i < 2 ^ 32 → get_be32 (put_be32 i ++ rest) ≡ ok i
unfolding get_be32 put_be32
get_be32-put_be32 i rest h = ground arith

-- get_be64 reads back a number of 64 bits that put_be64 wrote, whatever follows it.
pub get_be64-put_be64 : (v : ℕ) (rest : List ℕ) → v < 2 ^ 64 → get_be64 (put_be64 v ++ rest) ≡ ok v
unfolding get_be64 put_be64
get_be64-put_be64 v rest h = ground arith

pub length-put_be64 : (v : ℕ) → length (put_be64 v) ≡ 8
unfolding put_be64
length-put_be64 v = refl
