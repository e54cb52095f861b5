-- ===== src/Record/VarInt.antt =====
-- get_var_int and put_var_int of c/record.c: a uint64_t in groups of seven bits, highest first, with
-- the top bit set on every byte but the last, and each group after the first counted from one.
use reftable.Base.{
  ℕ, zero, suc, ◌+◌, ◌-◌, ◌*◌, ◌/◌, ◌%◌, ◌^◌, ◌≤◌, ◌<◌, ◌≡◌, refl, ap, List, [], ◌∷◌, ◌++◌, Result,
  ok, err, fault, general, out_of_bounds, ◌>>=◌, length, All, ltb, ◌==◌, if◌then◌else◌, ◌≢◌, arith,
  Bool, Bool-cases, inl, inr,
}
use native.Mathlib.Nat.{pow-suc}
use reftable.Record.Codec.{Writes, Reads}
use reftable.Record.View.{View, view, u64}

-- `b & 0x80`
abbrev pub more : ℕ → Bool
more b = b / 128 % 2 == 1

-- The `while` of get_var_int: `b` is in->buf[ptr], and `bytes` is the memory behind it.
get_loop : ℕ → ℕ → ℕ → ℕ → List ℕ → Result (ℕ × ℕ)
get_loop len b val ptr [] =
    if more b
    then (if ltb len (ptr + 1) then err general else fault out_of_bounds)
    else ok (val, ptr + 1)
get_loop len b val ptr (c ∷ bytes) =
    let rest = get_loop len c ((val + 1) * 128 % u64 + c % 128) (ptr + 1) bytes in
    let next = if ltb len (ptr + 1) then err general else rest in
    if more b then next else ok (val, ptr + 1)

-- The value, and the number of bytes that it takes.
unfoldable pub get_var_int : View → Result (ℕ × ℕ)
unfolding get_loop
get_var_int in' = if in'.len == 0 then err general else elim in'.buf [
  | [] ↦ fault out_of_bounds
  | b ∷ bytes ↦ get_loop in'.len b (b % 128) 0 bytes
]

-- The `while` of put_var_int: `slots` bytes of buf[10] are left below those in `out`.
put_loop : ℕ → ℕ → List ℕ → Result (List ℕ)
put_loop zero val out = if val / 128 == 0 then ok out else fault out_of_bounds
put_loop (suc slots) val out =
    let val' = val / 128 - 1 in
    let rest = put_loop slots val' ((128 + val' % 128) ∷ out) in
    if val / 128 == 0 then ok out else rest

unfoldable pub put_var_int : ℕ → ℕ → Result (List ℕ)
unfolding put_loop
put_var_int room val = do
  bytes ← put_loop 9 val ((val % 128) ∷ [])
  if ltb room (length bytes) then err general else ok bytes

-- `b ∷ tail` reads as `total` once the groups before it have been read as `val`.
abbrev ReadsAs : ℕ → ℕ → List ℕ → ℕ → Type 0
ReadsAs b val tail total =
    (len ptr : ℕ) (rest : List ℕ)
    → ptr + length tail + 1 ≤ len
    → get_loop len b val ptr (tail ++ rest) ≡ ok (total, ptr + length tail + 1)

ReadsAs-more :
    (b val total : ℕ) (tail : List ℕ)
    → val < u64
    → val / 128 ≢ 0
    → b % 128 ≡ val % 128
    → ReadsAs b val tail total
    → ReadsAs (128 + (val / 128 - 1) % 128) (val / 128 - 1) (b ∷ tail) total
unfolding get_loop
ReadsAs-more b val total tail small big low h len ptr rest fits =
    let e : (val / 128 - 1 + 1) * 128 % u64 + b % 128 ≡ val = omega arith in
    rw e (ground (arith, h len (ptr + 1) rest))

-- What put_loop answers: bytes that read as the number, and at most `slots` more of them.
record Encodes (limit total : ℕ) (r : Result (List ℕ)) : Type 0 where
  bytes : List ℕ
  result : r ≡ ok bytes
  short : length bytes ≤ limit
  nonempty : 0 < length bytes
  inside : All (λ b. b < 256) bytes
  reads :
      (len : ℕ) (rest : List ℕ)
      → length bytes ≤ len
      → get_var_int (view (bytes ++ rest) len) ≡ ok (total, length bytes)

put_loop_done :
    (limit b val total : ℕ) (tail : List ℕ)
    → length tail + 1 ≤ limit
    → val / 128 ≡ 0
    → b % 128 ≡ val % 128
    → All (λ b. b < 256) (b ∷ tail)
    → ReadsAs b val tail total
    → Encodes limit total (ok (b ∷ tail))
unfolding get_var_int
put_loop_done limit b val total tail short last low inside h = record {
  bytes = b ∷ tail;
  result = refl;
  short = omega arith;
  nonempty = omega arith;
  inside = inside;
  reads = λ len rest fits.
      let e : b % 128 ≡ val = omega arith in
      ground (arith, e, ap (λ v. get_loop len b v 0 (tail ++ rest)) e, h len 0 rest);
}

put_loop-Encodes :
    (slots limit b val total : ℕ) (tail : List ℕ)
    → slots + length tail + 1 ≤ limit
    → val < 128 ^ suc slots
    → val < u64
    → b % 128 ≡ val % 128
    → All (λ b. b < 256) (b ∷ tail)
    → ReadsAs b val tail total
    → Encodes limit total (put_loop slots val (b ∷ tail))
unfolding put_loop
put_loop-Encodes zero limit b val total tail short bound small low inside h =
    let last : val / 128 ≡ 0 = omega arith in
    rw last (put_loop_done limit b val total tail (omega arith) last low inside h)
put_loop-Encodes (suc slots) limit b val total tail short bound small low inside h =
    elim (Bool-cases (val / 128 == 0)) [
      | inl last ↦
          rw last (put_loop_done limit b val total tail (omega arith) (ground arith) low inside h)
      | inr on ↦ rw on (
          put_loop-Encodes slots limit (128 + (val / 128 - 1) % 128) (val / 128 - 1) total
            (b ∷ tail) (omega arith) (omega (arith, pow-suc 128 (suc slots))) (omega arith)
            (omega arith) (omega arith, inside)
            (ReadsAs-more b val total tail small (ground arith) low h))
    ]

start-ReadsAs : (v : ℕ) → v < u64 → ReadsAs (v % 128) v [] v
unfolding get_loop
start-ReadsAs v small len ptr [] fits = ground arith
start-ReadsAs v small len ptr (c ∷ rest) fits = ground arith

encoded : (v : ℕ) → v < u64 → Encodes 10 v (put_loop 9 v ((v % 128) ∷ []))
encoded v small =
    put_loop-Encodes 9 10 (v % 128) v v [] (omega arith) (omega arith) small (omega arith)
      (omega arith, tt) (start-ReadsAs v small)

-- The bytes that put_var_int writes when there is room.
unfoldable pub varint : ℕ → List ℕ
unfolding put_loop
varint v = elim (put_loop 9 v ((v % 128) ∷ [])) [ ok bytes ↦ bytes | err e ↦ [] | fault x ↦ [] ]

varint_lem : (v : ℕ) (small : v < u64) → varint v ≡ (encoded v small).bytes
unfolding varint
varint_lem v small = rw (varint, (encoded v small).result)

-- With room for them put_var_int writes those bytes, and else it fails; buf[10] never overflows.
pub put_var_int-Writes : (v : ℕ) → v < u64 → Writes (λ room. put_var_int room v) (varint v)
unfolding put_var_int
put_var_int-Writes v small room = rw ((encoded v small).result, varint_lem v small)

pub varint-Reads : (v : ℕ) → v < u64 → Reads get_var_int (varint v) v
varint-Reads v small len rest fits _ =
    let e = encoded v small in
    rw (varint_lem v small) (e.reads len rest (rw (varint_lem v small) at fits))

pub length-varint : (v : ℕ) → v < u64 → (0 < length (varint v)) × (length (varint v) ≤ 10)
length-varint v small = let e = encoded v small in rw (varint_lem v small) (e.nonempty, e.short)

pub varint_bytes : (v : ℕ) → v < u64 → All (λ b. b < 256) (varint v)
varint_bytes v small = rw (varint_lem v small) ((encoded v small).inside)
