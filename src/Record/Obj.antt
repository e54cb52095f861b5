-- ===== src/Record/Obj.antt =====
-- The obj records of c/record.c: a prefix of an object ID and the offsets of the blocks that name it.
use mathlib.Core.List.{append_assoc}
use reftable.Base.{
  ℕ, zero, suc, ◌+◌, ◌-◌, ◌%◌, ◌≤◌, ◌<◌, ◌≡◌, refl, List, [], ◌∷◌, ◌++◌, Result, ok, ◌>>=◌, length,
  length-append, false, ltb, leb, ◌==◌, if◌then◌else◌, ◌&&◌, ◌||◌, arith, All, take, take_all,
  Bool-cases, inl, inr, ◌^◌,
}
use reftable.Record.View.{View, view, u64, consume, consumed, consume-append, consumed_lem}
use reftable.Record.Codec.{Writes, Reads, in_turn, Writes-in_turn}
use reftable.Record.VarInt.{get_var_int, put_var_int, varint, put_var_int-Writes, varint-Reads}
use reftable.Record.Types.{ObjRecord}

unfoldable pub obj_record_key : ObjRecord → List ℕ
obj_record_key r = take r.hash_prefix_len r.hash_prefix

unfoldable pub obj_record_val_type : ObjRecord → ℕ
obj_record_val_type r = let n = length r.offsets in if ltb 0 n && ltb n 8 then n else 0

-- The `for` from the second offset on: each is written as its distance, a uint64_t, from the `last`.
put_deltas : ℕ → List ℕ → ℕ → Result (List ℕ)
put_deltas last [] room = ok []
put_deltas last (o ∷ os) room =
    in_turn (λ room. put_var_int room ((o + u64 - last) % u64)) (put_deltas o os) room

put_offsets : List ℕ → ℕ → Result (List ℕ)
unfolding put_deltas
put_offsets [] room = ok []
put_offsets (o ∷ os) room = in_turn (λ room. put_var_int room o) (put_deltas o os) room

-- The count is written only if the value type does not hold it.
put_count : ℕ → ℕ → Result (List ℕ)
put_count n room = if n == 0 || leb 8 n then put_var_int room n else ok []

unfoldable pub obj_record_encode : ℕ → ObjRecord → ℕ → Result (List ℕ)
unfolding put_count put_offsets
obj_record_encode hash_size r = in_turn (put_count (length r.offsets)) (put_offsets r.offsets)

-- The `while (j < count)`, with `rounds` offsets to come; the offsets and the view behind them.
get_deltas : ℕ → ℕ → View → Result (List ℕ × View)
get_deltas zero last in' = ok ([], in')
get_deltas (suc rounds) last in' = do
  (delta, n) ← get_var_int in'
  let o = (delta + last) % u64
  (os, rest) ← get_deltas rounds o (consume in' n)
  ok (o ∷ os, rest)

get_offsets : ℕ → View → Result (List ℕ × View)
unfolding get_deltas
get_offsets zero in' = ok ([], in')
get_offsets (suc rounds) in' = do
  (o, n) ← get_var_int in'
  (os, rest) ← get_deltas rounds o (consume in' n)
  ok (o ∷ os, rest)

get_count : ℕ → View → Result (ℕ × View)
get_count val_type in' =
    if val_type == 0
    then (do (count, n) ← get_var_int in'; ok (count, consume in' n))
    else ok (val_type, in')

unfoldable pub obj_record_decode : ℕ → List ℕ → ℕ → View → Result (ObjRecord × ℕ)
unfolding get_count get_offsets
obj_record_decode hash_size key val_type start = do
  (count, in') ← get_count val_type start
  (offsets, rest) ← get_offsets count in'
  ok (
    record { hash_prefix = key; hash_prefix_len = length key; offsets = offsets },
    consumed start rest,
  )

delta_bytes : ℕ → List ℕ → List ℕ
delta_bytes last [] = []
delta_bytes last (o ∷ os) = varint ((o + u64 - last) % u64) ++ delta_bytes o os

offset_bytes : List ℕ → List ℕ
unfolding delta_bytes
offset_bytes [] = []
offset_bytes (o ∷ os) = varint o ++ delta_bytes o os

count_bytes : ℕ → List ℕ
count_bytes n = if n == 0 || leb 8 n then varint n else []

pub obj_bytes : ObjRecord → List ℕ
unfolding count_bytes offset_bytes
obj_bytes r = count_bytes (length r.offsets) ++ offset_bytes r.offsets

pub record IsObj (r : ObjRecord) : Type 0 where
  pub whole : length r.hash_prefix ≡ r.hash_prefix_len
  pub counted : length r.offsets < 2 ^ 31
  pub ranged : All (λ o. o < u64) r.offsets

put_deltas-Writes :
    (last : ℕ) (os : List ℕ)
    → All (λ o. o < u64) os
    → Writes (put_deltas last os) (delta_bytes last os)
unfolding put_deltas delta_bytes
put_deltas-Writes last [] h room = ground arith
put_deltas-Writes last (o ∷ os) (ho, hs) room =
    Writes-in_turn _ _ _ _ (put_var_int-Writes ((o + u64 - last) % u64) (omega arith))
      (put_deltas-Writes o os hs) room

put_offsets-Writes :
    (os : List ℕ) → All (λ o. o < u64) os → Writes (put_offsets os) (offset_bytes os)
unfolding put_offsets offset_bytes
put_offsets-Writes [] h room = ground arith
put_offsets-Writes (o ∷ os) (ho, hs) room =
    Writes-in_turn _ _ _ _ (put_var_int-Writes o ho) (put_deltas-Writes o os hs) room

put_count-Writes : (n : ℕ) → n < u64 → Writes (put_count n) (count_bytes n)
unfolding put_count count_bytes
put_count-Writes n small room = ground (arith, put_var_int-Writes n small room)

pub obj_record_encode-Writes :
    (hash_size : ℕ) (r : ObjRecord) → IsObj r → Writes (obj_record_encode hash_size r) (obj_bytes r)
unfolding obj_record_encode obj_bytes
obj_record_encode-Writes hash_size r w =
    Writes-in_turn _ _ _ _ (put_count-Writes (length r.offsets) (omega (arith, w.counted)))
      (put_offsets-Writes r.offsets w.ranged)

get_deltas-bytes :
    (last : ℕ) (os : List ℕ) (len : ℕ) (rest : List ℕ)
    → last < u64
    → All (λ o. o < u64) os
    → length (delta_bytes last os) ≤ len
    → len < u64
    → get_deltas (length os) last (view (delta_bytes last os ++ rest) len)
      ≡ ok (os, view rest (len - length (delta_bytes last os)))
unfolding get_deltas delta_bytes
get_deltas-bytes last [] len rest hl h fits bound = let e : len - 0 ≡ len = omega arith in rw e
get_deltas-bytes last (o ∷ os) len rest hl (ho, hs) fits bound =
    let d = (o + u64 - last) % u64 in
    let n = length (varint d) in
    let total = length-append (varint d) (delta_bytes o os) in
    let back : (d + last) % u64 ≡ o = omega arith in
    rw
      (
        append_assoc (varint d) (delta_bytes o os) rest,
        varint-Reads d (omega arith) len (delta_bytes o os ++ rest) (omega arith) bound,
        consume-append (varint d) (delta_bytes o os ++ rest) n len refl (omega arith) bound,
        back,
        get_deltas-bytes o os (len - n) rest ho hs (omega arith) (omega arith),
      )
      (ground arith)

get_offsets-bytes :
    (os : List ℕ) (len : ℕ) (rest : List ℕ)
    → All (λ o. o < u64) os
    → length (offset_bytes os) ≤ len
    → len < u64
    → get_offsets (length os) (view (offset_bytes os ++ rest) len)
      ≡ ok (os, view rest (len - length (offset_bytes os)))
unfolding get_offsets offset_bytes
get_offsets-bytes [] len rest h fits bound = let e : len - 0 ≡ len = omega arith in rw e
get_offsets-bytes (o ∷ os) len rest (ho, hs) fits bound =
    let n = length (varint o) in
    let total = length-append (varint o) (delta_bytes o os) in
    rw
      (
        append_assoc (varint o) (delta_bytes o os) rest,
        varint-Reads o ho len (delta_bytes o os ++ rest) (omega arith) bound,
        consume-append (varint o) (delta_bytes o os ++ rest) n len refl (omega arith) bound,
        get_deltas-bytes o os (len - n) rest ho hs (omega arith) (omega arith),
      )
      (ground arith)

abbrev count_type : ℕ → ℕ
count_type n = if ltb 0 n && ltb n 8 then n else 0

get_count-bytes :
    (n len : ℕ) (rest : List ℕ)
    → n < u64
    → length (count_bytes n) ≤ len
    → len < u64
    → get_count (count_type n) (view (count_bytes n ++ rest) len)
      ≡ ok (n, view rest (len - length (count_bytes n)))
unfolding get_count count_bytes
get_count-bytes n len rest small fits bound = elim (Bool-cases (n == 0 || leb 8 n)) [
  | inl long ↦
      let zero_type : count_type n ≡ 0 = ground arith in
      let fits' : length (varint n) ≤ len = rw long at fits in
      rw (
        zero_type,
        long,
        varint-Reads n small len rest fits' bound,
        consume-append (varint n) rest (length (varint n)) len refl fits' bound,
      )
  | inr short ↦
      let own_type : count_type n ≡ n = ground arith in
      let pos : (n == 0) ≡ false = ground arith in
      let whole : len - 0 ≡ len = omega arith in rw (own_type, short, pos, whole)
]

-- Decoding with the record's own key and value type gives back the prefix and the offsets.
pub obj-Reads :
    (hash_size : ℕ) (r : ObjRecord)
    → IsObj r
    → Reads (obj_record_decode hash_size (obj_record_key r) (obj_record_val_type r)) (obj_bytes r) r
unfolding obj_record_decode obj_record_key obj_record_val_type obj_bytes
obj-Reads hash_size r w len rest fits bound =
    let os = r.offsets in
    let counts = count_bytes (length os) in
    let total = length-append counts (offset_bytes os) in
    rw
      (
        append_assoc counts (offset_bytes os) rest,
        get_count-bytes (length os) len (offset_bytes os ++ rest) (omega (arith, w.counted))
            (omega arith) bound,
        get_offsets-bytes os (len - length counts) rest w.ranged (omega arith) (omega arith),
        consumed_lem (counts ++ (offset_bytes os ++ rest)) rest
            (length counts + length (offset_bytes os)) len
            (len - length counts - length (offset_bytes os)) (omega arith) bound,
      )
      (ground (arith, take_all r.hash_prefix_len r.hash_prefix, w.whole))
