-- ===== src/Record/Key.antt =====
-- reftable_encode_key and reftable_decode_key of c/record.c: a key as the length of the prefix that it
-- shares with the key before it, and its other bytes.
use mathlib.Core.List.{append_assoc}
use reftable.Base.{
  ℕ, ◌+◌, ◌-◌, ◌*◌, ◌/◌, ◌%◌, ◌^◌, ◌≤◌, ◌<◌, ◌≡◌, refl, List, [], ◌++◌, Result, ok, err, general,
  ◌>>=◌, length, length-append, length-drop, take, drop, take-append-drop, Bool, ltb, ◌==◌,
  if◌then◌else◌, arith,
}
use reftable.Basics.Bytes.{common_prefix_size, common_prefix_size_bounds, take-common_prefix_size}
use reftable.Record.View.{
  View, u64, consume, consumed, consume-append, consumed_lem, copy, copy-append, copy-take,
}
use reftable.Record.Codec.{Writes, Reads, in_turn, Writes-in_turn, put_bytes, put_bytes-Writes}
use reftable.Record.VarInt.{
  get_var_int, put_var_int, varint, put_var_int-Writes, varint-Reads, length-varint,
}

abbrev pub suffix : List ℕ → List ℕ → List ℕ
suffix prev_key key = drop (common_prefix_size prev_key key) key

-- `suffix_len << 3 | extra` for an `extra` below 8, in a uint64_t.
abbrev pub key_code : List ℕ → List ℕ → ℕ → ℕ
key_code prev_key key extra = (length key - common_prefix_size prev_key key) * 8 % u64 + extra

-- The bytes; `*restart` is `is_restart`. `prefix_len` and the answer are an int: keys of 2^31 bytes and more are
-- not modelled.
unfoldable pub encode_key : List ℕ → List ℕ → ℕ → ℕ → Result (List ℕ)
encode_key prev_key key extra =
    in_turn (λ room. put_var_int room (common_prefix_size prev_key key))
      (in_turn (λ room. put_var_int room (key_code prev_key key extra))
        (put_bytes (length key - common_prefix_size prev_key key) (suffix prev_key key)))

unfoldable pub is_restart : List ℕ → List ℕ → Bool
is_restart prev_key key = common_prefix_size prev_key key == 0

pub record Key : Type 0 where
  pub key : List ℕ
  pub extra : ℕ

unfoldable pub decode_key : List ℕ → View → Result (Key × ℕ)
decode_key last_key start = do
  (prefix_len, n) ← get_var_int start
  let in1 = consume start n
  if ltb (length last_key) prefix_len then err general else (do
    (code, m) ← get_var_int in1
    let in2 = consume in1 m
    let suffix_len = code / 8
    if ltb in2.len suffix_len then err general else (do
      shared ← copy prefix_len last_key
      own ← copy suffix_len in2.buf
      ok (
        record { key = shared ++ own; extra = code % 8 },
        consumed start (consume in2 suffix_len),
      )))

abbrev pub key_bytes : List ℕ → List ℕ → ℕ → List ℕ
key_bytes prev_key key extra =
    varint (common_prefix_size prev_key key)
    ++ (varint (key_code prev_key key extra) ++ suffix prev_key key)

module _ (prev_key key : List ℕ) (extra : ℕ) (small : length key < 2 ^ 32) (three : extra < 8) where
  pub encode_key-Writes : Writes (encode_key prev_key key extra) (key_bytes prev_key key extra)
  unfolding encode_key
  encode_key-Writes =
      let (_, inside) = common_prefix_size_bounds prev_key key in
      Writes-in_turn _ _ _ _ (put_var_int-Writes _ (omega arith)) (
        Writes-in_turn _ _ _ _ (put_var_int-Writes _ (omega arith))
          (put_bytes-Writes _ _ (length-drop _ key)))

  -- decode_key undoes encode_key, when the key that it is given starts with the shared prefix.
  key_shared-Reads :
      (last : List ℕ)
      → common_prefix_size prev_key key ≤ length last
      → take (common_prefix_size prev_key key) last ≡ take (common_prefix_size prev_key key) key
      → Reads (decode_key last) (key_bytes prev_key key extra) (record { key = key; extra = extra })
  unfolding decode_key
  key_shared-Reads last left same len rest fits bound =
      let p = common_prefix_size prev_key key in
      let c = key_code prev_key key extra in
      let own = suffix prev_key key in
      let (_, right) = common_prefix_size_bounds prev_key key in
      let split : c / 8 ≡ length key - p = omega arith in
      let flag : c % 8 ≡ extra = omega arith in
      let size = length-drop p key in
      let total = length-append (varint p) (varint c ++ own) in
      let inner = length-append (varint c) own in
      rw
        (
          append_assoc (varint p) (varint c ++ own) rest,
          append_assoc (varint c) own rest,
          varint-Reads p (omega arith) len (varint c ++ (own ++ rest)) (omega arith) bound,
          consume-append (varint p) (varint c ++ (own ++ rest)) _ len refl (omega arith) bound,
          varint-Reads c (omega arith) (len - length (varint p)) (own ++ rest) (omega arith)
              (omega arith),
          consume-append (varint c) (own ++ rest) _ (len - length (varint p)) refl (omega arith)
              (omega arith),
          copy-take p last left,
          split,
          flag,
          copy-append (length key - p) own rest size,
          consume-append own rest _ (len - length (varint p) - length (varint c)) size (omega arith)
              (omega arith),
        )
        (ground (
          arith,
          joined,
          consumed_lem (varint p ++ (varint c ++ (own ++ rest))) rest
              (length (varint p) + length (varint c) + (length key - p)) len
              (len - length (varint p) - length (varint c) - (length key - p)),
        ))
    where
      joined : take (common_prefix_size prev_key key) last ++ suffix prev_key key ≡ key
      joined = rw same (take-append-drop (common_prefix_size prev_key key) key)

  pub key-Reads :
      Reads
        (decode_key prev_key)
        (key_bytes prev_key key extra)
        (record { key = key; extra = extra })
  key-Reads =
      key_shared-Reads prev_key (common_prefix_size_bounds prev_key key).0
        (take-common_prefix_size prev_key key)

-- A key that is written whole is read back whatever key came before.
pub key-Reads_restart :
    (last key : List ℕ) (extra : ℕ)
    → length key < 2 ^ 32
    → extra < 8
    → Reads (decode_key last) (key_bytes [] key extra) (record { key = key; extra = extra })
key-Reads_restart last key extra small three =
    key_shared-Reads [] key extra small three last (omega (arith, common_prefix_size_bounds [] key))
      (unfold common_prefix_size in refl)

pub key_bytes_pos :
    (prev_key key : List ℕ) (extra : ℕ)
    → length key < 2 ^ 32
    → 0 < length (key_bytes prev_key key extra)
key_bytes_pos prev_key key extra small =
    let (_, inside) = common_prefix_size_bounds prev_key key in
    let code = varint (key_code prev_key key extra) in
    omega (
      arith,
      length-varint (common_prefix_size prev_key key) (omega arith),
      length-append (varint (common_prefix_size prev_key key)) (code ++ suffix prev_key key),
    )
