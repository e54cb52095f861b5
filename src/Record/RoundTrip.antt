-- ===== src/Record/RoundTrip.antt =====
-- The encoders and decoders of c/record.c against each other, with the conditions written out.
use reftable.Base.{
  ℕ, ◌^◌, ◌≤◌, ◌<◌, ◌≡◌, List, ◌++◌, Result, ok, err, general, length, false, ltb, if◌then◌else◌,
  length-append, arith,
}
use reftable.Record.View.{View, view, u64}
use reftable.Record.Codec.{Writes, Reads}
use reftable.Record.VarInt.{
  varint, get_var_int, put_var_int, put_var_int-Writes, varint-Reads, length-varint,
}
use reftable.Record.Text.{encode_string, decode_string, text, encode_string-Writes, text-Reads}
use reftable.Record.Key.{encode_key, decode_key, key_bytes, encode_key-Writes, key-Reads}
use reftable.Record.Types.{Record}
use reftable.Record.Any.{record_type, record_key, record_val_type, record_encode, record_decode}
use reftable.Record.Any.RoundTrip.{
  IsRecord, record_bytes, stored, record_encode-Writes, record-Reads,
}

joined {ℓ} :
    {A : Type ℓ} (encode : ℕ → Result (List ℕ)) (decode : View → Result (A × ℕ)) (bytes : List ℕ)
    (a : A)
    → Writes encode bytes
    → Reads decode bytes a
    → (room len : ℕ) (rest : List ℕ) → length bytes ≤ room
    → length bytes ≤ len
    → len < u64
    → (out : List ℕ) × (encode room ≡ ok out)
      × (decode (view (out ++ rest) len) ≡ ok (a, length out))
joined encode decode bytes a writes reads room len rest enough fits bound =
    let roomy : ltb room (length bytes) ≡ false = ground arith in
    (bytes, rw (writes room, roomy), reads len rest fits bound)

-- A 64-bit number that put_var_int has room for is read back by get_var_int, from a view that holds
-- all its bytes and whatever follows them, and get_var_int takes just those bytes.
pub get_var_int-put_var_int :
    (v room len : ℕ) (rest : List ℕ)
    → v < u64
    → length (varint v) ≤ room
    → length (varint v) ≤ len
    → len < u64
    → (out : List ℕ) × (put_var_int room v ≡ ok out)
      × (get_var_int (view (out ++ rest) len) ≡ ok (v, length out))
get_var_int-put_var_int v room len rest small =
    joined (λ n. put_var_int n v) get_var_int (varint v) v (put_var_int-Writes v small)
      (varint-Reads v small) room len rest

-- put_var_int writes between one and ten bytes for a 64-bit number if they fit the room, and answers -1
-- if not; its buffer of ten bytes does not overflow.
pub put_var_int_lem :
    (v room : ℕ)
    → v < u64
    → (put_var_int room v ≡ (if ltb room (length (varint v)) then err general else ok (varint v)))
      × (0 < length (varint v))
      × (length (varint v) ≤ 10)
put_var_int_lem v room small =
    let (some', short) = length-varint v small in (put_var_int-Writes v small room, some', short)

-- A string that encode_string has room for, whose encoding has a length that an int holds, is read back by
-- decode_string, which takes just its bytes.
pub decode_string-encode_string :
    (str : List ℕ) (room len : ℕ) (rest : List ℕ)
    → length (text str) < 2 ^ 31
    → length (text str) ≤ room
    → length (text str) ≤ len
    → len < u64
    → (out : List ℕ) × (encode_string str room ≡ ok out)
      × (decode_string (view (out ++ rest) len) ≡ ok (str, length out))
decode_string-encode_string str room len rest held =
    let small : length str < u64 = omega (arith, length-append (varint (length str)) str) in
    joined (encode_string str) decode_string (text str) str (encode_string-Writes str small)
      (text-Reads str small) room len rest

-- A key and its three extra bits are read back by decode_key from what encode_key wrote after the same
-- previous key, where the lengths of the key and of its encoding are ones that an int holds.
pub decode_key-encode_key :
    (prev_key key : List ℕ) (extra room len : ℕ) (rest : List ℕ)
    → length key < 2 ^ 31
    → length (key_bytes prev_key key extra) < 2 ^ 31
    → extra < 8
    → length (key_bytes prev_key key extra) ≤ room
    → length (key_bytes prev_key key extra) ≤ len
    → len < u64
    → (out : List ℕ) × (encode_key prev_key key extra room ≡ ok out)
      × (decode_key prev_key (view (out ++ rest) len)
          ≡ ok (record { key = key; extra = extra }, length out))
decode_key-encode_key prev_key key extra room len rest small held three =
    let wide : length key < 2 ^ 32 = omega arith in
    joined (encode_key prev_key key extra) (decode_key prev_key) (key_bytes prev_key key extra) _
      (encode_key-Writes prev_key key extra wide three) (key-Reads prev_key key extra wide three)
      room len rest

-- Every record encoder writes the whole record if it fits the room, and answers -1 if not.
pub record_encode_lem :
    (hash_size : ℕ) (r : Record) (room : ℕ)
    → IsRecord hash_size r
    → record_encode hash_size r room ≡ (
        if ltb room (length (record_bytes hash_size r))
        then err general
        else ok (record_bytes hash_size r))
record_encode_lem hash_size r room sound = record_encode-Writes hash_size r sound room

-- A record of any of the four types that record_encode has room for is read back, with its own key and
-- value type, by the decoder of the same type over an older record: ref, object and index records as
-- they were, and log records as `stored` describes them.
pub record_decode-record_encode :
    (hash_size : ℕ) (old r : Record) (room len : ℕ) (rest : List ℕ)
    → IsRecord hash_size r
    → record_type old ≡ record_type r
    → length (record_bytes hash_size r) ≤ room
    → length (record_bytes hash_size r) ≤ len
    → len < u64
    → (out : List ℕ) × (record_encode hash_size r room ≡ ok out)
      × (record_decode hash_size old (record_key r) (record_val_type r) (view (out ++ rest) len)
          ≡ ok (stored hash_size old r, length out))
record_decode-record_encode hash_size old r room len rest sound alike =
    joined (record_encode hash_size r)
      (record_decode hash_size old (record_key r) (record_val_type r)) (record_bytes hash_size r)
      (stored hash_size old r) (record_encode-Writes hash_size r sound)
      (record-Reads hash_size old r sound alike) room len rest
