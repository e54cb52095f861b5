-- ===== src/Record/Text.antt =====
-- encode_string and decode_string of c/record.c: a length and that many bytes.
use mathlib.Core.List.{append_assoc}
use reftable.Base.{
  ℕ, ◌+◌, ◌-◌, ◌≤◌, ◌<◌, refl, List, ◌++◌, Result, ok, err, general, ◌>>=◌, length, length-append,
  ltb, if◌then◌else◌, arith,
}
use reftable.Record.View.{
  View, u64, consume, consumed, consume-append, consumed_lem, copy, copy-append,
}
use reftable.Record.Codec.{Writes, Reads, in_turn, Writes-in_turn, put_bytes, put_bytes-Writes}
use reftable.Record.VarInt.{get_var_int, put_var_int, varint, put_var_int-Writes, varint-Reads}

-- `int l` is the length: strings of 2^31 bytes and more, for which it and the answer are negative in C, are not
-- modelled.
unfoldable pub encode_string : List ℕ → ℕ → Result (List ℕ)
encode_string str = in_turn (λ room. put_var_int room (length str)) (put_bytes (length str) str)

-- `n <= 0` is an error; get_var_int answers no 0.
unfoldable pub decode_string : View → Result (List ℕ × ℕ)
decode_string start = do
  (tsize, n) ← get_var_int start
  let in' = consume start n
  if ltb in'.len tsize
      then err general
      else (do dest ← copy tsize in'.buf; ok (dest, consumed start (consume in' tsize)))

abbrev pub text : List ℕ → List ℕ
text str = varint (length str) ++ str

pub encode_string-Writes : (str : List ℕ) → length str < u64 → Writes (encode_string str) (text str)
unfolding encode_string
encode_string-Writes str small =
    Writes-in_turn _ _ _ _ (put_var_int-Writes (length str) small) (put_bytes-Writes _ str refl)

pub text-Reads : (str : List ℕ) → length str < u64 → Reads decode_string (text str) str
unfolding decode_string
text-Reads str small len rest fits bound =
    let n = length (varint (length str)) in
    let room : n + length str ≤ len = omega (arith, length-append (varint (length str)) str) in
    rw
      (
        append_assoc (varint (length str)) str rest,
        varint-Reads (length str) small len (str ++ rest) (omega arith) bound,
        consume-append (varint (length str)) (str ++ rest) n len refl (omega arith) bound,
        copy-append (length str) str rest refl,
        consume-append str rest (length str) (len - n) refl (omega arith) (omega arith),
      )
      (ground (
        arith,
        length-append (varint (length str)) str,
        consumed_lem (varint (length str) ++ (str ++ rest)) rest (n + length str) len
            (len - n - length str),
      ))
