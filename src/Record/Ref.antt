-- ===== src/Record/Ref.antt =====
-- The ref records of c/record.c: key, value type, encode and decode.
use mathlib.Core.List.{append_assoc}
use reftable.Base.{
  ℕ, ◌+◌, ◌-◌, ◌*◌, ◌≤◌, ◌<◌, ◌^◌, lt→ltb, ◌≡◌, refl, sym, ap, List, [], ◌++◌, Result, ok, err,
  fault, aborted, general, ◌>>=◌, length, length-append, Bool, true, false, ltb, ◌==◌,
  if◌then◌else◌, arith, ◌∙◌, Option, some, none,
}
use reftable.Record.View.{
  View, view, u64, consume, consumed, consume-append, consumed_lem, copy, copy_self, copy-append,
  c_string, c_string-IsText,
}
use reftable.Record.Codec.{Writes, Reads, in_turn, Writes-in_turn, put_bytes, put_bytes-Writes}
use reftable.Record.VarInt.{get_var_int, put_var_int, varint, put_var_int-Writes, varint-Reads}
use reftable.Record.Text.{encode_string, decode_string, text, encode_string-Writes, text-Reads}
use reftable.Record.Types.{RefValue, val1, val2, symref, RefRecord, IsRef, IsRefValue}

-- assert(b)
abbrev pub assert {ℓ} : {A : Type ℓ} → Bool → Result A → Result A
assert true r = r
assert false r = fault aborted

unfoldable pub ref_record_val1 : RefRecord → Option (List ℕ)
ref_record_val1 r = elim r.value [ val1 h ↦ some h | val2 h t ↦ some h | _ ↦ none ]

unfoldable pub ref_record_val2 : RefRecord → Option (List ℕ)
ref_record_val2 r = elim r.value [ val2 h t ↦ some t | _ ↦ none ]

unfoldable pub ref_record_key : RefRecord → List ℕ
ref_record_key r = r.refname

abbrev pub ref_value_type : RefValue → ℕ
ref_value_type RefValue.deletion = 0
ref_value_type (val1 h) = 1
ref_value_type (val2 h t) = 2
ref_value_type (symref s) = 3

unfoldable pub ref_record_val_type : RefRecord → ℕ
ref_record_val_type r = ref_value_type r.value

unfoldable pub ref_record_is_deletion : RefRecord → Bool
ref_record_is_deletion r = elim r.value [ RefValue.deletion ↦ true | _ ↦ false ]

-- The two memcpy of REFTABLE_REF_VAL2.
unfoldable pub put_pair : ℕ → List ℕ → List ℕ → ℕ → Result (List ℕ)
put_pair hash_size h t room =
    if ltb room (2 * hash_size)
    then err general
    else (do a ← copy hash_size h; b ← copy hash_size t; ok (a ++ b))

ref_value_encode : ℕ → RefValue → ℕ → Result (List ℕ)
unfolding put_pair
ref_value_encode hash_size RefValue.deletion room = ok []
ref_value_encode hash_size (val1 h) room = put_bytes hash_size h room
ref_value_encode hash_size (val2 h t) room = put_pair hash_size h t room
ref_value_encode hash_size (symref s) room = encode_string s room

unfoldable pub ref_record_encode : ℕ → RefRecord → ℕ → Result (List ℕ)
unfolding ref_value_encode
ref_record_encode hash_size r room =
    assert (ltb 0 hash_size)
      (in_turn (λ room. put_var_int room r.update_index) (ref_value_encode hash_size r.value) room)

-- The switch over the value type, on the view behind the update index; the view that it leaves.
ref_value_decode : ℕ → ℕ → View → Result (RefValue × View)
ref_value_decode hash_size val_type in' =
    if val_type == 1
    then (if ltb in'.len hash_size
        then err general
        else (do h ← copy hash_size in'.buf; ok (val1 h, consume in' hash_size)))
    else if val_type == 2
    then (if ltb in'.len (2 * hash_size) then err general else (do
      h ← copy hash_size in'.buf
      let in2 = consume in' hash_size
      t ← copy hash_size in2.buf
      ok (val2 h t, consume in2 hash_size)))
    else if val_type == 3
    then (do (dest, n) ← decode_string in'; ok (symref (c_string dest), consume in' n))
    else if val_type == 0
    then ok (RefValue.deletion, in')
    else fault aborted

unfoldable pub ref_record_decode : ℕ → List ℕ → ℕ → View → Result (RefRecord × ℕ)
unfolding ref_value_decode
ref_record_decode hash_size key val_type start = do
  (update_index, n) ← get_var_int start
  assert (ltb 0 hash_size) (do
    (value, rest) ← ref_value_decode hash_size val_type (consume start n)
    ok (
      record { refname = c_string key; update_index = update_index; value = value },
      consumed start rest,
    ))

abbrev pub value_bytes : RefValue → List ℕ
value_bytes RefValue.deletion = []
value_bytes (val1 h) = h
value_bytes (val2 h t) = h ++ t
value_bytes (symref s) = text s

abbrev pub ref_bytes : RefRecord → List ℕ
ref_bytes r = varint r.update_index ++ value_bytes r.value

pub put_pair-Writes :
    (hash_size : ℕ) (h t : List ℕ)
    → length h ≡ hash_size
    → length t ≡ hash_size
    → Writes (put_pair hash_size h t) (h ++ t)
unfolding put_pair
put_pair-Writes hash_size h t wh wt room =
    rw (copy_self hash_size h wh, copy_self hash_size t wt) (ground (arith, length-append h t))

ref_value_encode-Writes :
    (hash_size : ℕ) (v : RefValue)
    → IsRefValue hash_size v
    → Writes (ref_value_encode hash_size v) (value_bytes v)
unfolding ref_value_encode
ref_value_encode-Writes hash_size RefValue.deletion w room = ground arith
ref_value_encode-Writes hash_size (val1 h) w room = put_bytes-Writes hash_size h w room
ref_value_encode-Writes hash_size (val2 h t) (wh, wt) room =
    put_pair-Writes hash_size h t wh wt room
ref_value_encode-Writes hash_size (symref s) w room = encode_string-Writes s (omega arith) room

pub ref_record_encode-Writes :
    (hash_size : ℕ) (r : RefRecord)
    → IsRef hash_size r
    → Writes (ref_record_encode hash_size r) (ref_bytes r)
unfolding ref_record_encode
ref_record_encode-Writes hash_size r w room = rw (lt→ltb 0 hash_size w.hash_pos) (
    Writes-in_turn _ _ _ _ (put_var_int-Writes r.update_index w.indexed)
      (ref_value_encode-Writes hash_size r.value w.valued) room)

-- The switch reads the value back and leaves what follows it.
ref_value_decode-bytes :
    (hash_size : ℕ) (v : RefValue) (len : ℕ) (rest : List ℕ)
    → IsRefValue hash_size v
    → hash_size < 2 ^ 16
    → length (value_bytes v) ≤ len
    → len < u64
    → ref_value_decode hash_size (ref_value_type v) (view (value_bytes v ++ rest) len)
      ≡ ok (v, view rest (len - length (value_bytes v)))
unfolding ref_value_decode
ref_value_decode-bytes hash_size RefValue.deletion len rest w hs fits bound =
    let e : len - 0 ≡ len = omega arith in rw e
ref_value_decode-bytes hash_size (val1 h) len rest w hs fits bound =
    rw (copy-append hash_size h rest w, consume-append h rest hash_size len w (omega arith) bound)
      (ground arith)
ref_value_decode-bytes hash_size (val2 h t) len rest (wh, wt) hs fits bound =
    let size = length-append h t in
    rw
      (
        append_assoc h t rest,
        copy-append hash_size h (t ++ rest) wh,
        consume-append h (t ++ rest) hash_size len wh (omega arith) bound,
        copy-append hash_size t rest wt,
        consume-append t rest hash_size (len - hash_size) wt (omega arith) (omega arith),
      )
      (ground arith)
ref_value_decode-bytes hash_size (symref s) len rest w hs fits bound = rw (
  text-Reads s (omega arith) len rest fits bound,
  consume-append (text s) rest (length (text s)) len refl fits bound,
  c_string-IsText s w.0,
)

-- Decoding with the record's own key and value type gives the record back.
pub ref-Reads :
    (hash_size : ℕ) (r : RefRecord)
    → IsRef hash_size r
    → Reads (ref_record_decode hash_size (ref_record_key r) (ref_record_val_type r)) (ref_bytes r) r
unfolding ref_record_decode ref_record_key ref_record_val_type
ref-Reads hash_size r w len rest fits bound =
    let n = length (varint r.update_index) in
    let total = length-append (varint r.update_index) (value_bytes r.value) in
    rw
      (
        append_assoc (varint r.update_index) (value_bytes r.value) rest,
        varint-Reads r.update_index w.indexed len (value_bytes r.value ++ rest) (omega arith) bound,
        lt→ltb 0 hash_size w.hash_pos,
        consume-append (varint r.update_index) (value_bytes r.value ++ rest) n len refl
            (omega arith) bound,
        ref_value_decode-bytes hash_size r.value (len - n) rest w.valued w.hash_small (omega arith)
            (omega arith),
        c_string-IsText r.refname w.named.0,
      )
      (ap (λ k. ok (r, k))
        (consumed_lem (varint r.update_index ++ (value_bytes r.value ++ rest)) rest
            (n + length (value_bytes r.value)) len (len - n - length (value_bytes r.value))
            (omega arith) bound
          ∙ sym total))
