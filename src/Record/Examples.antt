-- ===== src/Record/Examples.antt =====
-- Records to run the encoders on, and the theorems at them.
use reftable.Base.{
  ℕ, ◌≤◌, ◌<◌, ◌≡◌, ◌↔◌, refl, List, [], ◌∷◌, ◌++◌, some, none, ok, err, general, length, replicate,
  true, ltb, if◌then◌else◌, arith,
}
use reftable.Basics.Bytes.{strbuf_cmp, common_prefix_size}
use reftable.Basics.BigEndian.{put_be16}
use reftable.Record.View.{view}
use reftable.Record.VarInt.{varint, get_var_int, put_var_int}
use reftable.Record.Text.{encode_string, decode_string}
use reftable.Record.Key.{encode_key, decode_key}
use reftable.Record.Types.{RefRecord, RefValue, val1, LogRecord, LogUpdate, ref, log, IsRef, IsLog}
use reftable.Record.Log.{log_record_key, log_record_val_type, log_record_encode}
use reftable.Record.Log.Equal.{log_record_equal, log_record_compare_key, strbuf_cmp-log_record_key}
use reftable.Record.Log.Same.{log_record_equal_iff}
use reftable.Record.Any.{
  record_type, record_key, record_val_type, record_encode, record_decode, record_copy_from,
}
use reftable.Record.Any.RoundTrip.{record_bytes, stored, record_copy_from_lem}
use reftable.Record.RoundTrip.{
  get_var_int-put_var_int, put_var_int_lem, decode_string-encode_string, decode_key-encode_key,
  record_encode_lem, record_decode-record_encode,
}

abbrev name : List ℕ
name = b'r' ∷ b'/' ∷ b'a' ∷ []

abbrev hash : List ℕ
hash = replicate 20 7

abbrev main_ref : RefRecord
main_ref = record { refname = name; update_index = 300; value = val1 hash }

main_ref-IsRef : IsRef 20 main_ref
main_ref-IsRef = record {
  hash_pos = omega arith;
  hash_small = omega arith;
  named = ground arith;
  indexed = omega arith;
  valued = refl;
}

abbrev update : LogUpdate
update = record {
  new_hash = some hash;
  old_hash = none;
  name = some (b'A' ∷ []);
  email = none;
  time = 1000;
  tz_offset = 60;
  message = some (b'm' ∷ b'\n' ∷ []);
}

abbrev commit_log : LogRecord
commit_log = record { refname = name; update_index = 5; value_type = 1; update = update }

commit_log-IsLog : IsLog 20 commit_log
commit_log-IsLog = record {
  hash_small = omega arith;
  named = ground arith;
  present = omega arith;
  indexed = omega arith;
  typed = omega arith;
  updated = record {
    new_hashed = refl;
    old_hashed = tt;
    named = ground arith;
    mailed = tt;
    timed = omega arith;
    zoned = omega arith;
    told = ground arith;
  };
}

get_var_int-put_var_int_example :
    (out : List ℕ) × (put_var_int 10 300 ≡ ok out)
    × (get_var_int (view (out ++ (9 ∷ [])) 3) ≡ ok (300, length out))
unfolding varint
get_var_int-put_var_int_example =
    get_var_int-put_var_int 300 10 3 (9 ∷ []) (omega arith) (omega arith) (omega arith)
      (omega arith)

put_var_int_lem_example :
    (put_var_int 1 300 ≡ (if ltb 1 (length (varint 300)) then err general else ok (varint 300)))
    × (0 < length (varint 300))
    × (length (varint 300) ≤ 10)
put_var_int_lem_example = put_var_int_lem 300 1 (omega arith)

decode_string-encode_string_example :
    (out : List ℕ) × (encode_string name 9 ≡ ok out)
    × (decode_string (view (out ++ (9 ∷ [])) 5) ≡ ok (name, length out))
unfolding varint
decode_string-encode_string_example =
    decode_string-encode_string name 9 5 (9 ∷ []) (omega arith) (omega arith) (omega arith)
      (omega arith)

decode_key-encode_key_example :
    (out : List ℕ) × (encode_key (b'r' ∷ b'/' ∷ []) name 2 10 ≡ ok out)
    × (decode_key (b'r' ∷ b'/' ∷ []) (view (out ++ []) 10)
        ≡ ok (record { key = name; extra = 2 }, length out))
unfolding varint common_prefix_size
decode_key-encode_key_example =
    decode_key-encode_key (b'r' ∷ b'/' ∷ []) name 2 10 10 [] (omega arith) (omega arith)
      (omega arith) (omega arith) (omega arith) (omega arith)

record_encode_lem_example : record_encode 20 (ref main_ref) 30 ≡ (
    if ltb 30 (length (record_bytes 20 (ref main_ref)))
    then err general
    else ok (record_bytes 20 (ref main_ref)))
record_encode_lem_example = record_encode_lem 20 (ref main_ref) 30 main_ref-IsRef

record_decode-record_encode_example :
    (out : List ℕ) × (record_encode 20 (log commit_log) 100 ≡ ok out)
    × (record_decode 20
          (log commit_log)
          (record_key (log commit_log))
          (record_val_type (log commit_log))
          (view (out ++ []) 100)
        ≡ ok (stored 20 (log commit_log) (log commit_log), length out))
unfolding varint put_be16 record_type
record_decode-record_encode_example =
    record_decode-record_encode 20 (log commit_log) (log commit_log) 100 100 [] commit_log-IsLog
      refl (omega arith) (omega arith) (omega arith)

-- The same update in another time zone.
abbrev moved_log : LogRecord
moved_log = record commit_log { update = record commit_log.update { tz_offset = 60 } }

moved_log-IsLog : IsLog 20 moved_log
moved_log-IsLog = record {
  hash_small = omega arith;
  named = ground arith;
  present = omega arith;
  indexed = omega arith;
  typed = omega arith;
  updated = record {
    new_hashed = refl;
    old_hashed = tt;
    named = ground arith;
    mailed = tt;
    timed = omega arith;
    zoned = omega arith;
    told = ground arith;
  };
}

log_record_equal_iff_example : (log_record_equal 20 commit_log moved_log ≡ ok true) ↔ (
    (log_record_key commit_log ≡ log_record_key moved_log)
    × (log_record_val_type commit_log ≡ log_record_val_type moved_log)
    × ((room : ℕ) → log_record_encode 20 commit_log room ≡ log_record_encode 20 moved_log room))
log_record_equal_iff_example =
    log_record_equal_iff 20 commit_log moved_log commit_log-IsLog moved_log-IsLog

strbuf_cmp-log_record_key_example :
    strbuf_cmp (log_record_key commit_log) (log_record_key (record commit_log { update_index = 6 }))
    ≡ log_record_compare_key commit_log (record commit_log { update_index = 6 })
strbuf_cmp-log_record_key_example =
    strbuf_cmp-log_record_key commit_log (record commit_log { update_index = 6 }) (ground arith)
      (ground arith) (omega arith) (omega arith)

record_copy_from_lem_example :
    record_copy_from 20 (ref (record main_ref { value = RefValue.deletion })) (ref main_ref)
    ≡ ok (ref main_ref)
unfolding record_type
record_copy_from_lem_example =
    record_copy_from_lem 20 (ref (record main_ref { value = RefValue.deletion })) (ref main_ref)
      main_ref-IsRef (omega arith) refl
