-- ===== src/Record/Log.antt =====
-- The log records of c/record.c: key, value type, encode and decode.
pub mod RoundTrip
pub mod Whole
pub mod Equal
pub mod Same
use reftable.Base.{
  ℕ, zero, suc, ◌+◌, ◌-◌, ◌*◌, ◌%◌, ◌^◌, ◌≤◌, ◌<◌, ◌≡◌, List, [], ◌∷◌, ◌++◌, Result, ok, err, fault,
  out_of_bounds, general, format_error, ◌>>=◌, length, Bool, true, false, ltb, leb, ◌==◌,
  if◌then◌else◌, ◌&&◌, ◌||◌, not, arith, take, drop, replicate, Option, some, none, get_or, load,
}
use reftable.Basics.BigEndian.{put_be16, get_be16, put_be64, get_be64}
use reftable.Record.View.{View, view, u64, consume, consumed, copy, c_string}
use reftable.Record.Codec.{in_turn, put_bytes, take_next}
use reftable.Record.VarInt.{get_var_int, put_var_int}
use reftable.Record.Text.{encode_string, decode_string}
use reftable.Record.Ref.{put_pair}
use reftable.Record.Types.{LogUpdate, LogRecord}

-- `~0 - n` in a uint64_t.
abbrev pub reversed : ℕ → ℕ
reversed n = (u64 - 1 + u64 - n) % u64

unfoldable pub log_record_key : LogRecord → List ℕ
log_record_key r = r.refname ++ (0 ∷ put_be64 (reversed r.update_index))

unfoldable pub log_record_is_deletion : LogRecord → Bool
log_record_is_deletion r = r.value_type == 0

unfoldable pub log_record_val_type : LogRecord → ℕ
unfolding log_record_is_deletion
log_record_val_type r = if log_record_is_deletion r then 0 else 1

-- `s ? s : ""`, and `h ? h : zero` where `zero` has the 32 bytes of a SHA-256.
abbrev pub or_empty : Option (List ℕ) → List ℕ
or_empty none = []
or_empty (some s) = s

abbrev pub or_zero : Option (List ℕ) → List ℕ
or_zero none = replicate 32 0
or_zero (some h) = h

unfoldable pub log_update_encode : ℕ → LogUpdate → ℕ → Result (List ℕ)
log_update_encode hash_size u =
    in_turn (put_pair hash_size (or_zero u.old_hash) (or_zero u.new_hash)) (
      in_turn (encode_string (or_empty u.name)) (
        in_turn (encode_string (or_empty u.email)) (
          in_turn (λ room. put_var_int room u.time)
            (in_turn (put_bytes 2 (put_be16 u.tz_offset)) (encode_string (or_empty u.message))))))

unfoldable pub log_record_encode : ℕ → LogRecord → ℕ → Result (List ℕ)
unfolding log_update_encode log_record_is_deletion
log_record_encode hash_size r room =
    if log_record_is_deletion r then ok [] else log_update_encode hash_size r.update room

-- `if (n < 0) goto done;`
abbrev pub format_checked {ℓ} : {A : Type ℓ} → Result A → Result A
format_checked (ok a) = ok a
format_checked (err e) = err format_error
format_checked (fault x) = fault x

-- get_be16 behind its check of the length.
get_zone : View → Result (ℕ × ℕ)
get_zone in' = if ltb in'.len 2 then err general else (do tz ← get_be16 in'.buf; ok (tz, 2))

-- The two hashes behind the check of the length, and the view behind them.
get_hashes : ℕ → View → Result ((List ℕ × List ℕ) × View)
get_hashes hash_size in' = if ltb in'.len (2 * hash_size) then err format_error else (do
  old ← copy hash_size in'.buf
  new ← copy hash_size (drop hash_size in'.buf)
  ok ((old, new), consume in' (2 * hash_size)))

unfoldable pub log_update_decode : ℕ → View → Result (LogUpdate × View)
unfolding get_hashes get_zone
log_update_decode hash_size in' = do
  ((old, new), in1) ← get_hashes hash_size in'
  (name, in2) ← format_checked (take_next decode_string in1)
  (email, in3) ← format_checked (take_next decode_string in2)
  (time, in4) ← format_checked (take_next get_var_int in3)
  (tz_offset, in5) ← format_checked (take_next get_zone in4)
  (message, in6) ← format_checked (take_next decode_string in5)
  ok (
    record {
      new_hash = some new;
      old_hash = some old;
      name = some (c_string name);
      email = some (c_string email);
      time = time;
      tz_offset = tz_offset;
      message = some (c_string message);
    },
    in6,
  )

-- The pointers that FREE_AND_NULL clears when an update is read over by a record of another type.
unfoldable pub cleared : LogRecord → ℕ → LogUpdate
cleared r val_type =
    if not (val_type == r.value_type) && (r.value_type == 1)
    then record r.update {
      new_hash = none;
      old_hash = none;
      name = none;
      email = none;
      message = none;
    }
    else r.update

-- `r` is the record that is read over.
unfoldable pub log_record_decode : ℕ → LogRecord → List ℕ → ℕ → View → Result (LogRecord × ℕ)
unfolding log_update_decode cleared
log_record_decode hash_size r key val_type start =
    let n = length key in
    let name = c_string (take (n - 8) key) in
    if leb n 9 || not (get_or key (n - 9) 0 == 0) then err format_error else (do
      ts ← get_be64 (drop (n - 8) key)
      if val_type == 0
          then ok (
            record {
              refname = name;
              update_index = reversed ts;
              value_type = val_type;
              update = cleared r val_type;
            },
            0,
          )
          else (do
            (u, rest) ← log_update_decode hash_size start
            ok (
              record {
                refname = name;
                update_index = reversed ts;
                value_type = val_type;
                update = u;
              },
              consumed start rest,
            )))
