-- ===== src/Record/Any/RoundTrip.antt =====
-- Encoding and decoding through the vtable.
use reftable.Base.{
  ℕ, ◌^◌, ◌<◌, ◌≡◌, refl, List, ◌∷◌, ok, length, Option, some, none, arith, ==_refl, lt→ltb,
  length-append, length-take,
}
use reftable.Basics.BigEndian.{put_be64, length-put_be64}
use reftable.Record.View.{u64, copy_self}
use reftable.Record.Codec.{Writes, Reads}
use reftable.Record.Types.{
  Record, ref, obj, log, index, IsRef, IsLog, LogRecord, RefValue, val1, val2, symref, IsRefValue,
  IsHashField,
}
use reftable.Record.Ref.{
  ref_bytes, ref_record_encode-Writes, ref-Reads, ref_record_val_type, ref_record_key,
}
use reftable.Record.Obj.{
  IsObj, obj_bytes, obj_record_encode-Writes, obj-Reads, obj_record_val_type, obj_record_key,
}
use reftable.Record.Index.{
  index_bytes, index_record_encode-Writes, index-Reads, index_record_val_type, index_record_key,
}
use reftable.Record.Log.{reversed, log_record_val_type, log_record_key}
use reftable.Record.Log.Whole.{log_bytes, stored_record, log_record_encode-Writes, log-Reads}
use reftable.Record.Any.{
  record_type, record_key, record_val_type, record_encode, record_decode, record_copy_from,
  copy_value, copy_hash, copy_log,
}

abbrev pub IsRecord : ℕ → Record → Type 0
IsRecord hash_size (ref r) = IsRef hash_size r
IsRecord hash_size (obj r) = IsObj r × (r.hash_prefix_len < 2 ^ 31)
IsRecord hash_size (log r) = IsLog hash_size r
IsRecord hash_size (index r) = (r.offset < u64) × (length r.last_key < 2 ^ 31)

abbrev pub record_bytes : ℕ → Record → List ℕ
record_bytes hash_size (ref r) = ref_bytes r
record_bytes hash_size (obj r) = obj_bytes r
record_bytes hash_size (log r) = log_bytes hash_size r
record_bytes hash_size (index r) = index_bytes r

-- What is read back over `old`: the record itself, but for what a log record leaves out.
abbrev pub stored : ℕ → Record → Record → Record
stored hash_size (log old) (log r) = log (stored_record hash_size old r)
stored hash_size old r = r

-- Every encoder writes the whole record, or fails with -1 because it does not fit.
pub record_encode-Writes :
    (hash_size : ℕ) (r : Record)
    → IsRecord hash_size r
    → Writes (record_encode hash_size r) (record_bytes hash_size r)
unfolding record_encode
record_encode-Writes hash_size (ref r) w = ref_record_encode-Writes hash_size r w
record_encode-Writes hash_size (obj r) w = obj_record_encode-Writes hash_size r w.0
record_encode-Writes hash_size (log r) w = log_record_encode-Writes hash_size r w
record_encode-Writes hash_size (index r) w = index_record_encode-Writes hash_size r w.0

-- Every decoder reads back what the encoder of the same type wrote.
pub record-Reads :
    (hash_size : ℕ) (old r : Record)
    → IsRecord hash_size r
    → record_type old ≡ record_type r
    → Reads
        (record_decode hash_size old (record_key r) (record_val_type r))
        (record_bytes hash_size r)
        (stored hash_size old r)
unfolding record_decode record_key record_val_type record_type
record-Reads hash_size (ref o) (ref r) w e len rest fits bound =
    rw (ref-Reads hash_size r w len rest fits bound)
record-Reads hash_size (obj o) (obj r) w e len rest fits bound =
    rw (obj-Reads hash_size r w.0 len rest fits bound)
record-Reads hash_size (log o) (log r) w e len rest fits bound =
    rw (log-Reads hash_size o r w len rest fits bound)
record-Reads hash_size (index o) (index r) w e len rest fits bound =
    rw (index-Reads hash_size r w.0 len rest fits bound)
record-Reads hash_size old r w e len rest fits bound = absurd (omega arith)

pub record_val_type-lt : (hash_size : ℕ) (r : Record) → record_val_type r < 8
unfolding record_val_type
record_val_type-lt hash_size (ref r) = unfold ref_record_val_type in ground arith
record_val_type-lt hash_size (obj r) = unfold obj_record_val_type in ground arith
record_val_type-lt hash_size (log r) = unfold log_record_val_type in ground arith
record_val_type-lt hash_size (index r) = unfold index_record_val_type in omega arith

pub record_key_small :
    (hash_size : ℕ) (r : Record) → IsRecord hash_size r → length (record_key r) < 2 ^ 32
unfolding record_key
record_key_small hash_size (ref r) w = unfold ref_record_key in omega (arith, w.named)
record_key_small hash_size (obj r) w =
    unfold obj_record_key in omega (arith, length-take r.hash_prefix_len r.hash_prefix)
record_key_small hash_size (log r) w =
    unfold log_record_key in
    omega (
      arith,
      w.named,
      length-append r.refname (0 ∷ put_be64 (reversed r.update_index)),
      length-put_be64 (reversed r.update_index),
    )
record_key_small hash_size (index r) w = unfold index_record_key in omega arith

copy_value_lem :
    (hash_size : ℕ) (v : RefValue) → IsRefValue hash_size v → copy_value hash_size v ≡ ok v
unfolding copy_value
copy_value_lem hash_size RefValue.deletion w = refl
copy_value_lem hash_size (val1 h) w = rw (copy_self hash_size h w)
copy_value_lem hash_size (val2 h t) (wh, wt) =
    rw (copy_self hash_size h wh, copy_self hash_size t wt)
copy_value_lem hash_size (symref s) w = refl

copy_hash_lem :
    (hash_size : ℕ) (h : Option (List ℕ)) → IsHashField hash_size h → copy_hash hash_size h ≡ ok h
unfolding copy_hash
copy_hash_lem hash_size none w = refl
copy_hash_lem hash_size (some h) w = rw (copy_self hash_size h w)

copy_log_lem : (hash_size : ℕ) (r : LogRecord) → IsLog hash_size r → copy_log hash_size r ≡ ok r
unfolding copy_log
copy_log_lem hash_size r w =
    rw
      (
        copy_hash_lem hash_size r.update.new_hash w.updated.new_hashed,
        copy_hash_lem hash_size r.update.old_hash w.updated.old_hashed,
      )
      (ground arith)

-- A copy of a sound record over a record of the same type is the record itself.
pub record_copy_from_lem :
    (hash_size : ℕ) (dest src : Record)
    → IsRecord hash_size src
    → 0 < hash_size
    → record_type src ≡ record_type dest
    → record_copy_from hash_size dest src ≡ ok src
unfolding record_copy_from
record_copy_from_lem hash_size dest (ref r) w pos e = rw (
  e,
  ==_refl (record_type dest),
  lt→ltb 0 hash_size pos,
  copy_value_lem hash_size r.value w.valued,
)
record_copy_from_lem hash_size dest (obj r) w pos e =
    rw (e, ==_refl (record_type dest), copy_self r.hash_prefix_len r.hash_prefix w.0.whole)
record_copy_from_lem hash_size dest (log r) w pos e =
    rw (e, ==_refl (record_type dest), copy_log_lem hash_size r w)
record_copy_from_lem hash_size dest (index r) w pos e = rw (e, ==_refl (record_type dest))
