-- ===== src/Record/Log/Whole.antt =====
-- Log records as a whole: the key, and encoding and decoding of a deletion and of an update.
use mathlib.Core.List.{append-nil}
use reftable.Base.{
  ℕ, ◌+◌, ◌-◌, ◌≤◌, ◌<◌, ◌≡◌, refl, ap, List, [], ◌∷◌, ◌++◌, ok, length, false, leb, ◌==◌,
  if◌then◌else◌, arith, Bool-cases, inl, inr, take, drop, get_or, length-append,
}
use reftable.Basics.BigEndian.{put_be64, get_be64-put_be64, length-put_be64}
use reftable.Record.View.{u64, c_string, consumed_lem, IsText}
use reftable.Record.Codec.{Writes, Reads}
use reftable.Record.Types.{LogRecord, IsLog}
use reftable.Record.Log.{
  reversed, log_record_key, log_record_val_type, log_record_is_deletion, log_record_encode,
  log_record_decode, cleared,
}
use reftable.Record.Log.RoundTrip.{
  stored_update, update_bytes, log_update_encode-Writes, log_update_decode-bytes,
}

abbrev pub log_bytes : ℕ → LogRecord → List ℕ
log_bytes hash_size r = if r.value_type == 0 then [] else update_bytes hash_size r.update

-- What decoding makes of the record, read over `old`.
abbrev pub stored_record : ℕ → LogRecord → LogRecord → LogRecord
stored_record hash_size old r = record r {
  update = if r.value_type == 0 then cleared old 0 else stored_update hash_size r.update;
}

pub log_record_encode-Writes :
    (hash_size : ℕ) (r : LogRecord)
    → IsLog hash_size r
    → Writes (log_record_encode hash_size r) (log_bytes hash_size r)
unfolding log_record_encode
log_record_encode-Writes hash_size r w room =
    ground (arith, log_update_encode-Writes hash_size w.hash_small r.update w.updated room)

key_front :
    (name tail : List ℕ)
    → IsText name
    → c_string (take (length name + 1) (name ++ (0 ∷ tail))) ≡ name
unfolding c_string
key_front [] tail h = refl
key_front (c ∷ name) tail h = ground (arith, key_front name tail h.1)

key_zero : (name tail : List ℕ) → get_or (name ++ (0 ∷ tail)) (length name) 0 ≡ 0
key_zero [] tail = refl
key_zero (c ∷ name) tail = key_zero name tail

key_back : (name tail : List ℕ) → drop (length name + 1) (name ++ (0 ∷ tail)) ≡ tail
key_back [] tail = refl
key_back (c ∷ name) tail = ground (arith, key_back name tail)

reversed_twice : (n : ℕ) → n < u64 → reversed (reversed n) ≡ n
reversed_twice n h = omega arith

pub log-Reads :
    (hash_size : ℕ) (old r : LogRecord)
    → IsLog hash_size r
    → Reads
        (log_record_decode hash_size old (log_record_key r) (log_record_val_type r))
        (log_bytes hash_size r)
        (stored_record hash_size old r)
unfolding log_record_decode log_record_key log_record_val_type
log-Reads hash_size old r w len rest fits bound =
    let stamp = put_be64 (reversed r.update_index) in
    let n = length r.refname in
    let size : length (r.refname ++ (0 ∷ stamp)) ≡ n + 9 =
      omega
        (arith, length-append r.refname (0 ∷ stamp), length-put_be64 (reversed r.update_index)) in
    let cut : n + 9 - 8 ≡ n + 1 = omega arith in
    let mark : n + 9 - 9 ≡ n = omega arith in
    let long : leb (n + 9) 9 ≡ false = ground (arith, w.present) in
    let stamped = get_be64-put_be64 (reversed r.update_index) [] (omega arith) in
    rw
      (
        size,
        cut,
        mark,
        long,
        key_front r.refname stamp w.named.0,
        key_zero r.refname stamp,
        key_back r.refname stamp,
        (rw append-nil at stamped),
        reversed_twice r.update_index w.indexed,
        typed,
      )
      (elim (Bool-cases (r.value_type == 0)) [
        | inl gone ↦
            let e : r.value_type ≡ 0 = ground arith in
            let same : cleared old r.value_type ≡ cleared old 0 = ap (cleared old) e in
            rw gone (λ i. ok (record r { update = same i }, 0))
        | inr kept ↦
            let size = length (update_bytes hash_size r.update) in
            let fits' : size ≤ len = rw kept at fits in
            let u = r.update in
            rw (
              kept,
              log_update_decode-bytes hash_size w.hash_small u len rest w.updated fits' bound,
              consumed_lem (update_bytes hash_size u ++ rest) rest size len (len - size)
                  (omega arith) bound,
            )
      ])
  where
    typed : log_record_val_type r ≡ r.value_type
    typed = unfold log_record_is_deletion in ground (arith, w.typed)
