-- ===== src/Record/Log/Equal.antt =====
-- reftable_log_record_equal and reftable_log_record_compare_key of c/record.c.
use Prim.Native.Nat.{compare, Ordering}
use Prim.Native.Nat.Ordering.{lt, eq, gt}
use native.Mathlib.Nat.{pow-suc}
use reftable.Base.{
  ℕ, zero, suc, ◌/◌, ◌%◌, ◌^◌, ◌<◌, ◌≡◌, ◌∙◌, List, [], ◌∷◌, ◌++◌, Result, ok, fault, aborted, Bool,
  true, false, ltb, ◌==◌, if◌then◌else◌, ◌&&◌, not, arith, Option, some,
}
use reftable.Basics.Bytes.{strcmp, strbuf_cmp, strbuf_cmp-strcmp, memcmp, is_eq}
use reftable.Basics.BigEndian.{put_be64, put_be64_loop}
use reftable.Record.View.{u64, IsText}
use reftable.Record.Types.{LogRecord}
use reftable.Record.Log.{reversed, log_record_key, or_empty, or_zero}

null_streq : Option (List ℕ) → Option (List ℕ) → Bool
null_streq a b = is_eq (strcmp (or_empty a) (or_empty b))

zero_hash_eq : Option (List ℕ) → Option (List ℕ) → ℕ → Bool
zero_hash_eq a b sz = is_eq (memcmp (or_zero a) (or_zero b) sz)

unfoldable pub log_record_equal : ℕ → LogRecord → LogRecord → Result Bool
unfolding null_streq zero_hash_eq
log_record_equal hash_size a b =
    let u = a.update in
    let v = b.update in
    if not (
      null_streq (some a.refname) (some b.refname)
      && (a.update_index == b.update_index && a.value_type == b.value_type))
    then ok false
    else if a.value_type == 0
    then ok true
    else if a.value_type == 1
    then ok (
        null_streq u.name v.name
        && (u.time == v.time
            && (u.tz_offset == v.tz_offset
                && (null_streq u.email v.email
                    && (null_streq u.message v.message
                        && (zero_hash_eq u.old_hash v.old_hash hash_size
                            && zero_hash_eq u.new_hash v.new_hash hash_size))))))
    else fault aborted

-- The order in which reftable_writer_add_logs sorts its input.
unfoldable pub log_record_compare_key : LogRecord → LogRecord → Ordering
log_record_compare_key a b = elim (strcmp a.refname b.refname) [
  | lt ↦ lt
  | gt ↦ gt
  | eq ↦
      if ltb b.update_index a.update_index
      then lt
      else if ltb a.update_index b.update_index
      then gt
      else eq
]

strcmp-append_zero :
    (a b s t : List ℕ)
    → IsText a
    → IsText b
    → strcmp (a ++ (0 ∷ s)) (b ++ (0 ∷ t))
      ≡ elim (strcmp a b) [ lt ↦ lt | eq ↦ strcmp s t | gt ↦ gt ]
unfolding strcmp
strcmp-append_zero [] [] s t ha hb = ground arith
strcmp-append_zero [] (y ∷ b) s t ha hb = ground arith
strcmp-append_zero (x ∷ a) [] s t ha hb = ground arith
strcmp-append_zero (x ∷ a) (y ∷ b) s t ha hb = ground (arith, strcmp-append_zero a b s t ha.1 hb.1)

strcmp-put_be64_loop :
    (i x y : ℕ) (s t : List ℕ)
    → x < 256 ^ i
    → y < 256 ^ i
    → strcmp (put_be64_loop i x s) (put_be64_loop i y t)
      ≡ elim (compare x y) [ lt ↦ lt | eq ↦ strcmp s t | gt ↦ gt ]
unfolding put_be64_loop
strcmp-put_be64_loop zero x y s t hx hy = ground arith
strcmp-put_be64_loop (suc i) x y s t hx hy =
    rw
      (strcmp-put_be64_loop i (x / 2 ^ 8) (y / 2 ^ 8) ((x % 256) ∷ s) ((y % 256) ∷ t)
        (omega (arith, pow-suc 256 i)) (omega (arith, pow-suc 256 i)))
      (unfold strcmp in ground arith)

-- Bytes in big-endian order compare as the numbers do.
strcmp-put_be64 : (x y : ℕ) → x < u64 → y < u64 → strcmp (put_be64 x) (put_be64 y) ≡ compare x y
unfolding put_be64
strcmp-put_be64 x y hx hy =
    strcmp-put_be64_loop 8 x y [] [] (omega arith) (omega arith) ∙ unfold strcmp in ground arith

-- For names without a NUL and update indices of 64 bits, the keys in the file are in the order of
-- reftable_log_record_compare_key: by name, and then the latest update first.
pub strbuf_cmp-log_record_key :
    (a b : LogRecord)
    → IsText a.refname
    → IsText b.refname
    → a.update_index < u64
    → b.update_index < u64
    → strbuf_cmp (log_record_key a) (log_record_key b) ≡ log_record_compare_key a b
unfolding log_record_key log_record_compare_key
strbuf_cmp-log_record_key a b ha hb ia ib =
    rw (strbuf_cmp-strcmp, strcmp-append_zero a.refname b.refname _ _ ha hb)
      (ground (
        arith,
        strcmp-put_be64 (reversed a.update_index) (reversed b.update_index) (omega arith)
            (omega arith),
      ))
