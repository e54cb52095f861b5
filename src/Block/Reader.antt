-- ===== src/Block/Reader.antt =====
-- struct block_reader and struct block_iter of c/block.h, and their functions in c/block.c.
use Prim.Native.Nat.Ordering.{lt}
use reftable.Base.{
  ℕ, zero, suc, ◌+◌, ◌-◌, ◌*◌, ◌%◌, ◌^◌, List, [], ◌++◌, Result, ok, err, fault, out_of_bounds,
  out_of_fuel, general, format_error, zlib_error, ◌>>=◌, ◌>>◌, guard, load, length, Bool, true,
  false, ltb, leb, ◌==◌, if◌then◌else◌, ◌&&◌, ◌||◌, not, take, drop, Option, some, none,
}
use reftable.Basics.BigEndian.{get_be24, get_be16}
use reftable.Basics.Bytes.{strbuf_cmp, is_eq}
use reftable.Basics.BinSearch.{binsearch}
use reftable.Record.Types.{Record, ref, obj, log, index}
use reftable.Record.View.{View, view, u64, consume, consumed}
use reftable.Record.Key.{decode_key}
use reftable.Record.Any.{is_block_type, block_type_log, new_record, record_key, record_decode}

-- `restart_start` is where `restart_bytes` points into the block's memory `bytes`, of `len` bytes.
pub record BlockReader : Type 0 where
  pub header_off : ℕ
  pub bytes : List ℕ
  pub len : ℕ
  pub hash_size : ℕ
  pub block_len : ℕ
  pub restart_start : ℕ
  pub restart_count : ℕ
  pub full_block_size : ℕ

pub record BlockIter : Type 0 where
  pub next_off : ℕ
  pub last_key : List ℕ

-- `a - b` in a uint32_t.
abbrev pub sub32 : ℕ → ℕ → ℕ
sub32 a b = (a + 2 ^ 32 - b) % 2 ^ 32

-- The block after a possible decompression, and the size that it takes in the file.
pub record Opened : Type 0 where
  pub bytes : List ℕ
  pub len : ℕ
  pub full_block_size : ℕ

unfoldable pub open_plain : List ℕ → ℕ → ℕ → ℕ → Result Opened
open_plain bytes len table_block_size sz =
    let whole = λ (full : ℕ). ok (record { bytes = bytes; len = len; full_block_size = full }) in
    if table_block_size == 0
    then whole sz
    else if ltb sz table_block_size && ltb sz len
    then (do b ← load bytes sz; whole (if b == 0 then table_block_size else sz))
    else whole table_block_size

-- uncompress2 is zlib's: from the room for the output and the input to the output and the number of
-- bytes read, or an error.
module _ (uncompress2 : ℕ → List ℕ → Option (List ℕ × ℕ)) where
  open_log : List ℕ → ℕ → ℕ → ℕ → Result Opened
  open_log bytes len header_off sz =
      let skip = 4 + header_off in
      let src_len = if ltb len skip then len + u64 - skip else len - skip in
      if ltb sz skip || ltb (length bytes) skip
      then fault out_of_bounds
      else elim (uncompress2 (sz - skip) (take src_len (drop skip bytes))) [
        | none ↦ err zlib_error
        | some (out, used) ↦
            if length out + skip == sz
            then ok (record {
              bytes = take skip bytes ++ out;
              len = sz;
              full_block_size = (used + skip) % 2 ^ 32;
            })
            else err format_error
      ]

  unfoldable pub block_reader_init : List ℕ → ℕ → ℕ → ℕ → ℕ → Result BlockReader
  unfolding open_log open_plain
  block_reader_init bytes len header_off table_block_size hash_size = do
    typ ← load bytes header_off
    sz ← get_be24 (drop (header_off + 1) bytes)
    guard (is_block_type typ) format_error
    o ←
        if typ == block_type_log
        then open_log bytes len header_off sz
        else open_plain bytes len table_block_size sz
    restart_count ← if ltb sz 2 then fault out_of_bounds else get_be16 (drop (sz - 2) o.bytes)
    let restart_start = sub32 sz (2 + 3 * restart_count)
    ok (record {
      header_off = header_off;
      bytes = o.bytes;
      len = o.len;
      hash_size = hash_size;
      block_len = restart_start;
      restart_start = restart_start;
      restart_count = restart_count;
      full_block_size = o.full_block_size;
    })

unfoldable pub block_reader_type : BlockReader → Result ℕ
block_reader_type br = load br.bytes br.header_off

unfoldable pub block_reader_restart_offset : BlockReader → ℕ → Result ℕ
block_reader_restart_offset br i = get_be24 (drop (br.restart_start + 3 * i) br.bytes)

unfoldable pub block_reader_start : BlockReader → BlockIter
block_reader_start br = record { next_off = br.header_off + 4; last_key = [] }

-- The view from an offset to the end of the entries.
abbrev pub view_from : BlockReader → ℕ → View
view_from br off = view (drop off br.bytes) (sub32 br.block_len off)

-- The state is the `error` flag. Any answer but 0 is true in C, so the result is whether the keys differ.
unfoldable pub restart_key_less : BlockReader → List ℕ → ℕ → Bool → Result (Bool × Bool)
restart_key_less br want idx error = do
  off ← block_reader_restart_offset br idx
  elim (decode_key [] (view_from br off)) [
    | ok (k, n) ↦ ok (not (is_eq (strbuf_cmp want k.key)), error)
    | err e ↦ ok (true, true)
    | fault x ↦ fault x
  ]

-- `if (n < 0) return -1;`
abbrev pub general_checked {ℓ} : {A : Type ℓ} → Result A → Result A
general_checked (ok a) = ok a
general_checked (err e) = err general
general_checked (fault x) = fault x

-- `none` is the end of the block, 1 in C; `rec` is the record that is read over.
unfoldable pub block_iter_next :
    BlockReader → BlockIter → Record → Result (Option (BlockIter × Record))
block_iter_next br it rec =
    let start = view_from br it.next_off in
    if leb br.block_len it.next_off then ok none else (do
      (k, n) ← general_checked (decode_key it.last_key start)
      let in1 = consume start n
      (r, m) ← general_checked (record_decode br.hash_size rec k.key k.extra in1)
      let off = (it.next_off + consumed start (consume in1 m)) % 2 ^ 32
      ok (some (record { next_off = off; last_key = k.key }, r)))

unfoldable pub block_reader_first_key : BlockReader → Result (List ℕ)
block_reader_first_key br = do (k, n) ← decode_key [] (view_from br (br.header_off + 4)); ok k.key

-- The key is taken also where there is no further entry. The record is then still a new one if the block has no
-- entry at all from the restart on, and the name in a new ref or log record is NULL.
abbrev key_at_end : Bool → Record → BlockIter → Result BlockIter
key_at_end true rec it = ok it
key_at_end false (ref r) it = fault out_of_bounds
key_at_end false (log r) it = fault out_of_bounds
key_at_end false (obj r) it = ok it
key_at_end false (index r) it = ok it

-- The `while (1)` of block_reader_seek: it stops before the first entry that is not below `want`. The Bool is
-- whether an entry has been read into the record.
seek_loop : Bool → BlockReader → List ℕ → ℕ → BlockIter → Record → Result BlockIter
seek_loop has_read br want zero it rec = fault out_of_fuel
seek_loop has_read br want (suc fuel) it rec = do
  step ← block_iter_next br it rec
  elim step [
    | none ↦ key_at_end has_read rec it
    | some (it', rec') ↦ elim (strbuf_cmp (record_key rec') want) [
      | lt ↦ seek_loop true br want fuel it' rec'
      | _ ↦ ok it
    ]
  ]

-- `it` is the iterator as the caller hands it in: its last_key is kept. Each entry takes two bytes at
-- least, so the length of the block bounds the rounds.
unfoldable pub block_reader_seek : BlockReader → BlockIter → List ℕ → Result BlockIter
unfolding seek_loop
block_reader_seek br it want = do
  typ ← block_reader_type br
  rec ← new_record typ
  (i, error) ← binsearch (restart_key_less br want) br.restart_count false
  guard (not error) format_error
  off ← if ltb 0 i then block_reader_restart_offset br (i - 1) else ok (br.header_off + 4)
  seek_loop false br want (br.block_len + 1) (record it { next_off = off }) rec
