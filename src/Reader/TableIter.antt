-- ===== src/Reader/TableIter.antt =====
-- struct table_iter of c/reader.c: blocks of a table, and the records in them one after the other.
use Prim.Native.Nat.Ordering.{gt}
use reftable.Base.{
  ℕ, zero, suc, ◌+◌, ◌-◌, ◌%◌, List, [], Bool, false, not, Option, none, some, ltb, leb, ◌==◌, ◌&&◌,
  if◌then◌else◌, Result, ok, err, fault, aborted, api_error, out_of_bounds, out_of_fuel, load,
  length, drop, ◌>>=◌,
}
use reftable.Basics.Bytes.{strbuf_cmp}
use reftable.Basics.BigEndian.{get_be24}
use reftable.Record.View.{u64}
use reftable.Record.Types.{Record, ref, obj, log, index}
use reftable.Record.Any.{
  record_key, record_type, is_block_type, block_type_ref, block_type_log, block_type_obj,
  block_type_index,
}
use reftable.Generic.{hash_size}
use reftable.Block.Writer.{header_size}
use reftable.Block.Reader.{
  BlockReader, BlockIter, block_reader_init, block_reader_type, block_reader_start, block_iter_next,
  block_reader_first_key, block_reader_seek,
}
use reftable.Reader.{Reader, ReaderOffsets, BlockSource}

abbrev block_type_any : ℕ
block_type_any = 0

unfoldable pub reader_offsets_for : Reader → ℕ → Result ReaderOffsets
reader_offsets_for r typ =
    if typ == block_type_ref
    then ok r.ref_offsets
    else if typ == block_type_log
    then ok r.log_offsets
    else if typ == block_type_obj
    then ok r.obj_offsets
    else fault aborted

-- The type of the block, and its size, 0 where there is no block.
unfoldable pub extract_block_size : List ℕ → ℕ → ℕ → Result (ℕ × ℕ)
extract_block_size bytes off version = do
  skip ← (if off == 0 then header_size version else ok 0)
  typ ← load bytes skip
  if is_block_type typ
      then (do size ← get_be24 (drop (skip + 1) bytes); ok (typ, size))
      else ok (typ, 0)

-- `br` is the bi.br of C, which the iterator owns, and `bi` the other fields of the block_iter.
pub record TableIter : Type 0 where
  pub typ : ℕ
  pub block_off : ℕ
  pub br : Option BlockReader
  pub bi : BlockIter
  pub is_finished : Bool

abbrev pub deref_block : Option BlockReader → Result BlockReader
deref_block none = fault out_of_bounds
deref_block (some br) = ok br

-- The update index of a ref is stored relative to the least of the table.
unfoldable pub add_min : ℕ → Record → Record
add_min min (ref r) = ref (record r { update_index = (r.update_index + min) % u64 })
add_min min (obj r) = obj r
add_min min (log r) = log r
add_min min (index r) = index r

module _ (r : Reader) (source : BlockSource) (uncompress2 : ℕ → List ℕ → Option (List ℕ × ℕ)) where
  -- The bytes of the block, cut at the end of the table; none behind it.
  unfoldable pub reader_get_block : ℕ → ℕ → Result (List ℕ)
  reader_get_block off sz =
      if leb r.size off
      then ok []
      else source.read_block off (if ltb r.size (off + sz) then r.size - off else sz)

  -- `none` is the 1 of C: there is no block, or it is of another type.
  unfoldable pub reader_init_block_reader : ℕ → ℕ → Result (Option BlockReader)
  reader_init_block_reader next_off want_typ = do
    let guess_block_size = if r.block_size == 0 then 4096 else r.block_size
    header_off ← (if next_off == 0 then header_size r.version else ok 0)
    if leb r.size next_off then ok none else (do
      block ← reader_get_block next_off guess_block_size
      (block_typ, block_size) ← extract_block_size block next_off r.version
      if not (want_typ == block_type_any) && not (block_typ == want_typ) then ok none else (do
        whole ←
            (if ltb guess_block_size block_size
              then reader_get_block next_off block_size
              else ok block)
        size ← hash_size r.hash_id
        br ← block_reader_init uncompress2 whole (length whole) header_off r.block_size size
        ok (some br)))

  unfoldable pub table_iter_next_in_block :
      TableIter → Record → Result (Option (Record × TableIter))
  table_iter_next_in_block ti rec = do
    br ← deref_block ti.br
    step ← block_iter_next br ti.bi rec
    ok (elim step [
      | none ↦ none
      | some (bi, rec') ↦ some (add_min r.min_update_index rec', record ti { bi = bi })
    ])

  unfoldable pub table_iter_next_block : TableIter → Result (Option TableIter)
  table_iter_next_block src = do
    br ← deref_block src.br
    let next_block_off = src.block_off + br.full_block_size
    found ← reader_init_block_reader next_block_off src.typ
    ok (elim found [
      | none ↦ none
      | some next ↦ some (record {
        typ = src.typ;
        block_off = next_block_off;
        br = some next;
        bi = block_reader_start next;
        is_finished = false;
      })
    ])

  -- The `while (1)`: `fuel` bounds the blocks that are left.
  unfoldable pub records_loop : ℕ → TableIter → Record → Result (Option (Record × TableIter))
  unfolding table_iter_next_block
  records_loop zero ti rec = fault out_of_fuel
  records_loop (suc fuel) ti rec =
      let read : Result (Option (Record × TableIter)) = do
        step ← table_iter_next_in_block ti rec
        elim step [
          | some answer ↦ ok (some answer)
          | none ↦ (do
            next ← table_iter_next_block ti
            elim next [ none ↦ ok none | some ti' ↦ records_loop fuel ti' rec ])
        ]
      in if ti.is_finished then ok none else read

  unfoldable pub table_iter_next : ℕ → TableIter → Record → Result (Option (Record × TableIter))
  table_iter_next fuel ti rec =
      if record_type rec == ti.typ then records_loop fuel ti rec else err api_error

  unfoldable pub reader_table_iter_at : ℕ → ℕ → Result (Option TableIter)
  reader_table_iter_at off typ = do
    found ← reader_init_block_reader off typ
    elim found [
      | none ↦ ok none
      | some br ↦ (do
        br_typ ← block_reader_type br
        ok (
            some (record {
              typ = br_typ;
              block_off = off;
              br = some br;
              bi = block_reader_start br;
              is_finished = false;
            })))
    ]

  unfoldable pub reader_start : ℕ → Bool → Result (Option TableIter)
  reader_start typ indexed = do
    offs ← reader_offsets_for r typ
    if indexed
        then (if offs.index_offset == 0
            then ok none
            else reader_table_iter_at offs.index_offset block_type_index)
        else reader_table_iter_at offs.offset typ

  -- The `while (1)` of reader_seek_linear: the last block whose first key is not behind the wanted one.
  unfoldable pub linear_loop : ℕ → TableIter → List ℕ → Result TableIter
  unfolding table_iter_next_block
  linear_loop zero ti want_key = fault out_of_fuel
  linear_loop (suc fuel) ti want_key = do
    found ← table_iter_next_block ti
    elim found [
      | none ↦ ok ti
      | some next ↦ (do
        br ← deref_block next.br
        got_key ← block_reader_first_key br
        elim (strbuf_cmp got_key want_key) [ gt ↦ ok ti | _ ↦ linear_loop fuel next want_key ])
    ]

  unfoldable pub reader_seek_linear : ℕ → TableIter → Record → Result TableIter
  reader_seek_linear fuel ti want = do
    at ← linear_loop fuel ti (record_key want)
    br ← deref_block at.br
    bi ← block_reader_seek br at.bi (record_key want)
    ok (record at { bi = bi })
