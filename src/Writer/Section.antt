-- ===== src/Writer/Section.antt =====
-- The end of a section of c/writer.c: its index, and the section of object ids.
use reftable.Base.{
  ℕ, zero, suc, ◌+◌, ◌-◌, List, [], ◌∷◌, not, Option, none, some, Result, Error, ok, err, fault,
  aborted, out_of_fuel, ◌==◌, ◌&&◌, ltb, if◌then◌else◌, get_or, length, ◌>>=◌,
}
use reftable.Basics.Bytes.{common_prefix_size}
use reftable.Record.Types.{Record, IndexRecord, index, obj}
use reftable.Record.Any.{block_type_ref, block_type_index, block_type_obj}
use reftable.Tree.Search.{leaf, infix_walk}
use reftable.Block.Writer.{BlockWriter, ZResult, block_writer_type, block_writer_add}
use reftable.Writer.{
  Writer, ObjIndexTreeNode, deref, writer_reftable_block_stats, set_block_stats,
  writer_reinit_block_writer,
}
use reftable.Writer.Output.{writer_flush_block}

unfoldable pub writer_clear_index : {W : Type 0} → Writer W → Writer W
writer_clear_index w = record w { index = [] }

abbrev blank_node : ObjIndexTreeNode
blank_node = record { hash = []; offsets = [] }

-- What a pointer of the tree points to.
abbrev pub node_at : List ObjIndexTreeNode → ℕ → ObjIndexTreeNode
node_at nodes p = get_or nodes p blank_node

-- The fold of update_common over the walk: the last hash, and the longest common prefix so far.
unfoldable pub update_common : List ObjIndexTreeNode → ℕ → Option (List ℕ) × ℕ → Option (List ℕ) × ℕ
update_common nodes p (none, longest) = (some (node_at nodes p).hash, longest)
update_common nodes p (some last, longest) =
    let n = common_prefix_size (node_at nodes p).hash last in
    (some (node_at nodes p).hash, if ltb longest n then n else longest)

module _ {W : Type 0} (write : W → List ℕ → Result W) (compress2 : ℕ → List ℕ → ZResult)
    (first_cap : ℕ → ℕ) where
  abbrev pub flush_block : Writer W → Result (Writer W)
  flush_block = writer_flush_block write compress2 first_cap

  -- An entry for a block of the type; where it does not fit, the block is flushed and the entry goes to a
  -- new one. `full` is what is done where it does not fit that one either.
  unfoldable pub add_or_flush :
      Writer W
      → ℕ
      → Record
      → (Error → Writer W → BlockWriter → Result (Writer W))
      → Result (Writer W)
  add_or_flush w typ rec full = do
    bw ← deref w.block_writer
    elim (block_writer_add bw rec) [
      | ok bw' ↦ ok (record w { block_writer = some bw' })
      | fault cause ↦ fault cause
      | err code ↦ (do
        flushed ← flush_block w
        w' ← writer_reinit_block_writer flushed typ
        fresh ← deref w'.block_writer
        elim (block_writer_add fresh rec) [
          | ok bw' ↦ ok (record w' { block_writer = some bw' })
          | fault cause ↦ fault cause
          | err code' ↦ full code' w' fresh
        ])
    ]

  -- The `for` over the entries of one level of the index.
  unfoldable pub level_loop : List IndexRecord → Writer W → Result (Writer W)
  unfolding add_or_flush
  level_loop [] w = ok w
  level_loop (idx ∷ rest) w = do
    w' ← add_or_flush w block_type_index (index idx) (λ code w1 bw. fault aborted)
    level_loop rest w'

  -- The `while`: the writer, max_level and index_start at its end.
  unfoldable pub index_loop : ℕ → ℕ → ℕ → ℕ → Writer W → Result (Writer W × ℕ × ℕ)
  unfolding level_loop
  index_loop zero threshold max_level index_start w = fault out_of_fuel
  index_loop (suc fuel) threshold max_level index_start w =
      let next_level = do
        w1 ← writer_reinit_block_writer w block_type_index
        w2 ← level_loop w.index (record w1 { index = [] })
        index_loop fuel threshold (max_level + 1) w.next w2
      in if ltb threshold (length w.index) then next_level else ok (w, max_level, index_start)

  unfoldable pub writer_finish_section : ℕ → Writer W → Result (Writer W)
  unfolding index_loop
  writer_finish_section fuel w = do
    bw ← deref w.block_writer
    let typ = block_writer_type bw
    let threshold = if w.opts.unpadded then 1 else 3
    let before_blocks = w.stats.idx_stats.blocks
    flushed ← flush_block w
    (w1, max_level, index_start) ← index_loop fuel threshold 0 0 flushed
    w2 ← flush_block (writer_clear_index w1)
    bstats ← writer_reftable_block_stats w2.stats typ
    let stats = set_block_stats w2.stats typ (record bstats {
      index_blocks = w2.stats.idx_stats.blocks - before_blocks;
      index_offset = index_start;
      max_index_level = max_level;
    })
    ok (record w2 { stats = stats; last_key = [] })

  -- An object record that is too long even for a new block is stored without its offsets.
  unfoldable pub write_object_record : ℕ → Result (Writer W) → Result (Writer W)
  unfolding add_or_flush
  write_object_record p state = do
    w ← state
    let entry = node_at w.obj_nodes p
    let rec : List ℕ → Record = λ offsets. obj (record {
      hash_prefix = entry.hash;
      hash_prefix_len = w.stats.object_id_len;
      offsets = offsets;
    })
    add_or_flush w block_type_obj (rec entry.offsets) (λ code w' bw.
        elim (block_writer_add bw (rec [])) [
          | ok bw' ↦ ok (record w' { block_writer = some bw' })
          | err code' ↦ fault aborted
          | fault cause ↦ fault cause
        ])

  unfoldable pub writer_dump_object_index : ℕ → Writer W → Result (Writer W)
  unfolding write_object_record
  writer_dump_object_index fuel w = do
    let common = (infix_walk (update_common w.obj_nodes) w.obj_index_tree (none, 0)).1
    let measured = record w { stats = record w.stats { object_id_len = common + 1 } }
    w' ← writer_reinit_block_writer measured block_type_obj
    written ← infix_walk write_object_record w'.obj_index_tree (ok w')
    writer_finish_section fuel written

  unfoldable pub writer_finish_public_section : ℕ → Writer W → Result (Writer W)
  unfolding writer_finish_section
  writer_finish_public_section fuel w = elim w.block_writer [
    | none ↦ ok w
    | some bw ↦ (do
      let typ = block_writer_type bw
      w1 ← writer_finish_section fuel w
      w2 ←
          (if typ == block_type_ref
              && (not w1.opts.skip_index_objects && ltb 0 w1.stats.ref_stats.index_blocks)
            then writer_dump_object_index fuel w1
            else ok w1)
      ok (record w2 { obj_index_tree = leaf; obj_nodes = []; block_writer = none }))
  ]
