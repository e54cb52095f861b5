-- ===== src/Writer/Output.antt =====
-- What the writer hands to its write function: the header, the padding and the blocks.
use reftable.Base.{
  ℕ, ◌+◌, ◌-◌, ◌^◌, ◌%◌, List, [], ◌∷◌, ◌++◌, not, none, some, Result, ok, ◌==◌, ◌&&◌, ltb,
  if◌then◌else◌, replicate, take, length, ◌>>=◌,
}
use reftable.Basics.BigEndian.{put_be24, put_be32, put_be64}
use reftable.Record.Any.{block_type_log}
use reftable.Block.Buffer.{write_at}
use reftable.Block.Writer.{BlockWriter, ZResult, block_writer_type, block_writer_finish}
use reftable.Writer.{Writer, writer_version, writer_reftable_block_stats, set_block_stats}

-- The bytes that writer_write_header stores; their number is header_size(writer_version(w)).
unfoldable pub writer_write_header : {W : Type 0} → Writer W → List ℕ
writer_write_header w =
    (b'R' ∷ b'E' ∷ b'F' ∷ b'T' ∷ [])
    ++ ((writer_version w.opts ∷ [])
        ++ (put_be24 w.opts.block_size
            ++ (put_be64 w.min_update_index
                ++ (put_be64 w.max_update_index
                    ++ (if writer_version w.opts == 2 then put_be32 w.opts.hash_id else [])))))

-- `write` is the writer's function pointer: it answers what becomes of its argument, or a negative code.
module _ {W : Type 0} (write : W → List ℕ → Result W) where
  unfoldable pub padded_write : Writer W → List ℕ → ℕ → Result (Writer W)
  padded_write w bytes padding = do
    sink ←
        (if ltb 0 w.pending_padding
          then write w.sink (replicate w.pending_padding 0)
          else ok w.sink)
    sink' ← write sink bytes
    ok (record w { sink = sink'; pending_padding = padding })

  -- compress2 is zlib's, and `first_cap` the first size of its output.
  module _ (compress2 : ℕ → List ℕ → ZResult) (first_cap : ℕ → ℕ) where
    -- The block writer `bw` is the one that w->block_writer points to. The padding of a block that is longer than
    -- block_size, which a valid writer does not make, is negative in C and wraps around here.
    unfoldable pub writer_flush_nonempty_block : Writer W → BlockWriter → Result (Writer W)
    writer_flush_nonempty_block w bw = do
      let typ = block_writer_type bw
      bstats ← writer_reftable_block_stats w.stats typ
      let block_typ_off = if bstats.blocks == 0 then w.next else 0
      (bw', raw_bytes) ← block_writer_finish compress2 first_cap bw
      let padding =
          if not w.opts.unpadded && not (typ == block_type_log)
          then (w.opts.block_size + 2 ^ 32 - raw_bytes) % 2 ^ 32
          else 0
      let stats = set_block_stats w.stats typ (record bstats {
        offset = if ltb 0 block_typ_off then block_typ_off else bstats.offset;
        entries = bstats.entries + bw'.entries;
        restarts = bstats.restarts + length bw'.restarts;
        blocks = bstats.blocks + 1;
      })
      block ← (if w.next == 0 then write_at bw'.buf 0 (writer_write_header w) else ok bw'.buf)
      w' ← padded_write w (take raw_bytes block) padding
      ok (record w' {
        block = block;
        stats = record stats { blocks = stats.blocks + 1 };
        index = w.index ++ (record { offset = w.next; last_key = bw'.last_key } ∷ []);
        next = w.next + padding + raw_bytes;
        block_writer = none;
      })

    unfoldable pub writer_flush_block : Writer W → Result (Writer W)
    writer_flush_block w = elim w.block_writer [
      | none ↦ ok w
      | some bw ↦ if bw.entries == 0 then ok w else writer_flush_nonempty_block w bw
    ]
