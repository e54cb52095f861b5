-- ===== src/Writer/Close.antt =====
-- reftable_writer_close of c/writer.c: the footer.
use reftable.Base.{ℕ, ◌+◌, ◌*◌, ◌/◌, ◌%◌, List, ◌++◌, Result, ok, ◌==◌, if◌then◌else◌, ◌>>=◌, Bool}
use reftable.Basics.BigEndian.{put_be32, put_be64}
use reftable.Record.View.{u64}
use reftable.Block.Writer.{ZResult}
use reftable.Writer.{Writer}
use reftable.Writer.Output.{writer_write_header, padded_write}
use reftable.Writer.Section.{writer_clear_index, writer_finish_public_section}

-- `offset << 5 | len` for a len below 64: the sixth bit of len falls on the lowest bit of the offset.
unfoldable pub pack_obj : ℕ → ℕ → ℕ
pack_obj offset len =
    let high = if len / 32 == 0 then offset else offset / 2 * 2 + 1 in (high * 32) % u64 + len % 32

-- The footer up to its checksum.
unfoldable pub footer_fields : {W : Type 0} → Writer W → List ℕ
footer_fields w =
    writer_write_header w
    ++ (put_be64 w.stats.ref_stats.index_offset
        ++ (put_be64 (pack_obj w.stats.obj_stats.offset w.stats.object_id_len)
            ++ (put_be64 w.stats.obj_stats.index_offset
                ++ (put_be64 w.stats.log_stats.offset ++ put_be64 w.stats.log_stats.index_offset))))

abbrev pub footer : {W : Type 0} → (ℕ → List ℕ → ℕ) → Writer W → List ℕ
footer crc32 w = footer_fields w ++ put_be32 (crc32 0 (footer_fields w))

module _ {W : Type 0} (write : W → List ℕ → Result W) (compress2 : ℕ → List ℕ → ZResult)
    (first_cap : ℕ → ℕ) (crc32 : ℕ → List ℕ → ℕ) where
  -- The writer that is closed, and whether the table is empty, for which C returns an error code after the
  -- footer has been written. crc32 is zlib's.
  unfoldable pub reftable_writer_close : ℕ → Writer W → Result (Writer W × Bool)
  reftable_writer_close fuel w = do
    finished ← writer_finish_public_section write compress2 first_cap fuel w
    let w1 = record finished { pending_padding = 0 }
    let empty_table = w1.next == 0
    w2 ← (if empty_table then padded_write write w1 (writer_write_header w1) 0 else ok w1)
    w3 ← padded_write write w2 (footer crc32 w2) 0
    ok (writer_clear_index w3, empty_table)
