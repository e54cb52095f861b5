-- ===== src/Reader/Examples.antt =====
-- A test of the reader: the file of a table without records.
use reftable.Base.{ℕ, ◌+◌, ◌≡◌, refl, List, [], ◌++◌, false, none, ok, length, drop, arith, inl}
use reftable.Basics.BigEndian.{put_be24, put_be64}
use reftable.Tree.Search.{leaf}
use reftable.Generic.{git_sha1_format_id}
use reftable.Writer.{Writer, BlockStats, writer_version}
use reftable.Writer.Output.{writer_write_header}
use reftable.Writer.Close.{footer, footer_fields}
use reftable.Reader.{block_source_from_strbuf, init_reader}
use reftable.Reader.Footer.{Fits, reader_of}
use reftable.Reader.Open.{init_reader-footer}

abbrev no_blocks : BlockStats
no_blocks = record {
  entries = 0;
  restarts = 0;
  blocks = 0;
  index_blocks = 0;
  max_index_level = 0;
  offset = 0;
  index_offset = 0;
}

abbrev empty : Writer (List ℕ)
empty = record {
  sink = [];
  pending_padding = 0;
  last_key = [];
  next = 0;
  min_update_index = 1;
  max_update_index = 3;
  opts = record {
    unpadded = false;
    block_size = 4096;
    skip_index_objects = false;
    restart_interval = 16;
    hash_id = git_sha1_format_id;
    skip_name_check = false;
    exact_log_message = false;
  };
  block = [];
  block_writer = none;
  index = [];
  obj_index_tree = leaf;
  obj_nodes = [];
  stats = record {
    blocks = 0;
    ref_stats = no_blocks;
    obj_stats = no_blocks;
    idx_stats = no_blocks;
    log_stats = no_blocks;
    object_id_len = 0;
  };
}

empty-Fits : Fits empty
empty-Fits = record {
  hashed = inl refl;
  sized = omega arith;
  min_small = omega arith;
  max_small = omega arith;
  ref_small = omega arith;
  obj_small = omega arith;
  id_small = omega arith;
  obj_index_small = omega arith;
  log_small = omega arith;
  log_index_small = omega arith;
}

abbrev crc32 : ℕ → List ℕ → ℕ
crc32 start bytes = start + length bytes

init_reader-footer_example :
    init_reader crc32
      (block_source_from_strbuf (writer_write_header empty ++ ([] ++ footer crc32 empty)))
    ≡ ok (reader_of empty (length (writer_write_header empty) + 0) b'R')
unfolding footer_fields writer_write_header put_be24 put_be64 writer_version
init_reader-footer_example =
    init_reader-footer empty crc32 [] b'R' (drop 1 (footer crc32 empty)) empty-Fits (omega arith)
      refl
