-- ===== src/Reader.antt =====
-- struct reftable_reader of c/reader.h, and how init_reader of c/reader.c makes one from a file. A block source
-- (c/blocksource.c) is the answers of its vtable.
pub mod Footer
pub mod Open
pub mod TableIter
mod Examples
use reftable.Base.{
  ℕ, zero, suc, ◌+◌, ◌-◌, ◌/◌, ◌%◌, List, [], ◌∷◌, ◌++◌, Bool, ltb, leb, ◌==◌, ◌||◌, if◌then◌else◌,
  Result, ok, err, fault, aborted, format_error, io_error, load, length, take, drop, guard, ◌>>=◌,
}
use reftable.Basics.Bytes.{memcmp, is_eq}
use reftable.Basics.BigEndian.{get_be24, get_be32, get_be64}
use reftable.Record.View.{u64}
use reftable.Record.Any.{block_type_ref, block_type_log}
use reftable.Generic.{git_sha1_format_id, git_sha256_format_id}
use reftable.Block.Writer.{header_size, footer_size}

-- What is read; C returns the number of its bytes.
pub record BlockSource : Type 0 where
  pub size : ℕ
  pub read_block : ℕ → ℕ → Result (List ℕ)

unfoldable pub strbuf_read_block : List ℕ → ℕ → ℕ → Result (List ℕ)
strbuf_read_block b off size =
    if leb (off + size) (length b) then ok (take size (drop off b)) else fault aborted

abbrev pub block_source_from_strbuf : List ℕ → BlockSource
block_source_from_strbuf buf = record { size = length buf; read_block = strbuf_read_block buf }

pub record ReaderOffsets : Type 0 where
  pub is_present : Bool
  pub offset : ℕ
  pub index_offset : ℕ

-- The block source and the name are arguments of the functions that use them.
pub record Reader : Type 0 where
  pub size : ℕ
  pub hash_id : ℕ
  pub block_size : ℕ
  pub min_update_index : ℕ
  pub max_update_index : ℕ
  pub object_id_len : ℕ
  pub version : ℕ
  pub ref_offsets : ReaderOffsets
  pub obj_offsets : ReaderOffsets
  pub log_offsets : ReaderOffsets

-- `get_be64(f)`, and `f` behind it.
unfoldable pub read_be64 : List ℕ → Result (ℕ × List ℕ)
read_be64 f = do v ← get_be64 f; ok (v, drop 8 f)

unfoldable pub read_hash_id : ℕ → List ℕ → Result (ℕ × List ℕ)
read_hash_id version f = if version == 1 then ok (git_sha1_format_id, f) else (do
  id ← get_be32 f
  if id == git_sha1_format_id || id == git_sha256_format_id
      then ok (id, drop 4 f)
      else err format_error)

abbrev pub magic : List ℕ
magic = b'R' ∷ b'E' ∷ b'F' ∷ b'T' ∷ []

-- crc32 is zlib's.
module _ (crc32 : ℕ → List ℕ → ℕ) where
  unfoldable pub parse_footer : ℕ → ℕ → List ℕ → List ℕ → Result Reader
  parse_footer version size footer header = do
    checked ← guard (is_eq (memcmp footer magic 4)) format_error
    hsize ← header_size version
    same ← guard (is_eq (memcmp footer header hsize)) format_error
    let f = drop 1 (drop 4 footer)
    block_size ← get_be24 f
    (min, f1) ← read_be64 (drop 3 f)
    (max, f2) ← read_be64 f1
    (hash_id, f3) ← read_hash_id version f2
    (ref_index, f4) ← read_be64 f3
    (obj, f5) ← read_be64 f4
    (obj_index, f6) ← read_be64 f5
    (log_off, f7) ← read_be64 f6
    (log_index, f8) ← read_be64 f7
    file_crc ← get_be32 f8
    sound ← guard (crc32 0 (take (length footer - length f8) footer) == file_crc) format_error
    first_block_typ ← load header hsize
    ok (record {
      size = size;
      hash_id = hash_id;
      block_size = block_size;
      min_update_index = min;
      max_update_index = max;
      object_id_len = obj % 32;
      version = version;
      ref_offsets = record {
        is_present = first_block_typ == block_type_ref;
        offset = 0;
        index_offset = ref_index;
      };
      obj_offsets = record {
        is_present = ltb 0 (obj / 32);
        offset = obj / 32;
        index_offset = obj_index;
      };
      log_offsets = record {
        is_present = first_block_typ == block_type_log || ltb 0 log_off;
        offset = log_off;
        index_offset = log_index;
      };
    })

  -- `if (err != n) err = REFTABLE_IO_ERROR`, where the block could not be read.
  abbrev io_checked : Result (List ℕ) → Result (List ℕ)
  io_checked (ok block) = ok block
  io_checked (err code) = err io_error
  io_checked (fault cause) = fault cause

  -- The size wraps around for a file that is shorter than a footer.
  unfoldable pub init_reader : BlockSource → Result Reader
  init_reader source = do
    hsize ← header_size 2
    let read_size = hsize + 1
    large ← guard (leb read_size source.size) format_error
    header ← io_checked (source.read_block 0 read_size)
    whole ← guard (length header == read_size) io_error
    checked ← guard (is_eq (memcmp header magic 4)) format_error
    version ← load header 4
    known ← guard (version == 1 || version == 2) format_error
    fsize ← footer_size version
    let size = if ltb source.size fsize then source.size + u64 - fsize else source.size - fsize
    footer ← io_checked (source.read_block size fsize)
    whole' ← guard (length footer == fsize) io_error
    parse_footer version size footer header
