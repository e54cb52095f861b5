-- ===== src/Writer.antt =====
-- struct reftable_writer of c/writer.h, with the options and the statistics of c/include/reftable-writer.h.
pub mod Output
pub mod Section
pub mod Add
pub mod Close
pub mod Offsets
pub mod Run
pub mod Calls
pub mod Finish
pub mod Checks
pub mod Levels
pub mod Rounds
mod Examples
use reftable.Base.{
  ℕ, zero, suc, ◌+◌, ◌-◌, ◌^◌, List, [], ◌∷◌, ◌++◌, Bool, Option, none, some, Result, ok, fault,
  aborted, out_of_bounds, ◌==◌, ◌||◌, ltb, if◌then◌else◌, replicate, ◌>>=◌,
}
use reftable.Record.Types.{IndexRecord}
use reftable.Record.Any.{block_type_ref, block_type_obj, block_type_index, block_type_log}
use reftable.Tree.Search.{Tree, leaf}
use reftable.Generic.{hash_size, git_sha1_format_id}
use reftable.Block.Writer.{BlockWriter, block_writer_init, header_size}

pub record WriteOptions : Type 0 where
  pub unpadded : Bool
  pub block_size : ℕ
  pub skip_index_objects : Bool
  pub restart_interval : ℕ
  pub hash_id : ℕ
  pub skip_name_check : Bool
  pub exact_log_message : Bool

pub record BlockStats : Type 0 where
  pub entries : ℕ
  pub restarts : ℕ
  pub blocks : ℕ
  pub index_blocks : ℕ
  pub max_index_level : ℕ
  pub offset : ℕ
  pub index_offset : ℕ

pub record Stats : Type 0 where
  pub blocks : ℕ
  pub ref_stats : BlockStats
  pub obj_stats : BlockStats
  pub idx_stats : BlockStats
  pub log_stats : BlockStats
  pub object_id_len : ℕ

-- `offset_len` is the length of the offsets.
pub record ObjIndexTreeNode : Type 0 where
  pub hash : List ℕ
  pub offsets : List ℕ

-- `sink` is the write_arg. The memory of the block is the buffer of the block writer while there is one, and
-- `block` while block_writer is NULL. The tree holds pointers: they are indexes of `obj_nodes`. A bare
-- uint64_t is a number, and `index_len` is the length of the index.
pub record Writer (W : Type 0) : Type 0 where
  pub sink : W
  pub pending_padding : ℕ
  pub last_key : List ℕ
  pub next : ℕ
  pub min_update_index : ℕ
  pub max_update_index : ℕ
  pub opts : WriteOptions
  pub block : List ℕ
  pub block_writer : Option BlockWriter
  pub index : List IndexRecord
  pub obj_index_tree : Tree ℕ
  pub obj_nodes : List ObjIndexTreeNode
  pub stats : Stats

abbrev pub default_block_size : ℕ
default_block_size = 4096

unfoldable pub options_set_defaults : WriteOptions → WriteOptions
options_set_defaults opts = record opts {
  restart_interval = if opts.restart_interval == 0 then 16 else opts.restart_interval;
  hash_id = if opts.hash_id == 0 then git_sha1_format_id else opts.hash_id;
  block_size = if opts.block_size == 0 then default_block_size else opts.block_size;
}

unfoldable pub writer_version : WriteOptions → ℕ
writer_version opts = if opts.hash_id == 0 || opts.hash_id == git_sha1_format_id then 1 else 2

-- A pointer that is NULL must not be followed.
abbrev pub deref : Option BlockWriter → Result BlockWriter
deref none = fault out_of_bounds
deref (some bw) = ok bw

abbrev no_block_stats : BlockStats
no_block_stats = record {
  entries = 0;
  restarts = 0;
  blocks = 0;
  index_blocks = 0;
  max_index_level = 0;
  offset = 0;
  index_offset = 0;
}

unfoldable pub writer_reftable_block_stats : Stats → ℕ → Result BlockStats
writer_reftable_block_stats stats typ =
    if typ == block_type_ref
    then ok stats.ref_stats
    else if typ == block_type_obj
    then ok stats.obj_stats
    else if typ == block_type_index
    then ok stats.idx_stats
    else if typ == block_type_log
    then ok stats.log_stats
    else fault aborted

-- A write through the pointer that writer_reftable_block_stats returns.
unfoldable pub set_block_stats : Stats → ℕ → BlockStats → Stats
set_block_stats stats typ bstats =
    if typ == block_type_ref
    then record stats { ref_stats = bstats }
    else if typ == block_type_obj
    then record stats { obj_stats = bstats }
    else if typ == block_type_index
    then record stats { idx_stats = bstats }
    else record stats { log_stats = bstats }

module _ {W : Type 0} where
  unfoldable pub writer_reinit_block_writer : Writer W → ℕ → Result (Writer W)
  writer_reinit_block_writer w typ = do
    block_start ← (if w.next == 0 then header_size (writer_version w.opts) else ok 0)
    size ← hash_size w.opts.hash_id
    let memory : List ℕ = elim w.block_writer [ none ↦ w.block | some bw ↦ bw.buf ]
    bw ← block_writer_init typ memory w.opts.block_size block_start size
    ok (record w {
      last_key = [];
      block_writer = some (record bw { restart_interval = w.opts.restart_interval });
    })

  unfoldable pub reftable_new_writer : W → WriteOptions → Result (Writer W)
  reftable_new_writer writer_arg given =
      let opts = options_set_defaults given in
      let wp : Writer W = record {
        sink = writer_arg;
        pending_padding = 0;
        last_key = [];
        next = 0;
        min_update_index = 0;
        max_update_index = 0;
        opts = opts;
        block = replicate opts.block_size 0;
        block_writer = none;
        index = [];
        obj_index_tree = leaf;
        obj_nodes = [];
        stats = record {
          blocks = 0;
          ref_stats = no_block_stats;
          obj_stats = no_block_stats;
          idx_stats = no_block_stats;
          log_stats = no_block_stats;
          object_id_len = 0;
        };
      } in
      if ltb opts.block_size (2 ^ 24)
      then writer_reinit_block_writer wp block_type_ref
      else fault aborted

  unfoldable pub reftable_writer_set_limits : Writer W → ℕ → ℕ → Writer W
  reftable_writer_set_limits w min max = record w { min_update_index = min; max_update_index = max }
