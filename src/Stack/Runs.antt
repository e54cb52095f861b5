-- ===== src/Stack/Runs.antt =====
-- The theorems on the directory of a stack, at a directory in memory with one or two tables.
use reftable.Base.{
  length, ◌≡◌, ◌≢◌, refl, sym, ◌∙◌, [], ◌∷◌, ◌++◌, Bool, true, false, if◌then◌else◌, none, some, ok,
  err, api_error, lock_error, replicate, arith,
}
use reftable.Basics.Bytes.{strcmp}
use reftable.Basics.Names.{IsTableName, format_names, has_name}
use reftable.Record.Types.{Record, RefRecord, RefValue, ref, obj, log, index}
use reftable.Record.Any.{record_type, block_type_ref, new_record, record_copy_from}
use reftable.Pq.{merged_iter_pqueue_is_empty, merged_iter_pqueue_remove}
use reftable.Merged.{
  MergedIter, merged_iter_next_void, merged_iter_next, next_loop, merged_iter_advance_subiter,
  merged_iter_advance_nonnull_subiter,
}
use reftable.Stack.Compact.{TableWriter, compact_refs}
use reftable.Stack.Kept.{kept, add_each, compact_refs-kept}
use reftable.Generic.{git_sha1_format_id}
use reftable.Writer.{BlockStats}
use reftable.Tree.Search.{leaf}
use reftable.Stack.UpToDate.{missing, holds, read_lines}
use reftable.Stack.Types.{World, IsLoaded, stack_filename}
use reftable.Stack.Text.{dot_ref, format_name, is_table_name}
use reftable.Stack.UpToDate.{stack_uptodate}
use reftable.Basics.Names.{parse_names}
use reftable.Stack.Addition.{
  reftable_stack_init_addition, reftable_stack_next_update_index, reftable_addition_close,
}
use reftable.Stack.NewTable.{reftable_addition_add, written_table}
use reftable.Writer.{
  reftable_new_writer, options_set_defaults, writer_reinit_block_writer, writer_version,
}
use reftable.Block.Writer.{header_size, block_writer_init}
use reftable.Block.Buffer.{write_at}
use reftable.Generic.{hash_size}
use reftable.Stack.Memory.{Memory, memory, lawful_memory, target-At}
use reftable.Stack.Addition.{Addition, reftable_stack_new_addition, reftable_addition_commit}
use reftable.Stack.Release.{reftable_stack_new_addition-steals}
use reftable.Stack.Commit.{IsHolding, sent, reftable_addition_commit-atomic}
use reftable.Stack.Clean.{reftable_stack_clean_locked}
use reftable.Stack.Spares.{reftable_stack_clean_locked-spares}
use reftable.Stack.Begin.{reftable_stack_new_addition-holds}
use reftable.Stack.Os.{exists, written_part}
use reftable.Stack.TryAdd.{stack_try_add-releases}
use reftable.Stack.Add.{stack_try_add}
use reftable.Stack.NewTable.{WriteTable}
use reftable.Stack.Reload.{uptodate, reftable_stack_reload_once}
use reftable.Stack.Compaction.{Compacted}
use reftable.Stack.Names.{format_name-IsTableName}
use reftable.Stack.Sample.{
  os_read, dir, list_path, lock_path, table_a, table_b, next, table_from_reader, crc32, env,
  options, stack, files, world,
}

reftable_stack_new_addition-steals_example :
    (s : Memory) × (reftable_stack_new_addition memory crc32 table_from_reader 1 1 (world true)
      ≡ (none, (err lock_error, record { files = s; stack = stack })))
    × (s.read lock_path ≡ missing)
unfolding strcmp
reftable_stack_new_addition-steals_example =
    reftable_stack_new_addition-steals memory lawful_memory crc32 table_from_reader 1 1 (world true)
      (λ e. cc)

-- A caller that writes nothing and fails.
abbrev fails : WriteTable
fails wr = err api_error

fails_to_add : (stack_try_add memory env (world false) fails).0 ≡ err api_error
unfolding stack_try_add reftable_stack_init_addition strcmp uptodate read_lines parse_names
    format_names stack_uptodate reftable_stack_next_update_index reftable_addition_add
    stack_filename format_name written_table reftable_new_writer options_set_defaults
    writer_reinit_block_writer header_size writer_version hash_size block_writer_init
    reftable_addition_close write_at
fails_to_add = refl

stack_try_add-releases_example :
    (os_read (stack_try_add memory env (world false) fails).1.files lock_path ≡ missing)
    × ((memory.open_excl (stack_try_add memory env (world false) fails).1.files lock_path).0
        ≢ exists)
stack_try_add-releases_example =
    stack_try_add-releases memory env lawful_memory (world false) fails
      (λ cause e. let t = sym fails_to_add ∙ e in cc)

abbrev begun : Addition
begun = record {
  lock_file_fd = 2;
  lock_file_name = lock_path;
  new_tables = [];
  next_update_index = 2;
}

abbrev locked : World memory (Unit {0})
locked = record { files = (memory.open_excl (files false) lock_path).1; stack = stack }

begins :
    reftable_stack_new_addition memory crc32 table_from_reader 1 1 (world false)
    ≡ (some begun, (ok false, locked))
unfolding reftable_stack_new_addition reftable_stack_init_addition strcmp uptodate read_lines
    parse_names format_names stack_uptodate reftable_stack_next_update_index
begins = refl

reftable_stack_new_addition-holds_example :
    IsHolding memory lawful_memory locked begun
    × (begun.new_tables ≡ [])
    × (uptodate memory locked ≡ ok false)
    × (reftable_stack_next_update_index locked.stack ≡ ok begun.next_update_index)
reftable_stack_new_addition-holds_example =
    reftable_stack_new_addition-holds memory lawful_memory crc32 table_from_reader 1 1 (world false)
      locked begun (ok false) begins

abbrev addition : Addition
addition = record {
  lock_file_fd = 1;
  lock_file_name = lock_path;
  new_tables = (b'b' ∷ []) ∷ [];
  next_update_index = 2;
}

stack-IsLoaded : IsLoaded stack
stack-IsLoaded = record { live = refl; merged = refl }

addition-IsHolding : IsHolding memory lawful_memory (world true) addition
unfolding strcmp
addition-IsHolding = record {
  name = refl;
  at = target-At (files true) 1 lock_path refl;
  fresh = refl;
}

a-NotList : list_path ≢ stack_filename dir (b'a' ∷ [])
unfolding stack_filename
a-NotList e = cc

b-NotList : list_path ≢ stack_filename dir (b'b' ∷ [])
unfolding stack_filename
b-NotList e = cc

reftable_addition_commit-atomic_example :
    (committed : Bool) × (os_read
        (reftable_addition_commit memory crc32 table_from_reader 1 1
          (world true)
          addition).1.1.files
        list_path
      ≡ (if committed
          then holds (
              written_part
                (sent memory (world true) addition)
                (format_names ((b'a' ∷ []) ∷ (b'b' ∷ []) ∷ [])))
          else os_read (files true) list_path))
    × ((reftable_addition_commit memory crc32 table_from_reader 1 1 (world true) addition).0 ≡ ok tt
        → committed ≡ true)
    × (sent memory (world true) addition
          ≡ some (length (format_names ((b'a' ∷ []) ∷ (b'b' ∷ []) ∷ [])))
        → read_lines (
            os_read
              (reftable_addition_commit memory crc32 table_from_reader 1 1
                (world true)
                addition).1.1.files
              list_path)
          ≡ (if committed
              then ok ((b'a' ∷ []) ∷ (b'b' ∷ []) ∷ [])
              else read_lines (os_read (files true) list_path)))
reftable_addition_commit-atomic_example =
    reftable_addition_commit-atomic memory lawful_memory crc32 table_from_reader 1 1 (world true)
      addition stack-IsLoaded addition-IsHolding (a-NotList, tt) (b-NotList, tt) (ground arith)
      (ground arith) (λ e. cc)

-- The stack has the table of the list already, so nothing is opened.
reloaded : World memory (Unit {0})
reloaded =
    (reftable_stack_reload_once crc32 memory table_from_reader (world false) ((b'a' ∷ []) ∷ [])
      true).1

format_name-IsTableName_example :
    IsTableName (format_name 1 2 3 ++ dot_ref)
    × (is_table_name (format_name 1 2 3 ++ dot_ref) ≡ true)
format_name-IsTableName_example = format_name-IsTableName 1 2 3

reftable_stack_clean_locked-spares_example :
    os_read
      (reftable_stack_clean_locked memory env (world true)).1.files
      (stack_filename dir (b'a' ∷ []))
    ≡ os_read (files true) (stack_filename dir (b'a' ∷ []))
unfolding has_name is_table_name strcmp
reftable_stack_clean_locked-spares_example =
    reftable_stack_clean_locked-spares memory lawful_memory env (world true) (b'a' ∷ []) refl

-- The two tables that the first part has read, while the list has only the first by now.
abbrev compacted : Compacted
compacted = record { readers = table_a ∷ table_b ∷ []; subtable_locks = []; temp_name = none }

-- A table with one ref, read through a merged table that has read the ref already.
abbrev gone : RefRecord
gone = record { refname = b'a' ∷ []; update_index = 1; value = RefValue.deletion }

abbrev one_ref : MergedIter (Unit {0})
one_ref = record {
  stack = some tt ∷ [];
  hash_id = git_sha1_format_id;
  typ = block_type_ref;
  suppress_deletions = false;
  pq = record { idx = 0; rec = ref gone } ∷ [];
}

abbrev none_left : MergedIter (Unit {0})
none_left = record one_ref { stack = none ∷ []; pq = [] }

gives_ref :
    (rec : Record)
    → record_type rec ≡ block_type_ref
    → merged_iter_next_void next 1 one_ref rec ≡ ok (some (ref gone, none_left))
unfolding record_type merged_iter_next_void merged_iter_pqueue_is_empty merged_iter_next next_loop
    merged_iter_pqueue_remove merged_iter_advance_subiter merged_iter_advance_nonnull_subiter
    new_record hash_size record_copy_from
gives_ref (ref r) e = refl
gives_ref (obj r) e = absurd (ground arith)
gives_ref (log r) e = absurd (ground arith)
gives_ref (index r) e = absurd (ground arith)

gives_none :
    (rec : Record)
    → record_type rec ≡ block_type_ref
    → merged_iter_next_void next 1 none_left rec ≡ ok none
unfolding merged_iter_next_void merged_iter_pqueue_is_empty
gives_none rec e = refl

abbrev no_stats : BlockStats
no_stats = record {
  entries = 0;
  restarts = 0;
  blocks = 0;
  index_blocks = 0;
  max_index_level = 0;
  offset = 0;
  index_offset = 0;
}

abbrev writer : TableWriter
writer = record {
  sink = [];
  pending_padding = 0;
  last_key = [];
  next = 0;
  min_update_index = 1;
  max_update_index = 2;
  opts = options;
  block = replicate 64 0;
  block_writer = none;
  index = [];
  obj_index_tree = leaf;
  obj_nodes = [];
  stats = record {
    blocks = 0;
    ref_stats = no_stats;
    obj_stats = no_stats;
    idx_stats = no_stats;
    log_stats = no_stats;
    object_id_len = 0;
  };
}

compact_refs-kept_example :
    compact_refs env 2 1 one_ref gone writer 0 ≡ add_each env (kept 1 (gone ∷ [])) writer 0
compact_refs-kept_example =
    compact_refs-kept env 2 1 one_ref gone writer 0 (gone ∷ []) (none_left, gives_ref, gives_none)
      (omega arith)
