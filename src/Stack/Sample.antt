-- ===== src/Stack/Sample.antt =====
-- A directory in memory, with one table in its list of tables.
use reftable.Base.{
  ℕ, List, [], ◌∷◌, ◌++◌, Bool, true, false, ◌&&◌, if◌then◌else◌, Option, none, some, Result, ok,
}
use reftable.Basics.Bytes.{strcmp, is_eq}
use reftable.Basics.Names.{format_names}
use reftable.Record.Types.{Record}
use reftable.Generic.{Table, git_sha1_format_id}
use reftable.Block.Writer.{z_other}
use reftable.Writer.{WriteOptions}
use reftable.Reader.{Reader, ReaderOffsets, block_source_from_strbuf}
use reftable.Merged.Table.{MergedTable}
use reftable.Stack.UpToDate.{ListFile, missing, holds}
use reftable.Stack.Os.{FilePath}
use reftable.Stack.Types.{OpenReader, Stack, World}
use reftable.Stack.Env.{Env}
use reftable.Stack.Text.{dot_lock}
use reftable.Stack.Reload.{tables_list}
use reftable.Stack.Memory.{Memory, memory}

abbrev pub os_read : Memory → FilePath → ListFile
os_read = memory.read

abbrev pub dir : FilePath
dir = b'd' ∷ []

abbrev pub list_path : FilePath
list_path = dir ++ tables_list

abbrev pub lock_path : FilePath
lock_path = list_path ++ dot_lock

abbrev pub absent : ReaderOffsets
absent = record { is_present = false; offset = 0; index_offset = 0 }

abbrev pub reader_at : ℕ → Reader
reader_at update_index = record {
  size = 24;
  hash_id = git_sha1_format_id;
  block_size = 64;
  min_update_index = update_index;
  max_update_index = update_index;
  object_id_len = 0;
  version = 1;
  ref_offsets = absent;
  obj_offsets = absent;
  log_offsets = absent;
}

abbrev pub table_a : OpenReader
table_a = record { name = b'a' ∷ []; source = block_source_from_strbuf []; reader = reader_at 1 }

abbrev pub table_b : OpenReader
table_b = record { name = b'b' ∷ []; source = block_source_from_strbuf []; reader = reader_at 2 }

-- No table has a record.
abbrev pub next : Unit {0} → Record → Result (Option (Record × Unit {0}))
next it rec = ok none

abbrev pub table_from_reader : OpenReader → Table (Unit {0})
table_from_reader rd = record {
  seek_record = λ rec. ok (some tt);
  hash_id = rd.reader.hash_id;
  min_update_index = rd.reader.min_update_index;
  max_update_index = rd.reader.max_update_index;
}

abbrev pub crc32 : ℕ → List ℕ → ℕ
crc32 crc bytes = 0

abbrev pub env : Env (Unit {0})
env = record {
  crc32 = crc32;
  compress2 = λ cap src. z_other;
  first_cap = λ len. len;
  rand_max = 1;
  next = next;
  table_from_reader = table_from_reader;
  reload_rounds = 1;
  close_fuel = 1;
  records_fuel = 1;
  merge_fuel = 1;
}

abbrev pub merged : MergedTable (Unit {0})
merged = record {
  stack = table_from_reader table_a ∷ [];
  hash_id = git_sha1_format_id;
  suppress_deletions = true;
  min = 1;
  max = 1;
}

abbrev pub options : WriteOptions
options = record {
  unpadded = false;
  block_size = 64;
  skip_index_objects = false;
  restart_interval = 16;
  hash_id = git_sha1_format_id;
  skip_name_check = true;
  exact_log_message = false;
}

abbrev pub stack : Stack (Unit {0})
stack = record {
  list_file = list_path;
  reftable_dir = dir;
  disable_auto_compact = true;
  config = options;
  readers = table_a ∷ [];
  has_freed = false;
  merged = some merged;
  stats = record { bytes = 0; entries_written = 0; attempts = 0; failures = 0 };
}

abbrev pub path_eq : FilePath → FilePath → Bool
path_eq = λ p q. is_eq (strcmp p q)

-- The list holds the table; the lock is there, with a descriptor, if `locked` holds.
abbrev pub files : Bool → Memory
files locked = record {
  read = λ p.
      if path_eq p list_path
      then holds (format_names ((b'a' ∷ []) ∷ []))
      else if path_eq p lock_path && locked
      then holds []
      else missing;
  target = λ fd. lock_path;
  last = 1;
  directory = tables_list ∷ [];
}

abbrev pub world : Bool → World memory (Unit {0})
world locked = record { files = files locked; stack = stack }
