-- ===== src/Stack/Types.antt =====
-- struct reftable_stack of c/stack.h, and how a table file of its directory is opened: the file block source
-- of c/blocksource.c, and reftable_new_reader of c/reader.c.
use reftable.Base.{
  ℕ, ◌+◌, ◌%◌, ◌≡◌, List, ◌∷◌, ◌++◌, Bool, false, Option, none, some, Result, ok, err, fault,
  aborted, general, not_exist_error, out_of_bounds, leb, if◌then◌else◌, length, take, drop, ◌>>=◌,
}
use reftable.Basics.Names.{Name}
use reftable.Record.View.{u64}
use reftable.Refname.Validate.{slash}
use reftable.Writer.{WriteOptions}
use reftable.Reader.{Reader, BlockSource, init_reader}
use reftable.Merged.Table.{MergedTable}
use reftable.Stack.UpToDate.{ListFile, missing, unreadable, holds}
use reftable.Stack.Os.{Os, FilePath}

-- A reader with the name and the block source that struct reftable_reader holds.
pub record OpenReader : Type 0 where
  pub name : Name
  pub source : BlockSource
  pub reader : Reader

pub record CompactionStats : Type 0 where
  pub bytes : ℕ
  pub entries_written : ℕ
  pub attempts : ℕ
  pub failures : ℕ

-- `readers_len` is the length of the readers. `has_freed` says that a reload that failed has freed a reader
-- to which `readers` still points, so that any use of the readers reads freed memory.
pub record Stack (S : Type 0) : Type 0 where
  pub list_file : FilePath
  pub reftable_dir : FilePath
  pub disable_auto_compact : Bool
  pub config : WriteOptions
  pub readers : List OpenReader
  pub has_freed : Bool
  pub merged : Option (MergedTable S)
  pub stats : CompactionStats

-- The state of the system, and the stack of the process.
pub record World (os : Os) (S : Type 0) : Type 0 where
  pub files : os.State
  pub stack : Stack S

unfoldable pub stack_filename : FilePath → Name → FilePath
stack_filename dir name = dir ++ (slash ∷ name)

-- The readers, for a function that uses them.
abbrev pub deref_readers : {S : Type 0} → Stack S → Result (List OpenReader)
deref_readers st = if st.has_freed then fault out_of_bounds else ok st.readers

-- `st->merged->stack_len`
abbrev pub merged_len : {S : Type 0} → Option (MergedTable S) → Result ℕ
merged_len none = fault out_of_bounds
merged_len (some mt) = ok (length mt.stack)

-- No reader has been freed, and all are in the merged table.
pub record IsLoaded {S : Type 0} (st : Stack S) : Type 0 where
  pub live : st.has_freed ≡ false
  pub merged : merged_len st.merged ≡ ok (length st.readers)

-- pread answers the bytes of the open file, which nobody writes any more, and -1 for an offset that is negative
-- as an off_t; the sum in the assertion wraps around.
unfoldable pub file_read_block : List ℕ → ℕ → ℕ → Result (List ℕ)
file_read_block bytes off size =
    if leb (off + size) (length bytes)
    then ok (take size (drop off bytes))
    else if leb ((off + size) % u64) (length bytes)
    then err general
    else fault aborted

unfoldable pub reftable_block_source_from_file : ListFile → Result BlockSource
reftable_block_source_from_file missing = err not_exist_error
reftable_block_source_from_file unreadable = err general
reftable_block_source_from_file (holds bytes) =
    ok (record { size = length bytes; read_block = file_read_block bytes })

-- crc32 is zlib's.
module _ (crc32 : ℕ → List ℕ → ℕ) where
  unfoldable pub reftable_new_reader : BlockSource → Name → Result OpenReader
  reftable_new_reader source name = do
    reader ← init_reader crc32 source
    ok (record { name = name; source = source; reader = reader })

  -- The two calls that open a table file.
  unfoldable pub open_table : ListFile → Name → Result OpenReader
  unfolding reftable_block_source_from_file reftable_new_reader
  open_table file name = do
    source ← reftable_block_source_from_file file
    reftable_new_reader source name

-- The next step of a function that cleans up nothing: a code or a fault of the first ends it.
abbrev pub and_then {ℓ} :
    {A B : Type 0} {W : Type ℓ} → Result A × W → (A → W → Result B × W) → Result B × W
and_then (ok a, w) next = next a w
and_then (err code, w) next = (err code, w)
and_then (fault cause, w) next = (fault cause, w)
