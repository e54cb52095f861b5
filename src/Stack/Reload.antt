-- ===== src/Stack/Reload.antt =====
-- How a stack of c/stack.c reads its list of tables again: reftable_stack_reload_once, tv_cmp and
-- reftable_stack_destroy.
use Prim.Native.Nat.{compare}
use Prim.Native.Nat.Ordering.{lt, eq, gt}
use reftable.Base.{
  ℕ, List, [], ◌∷◌, ◌++◌, Bool, true, false, not, ltb, ◌==◌, ◌||◌, if◌then◌else◌, Option, none,
  some, Result, ok, err, fault, length, take, ◌>>=◌,
}
use reftable.Basics.Bytes.{strcmp, is_eq}
use reftable.Basics.Names.{Name, has_name}
use reftable.Generic.{Table, git_sha1_format_id}
use reftable.Merged.Table.{MergedTable, reftable_new_merged_table}
use reftable.Writer.{WriteOptions}
use reftable.Stack.UpToDate.{read_lines, stack_uptodate}
use reftable.Stack.Os.{Os, FilePath}
use reftable.Stack.Types.{
  OpenReader, Stack, World, stack_filename, deref_readers, merged_len, open_table, and_then,
}

abbrev pub names_of : List OpenReader → List Name
names_of [] = []
names_of (rd ∷ readers) = rd.name ∷ names_of readers

-- The `for` over cur: the reader of the name, and cur without it.
unfoldable pub take_named :
    List (Option OpenReader) → Name → Option (OpenReader × List (Option OpenReader))
take_named [] name = none
take_named (none ∷ cur) name = elim (take_named cur name) [
  | none ↦ none
  | some (rd, cur') ↦ some (rd, none ∷ cur')
]
take_named (some c ∷ cur) name =
    let rest = take_named cur name in
    if is_eq (strcmp c.name name)
    then some (c, none ∷ cur)
    else elim rest [ none ↦ none | some (rd, cur') ↦ some (rd, some c ∷ cur') ]

unfoldable pub copy_readers : List OpenReader → List (Option OpenReader)
copy_readers [] = []
copy_readers (rd ∷ readers) = some rd ∷ copy_readers readers

-- Whether the loop has taken a reader out of cur.
unfoldable pub some_taken : List (Option OpenReader) → Bool
some_taken [] = false
some_taken (none ∷ cur) = true
some_taken (some rd ∷ cur) = some_taken cur

-- `tv_cmp(&now, &deadline) >= 0`: the seconds are compared first, and then the microseconds.
unfoldable pub is_past : ℕ × ℕ → ℕ × ℕ → Bool
is_past (sec, usec) (sec', usec') = elim (compare sec sec') [
  | lt ↦ false
  | gt ↦ true
  | eq ↦ not (ltb usec usec')
]

-- "/tables.list"
abbrev pub tables_list : FilePath
tables_list = b'/' ∷ b't' ∷ b'a' ∷ b'b' ∷ b'l' ∷ b'e' ∷ b's' ∷ b'.' ∷ b'l' ∷ b'i' ∷ b's' ∷ b't' ∷ []

unfoldable pub tables_of : {S : Type 0} → (OpenReader → Table S) → List OpenReader → List (Table S)
tables_of table_from_reader [] = []
tables_of table_from_reader (rd ∷ readers) =
    table_from_reader rd ∷ tables_of table_from_reader readers

-- The stack before it has read anything.
unfoldable pub fresh_stack : {S : Type 0} → FilePath → WriteOptions → Stack S
fresh_stack dir config = record {
  list_file = dir ++ tables_list;
  reftable_dir = dir;
  disable_auto_compact = false;
  config = (if config.hash_id == 0 then record config { hash_id = git_sha1_format_id } else config);
  readers = [];
  has_freed = false;
  merged = none;
  stats = record { bytes = 0; entries_written = 0; attempts = 0; failures = 0 };
}

module _ (os : Os) where
  -- The `for` that closes the readers that are left and removes their files.
  unfoldable pub remove_left : os.State → FilePath → List (Option OpenReader) → os.State
  remove_left s dir [] = s
  remove_left s dir (none ∷ cur) = remove_left s dir cur
  remove_left s dir (some rd ∷ cur) =
      remove_left (os.unlink s (stack_filename dir rd.name)).1 dir cur

  -- stack_uptodate on the list file of the stack.
  unfoldable pub uptodate : {S : Type 0} → World os S → Result Bool
  uptodate w = do
    names ← read_lines (os.read w.files w.stack.list_file)
    readers ← deref_readers w.stack
    stack_len ← merged_len w.stack.merged
    stack_uptodate (os.read w.files w.stack.list_file) (names_of readers) stack_len

  -- The `for` of reftable_stack_destroy: the file of a reader that is no longer listed is removed.
  unfoldable pub destroy_loop :
      os.State → FilePath → Option (List Name) → List OpenReader → os.State
  destroy_loop s dir names [] = s
  destroy_loop s dir names (rd ∷ readers) =
      let unlisted : Bool = elim names [
        | none ↦ false
        | some listed ↦ not (has_name listed rd.name)
      ] in
      let s' = if unlisted then (os.unlink s (stack_filename dir rd.name)).1 else s in
      destroy_loop s' dir names readers

  unfoldable pub reftable_stack_destroy : {S : Type 0} → World os S → Result os.State
  unfolding destroy_loop
  reftable_stack_destroy w =
      let destroy : Option (List Name) → Result os.State = λ names. do
        readers ← deref_readers w.stack
        ok (destroy_loop w.files w.stack.reftable_dir names readers)
      in elim (read_lines (os.read w.files w.stack.list_file)) [
        | ok names ↦ destroy (some names)
        | err code ↦ destroy none
        | fault cause ↦ fault cause
      ]

module _ (crc32 : ℕ → List ℕ → ℕ) (os : Os) where
  -- The body of the `while (*names)`: the reader of a name, and what is left of cur.
  unfoldable pub reader_for :
      os.State
      → FilePath
      → Bool
      → List (Option OpenReader)
      → Name
      → Result OpenReader × List (Option OpenReader)
  reader_for s dir reuse_open cur name = elim (if reuse_open then take_named cur name else none) [
    | some (rd, rest) ↦ (ok rd, rest)
    | none ↦ (open_table crc32 (os.read s (stack_filename dir name)) name, cur)
  ]

  unfoldable pub readers_loop :
      os.State
      → FilePath
      → Bool
      → List (Option OpenReader)
      → List Name
      → Result (List OpenReader) × List (Option OpenReader)
  unfolding reader_for
  readers_loop s dir reuse_open cur [] = (ok [], cur)
  readers_loop s dir reuse_open cur (name ∷ names) =
      and_then (reader_for s dir reuse_open cur name) (λ rd cur'.
        and_then (readers_loop s dir reuse_open cur' names)
          (λ readers left. (ok (rd ∷ readers), left)))

  module _ {S : Type 0} (table_from_reader : OpenReader → Table S) where
    unfoldable pub merge_readers :
        Stack S → Result (List OpenReader) → Result (List OpenReader × MergedTable S)
    unfolding tables_of
    merge_readers st read = do
      old ← deref_readers st
      readers ← read
      new_merged ← reftable_new_merged_table (tables_of table_from_reader readers) st.config.hash_id
      ok (readers, new_merged)

    -- The rest of the function, with what is left of cur. On an error all the new readers are freed, also those
    -- that were taken out of cur.
    unfoldable pub replace_readers :
        World os S
        → List (Option OpenReader)
        → Result (List OpenReader × MergedTable S)
        → Result (Unit {0}) × World os S
    unfolding remove_left some_taken
    replace_readers w left (fault cause) = (fault cause, w)
    replace_readers w left (err code) = (
      err code,
      record w { stack = record w.stack { has_freed = w.stack.has_freed || some_taken left } },
    )
    replace_readers w left (ok (readers, new_merged)) = (
      ok tt,
      record {
        files = remove_left os w.files w.stack.reftable_dir left;
        stack = record w.stack {
          readers = readers;
          merged = some (record new_merged { suppress_deletions = true });
        };
      },
    )

    unfoldable pub cur_len : Stack S → ℕ
    cur_len st = elim st.merged [ none ↦ 0 | some mt ↦ length mt.stack ]

    unfoldable pub reftable_stack_reload_once :
        World os S → List Name → Bool → Result (Unit {0}) × World os S
    unfolding readers_loop copy_readers merge_readers replace_readers cur_len
    reftable_stack_reload_once w names reuse_open =
        let cur = copy_readers (take (cur_len w.stack) w.stack.readers) in
        let (read, left) = readers_loop w.files w.stack.reftable_dir reuse_open cur names in
        replace_readers w left (merge_readers w.stack read)
