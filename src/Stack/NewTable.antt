-- ===== src/Stack/NewTable.antt =====
-- reftable_addition_add of c/stack.c: a new table of a transaction. The calls of the writer are modelled over a
-- buffer: the bytes that they write one after the other go to the temporary file at once, and those of a table
-- that fails do not get there.
use reftable.Base.{
  ℕ, List, [], ◌∷◌, ◌++◌, Bool, not, ltb, if◌then◌else◌, Option, none, some, Result, ok, err, fault,
  general, io_error, api_error, out_of_bounds, ◌>>=◌,
}
use reftable.Writer.{Writer, WriteOptions, options_set_defaults, reftable_new_writer}
use reftable.Writer.Close.{reftable_writer_close}
use reftable.Stack.Os.{Os, is_written, FilePath}
use reftable.Stack.Types.{Stack, World, stack_filename}
use reftable.Stack.Env.{Env}
use reftable.Stack.Text.{dot_ref, dot_temp, format_name}
use reftable.Stack.Check.{stack_check_addition}
use reftable.Stack.Addition.{Addition, close_open}

abbrev pub append_bytes : List ℕ → List ℕ → Result (List ℕ)
append_bytes file bytes = ok (file ++ bytes)

-- What the caller writes into the table, `write_table` with its `arg`.
abbrev pub WriteTable : Type 0
WriteTable = Writer (List ℕ) → Result (Writer (List ℕ))

-- The writer of a table after write_table and reftable_writer_close, and whether the table is empty.
unfoldable pub written_table :
    {S : Type 0} → Env S → WriteOptions → WriteTable → Result (Writer (List ℕ) × Bool)
written_table env config write_table = do
  wr ← reftable_new_writer [] config
  wr1 ← write_table wr
  reftable_writer_close append_bytes env.compress2 env.first_cap env.crc32 env.close_fuel wr1

-- reftable_new_writer sets the defaults in the options of the stack.
unfoldable pub set_defaults : {S : Type 0} → Stack S → Stack S
set_defaults st = record st { config = options_set_defaults st.config }

module _ (os : Os) {S : Type 0} (env : Env S) where
  -- The new name, for a table that stack_check_addition has accepted.
  unfoldable pub name_table :
      Result (Unit {0})
      → World os S
      → Addition
      → FilePath
      → Writer (List ℕ)
      → Result Addition × World os S
  name_table (fault cause) w add temp_name wr = (fault cause, w)
  name_table (err code) w add temp_name wr = (err code, w)
  name_table (ok checked) w add temp_name wr =
      let (rnd, s1) = os.rand w.files in
      let name = format_name wr.min_update_index wr.max_update_index rnd ++ dot_ref in
      let (renamed, s2) = os.rename s1 temp_name (stack_filename w.stack.reftable_dir name) in
      let w2 = record w { files = s2 } in
      if ltb wr.min_update_index add.next_update_index
      then (err api_error, w)
      else if renamed
      then (ok (record add { new_tables = add.new_tables ++ (name ∷ []) }), w2)
      else (err io_error, w2)

  -- From the close of the temporary file on: the new list of tables of the addition.
  unfoldable pub accept_table :
      World os S → Addition → FilePath → ℕ → Writer (List ℕ) → Result Addition × World os S
  unfolding name_table
  accept_table w add temp_name tab_fd wr =
      let (closed, s1) = os.close w.files tab_fd in
      let w1 = record w { files = s1 } in
      let checked =
        stack_check_addition env.next env.crc32 env.table_from_reader env.records_fuel
          env.merge_fuel w1.stack (os.read s1 temp_name) temp_name in
      if closed then name_table checked w1 add temp_name wr else (err io_error, w1)

  -- The table in the temporary file, of which `w` has the options with their defaults. A table that is empty is
  -- dropped, with the answer 0.
  unfoldable pub fill_table :
      Result (Writer (List ℕ) × Bool)
      → World os S
      → Addition
      → FilePath
      → ℕ
      → Result Addition × World os S
  unfolding accept_table
  fill_table (fault cause) w add temp_name tab_fd = (fault cause, w)
  fill_table (err code) w add temp_name tab_fd =
      (err code, record w { files = close_open os w.files tab_fd })
  fill_table (ok (wr, empty_table)) w add temp_name tab_fd =
      let (written, s1) = os.write w.files tab_fd wr.sink in
      let kept = record w { files = close_open os s1 tab_fd } in
      if not (is_written written)
      then (err general, kept)
      else if empty_table
      then (ok add, kept)
      else accept_table (record w { files = s1 }) add temp_name tab_fd wr

  -- At `done:` the temporary file is removed, whatever the answer; after the rename it is no longer there. Where
  -- mkstemp has failed, reftable_writer_free then reads through a NULL.
  unfoldable pub fill_made :
      Option (FilePath × ℕ)
      → FilePath
      → World os S
      → Addition
      → WriteTable
      → Result Addition × World os S
  unfolding fill_table
  fill_made none template w add write_table =
      (fault out_of_bounds, record w { files = (os.unlink w.files template).1 })
  fill_made (some (temp_name, tab_fd)) template w add write_table =
      let (answer, w1) =
        fill_table (written_table env w.stack.config write_table)
          (record w { stack = set_defaults w.stack }) add temp_name tab_fd in
      (answer, record w1 { files = (os.unlink w1.files temp_name).1 })

  -- The new value of the addition.
  unfoldable pub reftable_addition_add :
      World os S → Addition → WriteTable → Result Addition × World os S
  unfolding fill_made
  reftable_addition_add w add write_table =
      let (rnd, s1) = os.rand w.files in
      let template =
        stack_filename w.stack.reftable_dir
          (format_name add.next_update_index add.next_update_index rnd)
        ++ dot_temp in
      let (made, s2) = os.mkstemp s1 template in
      fill_made made template (record w { files = s2 }) add write_table
