-- ===== src/Stack/Range.antt =====
-- stack_compact_locked and stack_compact_range of c/stack.c, and the functions that call the latter.
use reftable.Base.{
  ℕ, ◌+◌, List, [], ◌∷◌, ◌++◌, Bool, not, if◌then◌else◌, Option, none, some, Result, ok, err, fault,
  general, empty_table_error, load, take, drop, ◌>>=◌,
}
use reftable.Basics.Names.{Name}
use reftable.Writer.{reftable_new_writer}
use reftable.Writer.Close.{reftable_writer_close}
use reftable.Stack.Os.{Os, is_written, FilePath}
use reftable.Stack.Types.{OpenReader, Stack, World, stack_filename, deref_readers, and_then}
use reftable.Stack.Env.{Env}
use reftable.Stack.Text.{dot_temp, format_name}
use reftable.Stack.Reload.{names_of}
use reftable.Stack.Addition.{close_open}
use reftable.Stack.NewTable.{append_bytes, set_defaults}
use reftable.Stack.Compact.{LogExpiryConfig, stack_write_compact}

-- The lists that are written are those of the names before, the new table, and the names after.
unfoldable pub compacted_names : List OpenReader → ℕ → ℕ → Option Name → List Name
compacted_names readers first last new =
    names_of (take first readers)
    ++ (elim new [ none ↦ [] | some name ↦ name ∷ [] ] ++ names_of (drop (last + 1) readers))

module _ (os : Os) {S : Type 0} (env : Env S) where
  -- The bytes of the compacted table, how the calls of the writer end, and the stack with its statistics. For an
  -- empty table reftable_writer_close answers EMPTY_TABLE_ERROR.
  unfoldable pub compacted_table :
      Stack S → List OpenReader → ℕ → ℕ → Option LogExpiryConfig → Result (List ℕ × Bool) × Stack S
  compacted_table st readers first last config = elim (reftable_new_writer [] st.config) [
    | fault cause ↦ (fault cause, st)
    | err code ↦ (err code, st)
    | ok wr ↦
        let (answer, (wr1, st1)) =
          stack_write_compact env (set_defaults st) readers wr first last config in
        elim answer [
          | fault cause ↦ (fault cause, st1)
          | err code ↦ (err code, st1)
          | ok done ↦ (
            (do
              (wr2, empty_table) ←
                  reftable_writer_close append_bytes env.compress2 env.first_cap env.crc32
                    env.close_fuel wr1
              ok (wr2.sink, empty_table)),
            st1,
          )
        ]
  ]

  -- The name of the temporary table. mkstemp is not checked: where it fails, every write does. On an error,
  -- which an empty table is too, the table is removed.
  unfoldable pub stack_compact_locked :
      World os S → ℕ → ℕ → Option LogExpiryConfig → Result FilePath × World os S
  unfolding compacted_table
  stack_compact_locked w first last config =
      let named : Result (List OpenReader × (ℕ × ℕ)) = do
        readers ← deref_readers w.stack
        oldest ← load readers first
        newest ← load readers last
        ok (readers, (oldest.reader.min_update_index, newest.reader.max_update_index))
      in and_then (named, w)
        (λ (readers, (min, max)) w.
          let (rnd, s1) = os.rand w.files in
          let template =
            stack_filename w.stack.reftable_dir (format_name min max rnd) ++ dot_temp in
          let (made, s2) = os.mkstemp s1 template in
          let temp_name : FilePath = elim made [ none ↦ template | some (name, fd) ↦ name ] in
          let (built, st) = compacted_table w.stack readers first last config in
          let ended : os.State → World os S = λ s. record { files = s; stack = st } in
          let failed_at : os.State → World os S = λ s. ended (os.unlink s temp_name).1 in
          let close_temp : os.State → os.State =
            λ s. elim made [ none ↦ s | some (name, fd) ↦ close_open os s fd ] in
          elim built [
            | fault cause ↦ (fault cause, ended s2)
            | err code ↦ (err code, failed_at (close_temp s2))
            | ok (bytes, empty_table) ↦ elim made [
              | none ↦ (err general, failed_at s2)
              | some (name, fd) ↦
                  let (written, s3) = os.write s2 fd bytes in
                  if not (is_written written)
                  then (err general, failed_at (close_open os s3 fd))
                  else if empty_table
                  then (err empty_table_error, failed_at (close_open os s3 fd))
                  else let (closed, s4) = os.close s3 fd in
                    if closed then (ok name, ended s4) else (err general, failed_at s4)
            ]
          ])
