-- ===== src/Stack/Compact.antt =====
-- stack_write_compact and stack_compact_locked of c/stack.c: the records of some tables of the stack, merged
-- into one new table.
use reftable.Base.{
  ℕ, zero, suc, ◌+◌, ◌-◌, ◌%◌, List, [], ◌∷◌, Bool, true, false, ltb, ◌==◌, ◌||◌, ◌&&◌, Option,
  none, some, Result, ok, err, fault, out_of_fuel, load, take, drop, ◌>>=◌,
}
use reftable.Record.View.{u64}
use reftable.Record.Types.{Record, RefRecord, LogRecord, ref, log}
use reftable.Record.Any.{record_is_deletion}
use reftable.Generic.{
  wanted_ref, wanted_log, reftable_iterator_next_ref, reftable_iterator_next_log,
}
use reftable.Merged.{MergedIter, merged_iter_next_void}
use reftable.Merged.Table.{
  MergedTable, reftable_new_merged_table, reftable_merged_table_seek_ref,
  reftable_merged_table_seek_log,
}
use reftable.Writer.{Writer, reftable_writer_set_limits}
use reftable.Writer.Add.{reftable_writer_add_ref, reftable_writer_add_log}
use reftable.Stack.Types.{OpenReader, Stack}
use reftable.Stack.Env.{Env}
use reftable.Stack.Reload.{tables_of}
use reftable.Stack.NewTable.{append_bytes}

pub record LogExpiryConfig : Type 0 where
  pub time : ℕ
  pub min_update_index : ℕ

abbrev pub TableWriter : Type 0
TableWriter = Writer (List ℕ)

-- The two tests of a log record against the config.
unfoldable pub is_expired : Option LogExpiryConfig → LogRecord → Bool
is_expired none l = false
is_expired (some config) l =
    ltb 0 config.min_update_index && ltb l.update_index config.min_update_index
    || ltb 0 config.time && ltb l.update.time config.time

unfoldable pub sum_sizes : List OpenReader → ℕ
sum_sizes [] = 0
sum_sizes (rd ∷ readers) = (rd.reader.size + sum_sizes readers) % u64

-- The tables from `first` to `last`.
unfoldable pub subtabs : List OpenReader → ℕ → ℕ → List OpenReader
subtabs readers first last = take (last - first + 1) (drop first readers)

module _ {S : Type 0} (env : Env S) where
  abbrev next_merged : MergedIter S → Record → Result (Option (Record × MergedIter S))
  next_merged = merged_iter_next_void env.next env.merge_fuel

  -- The first `while (1)`: the writer, the number of entries, and how the loop ends. Of a call of the writer
  -- that fails nothing is kept.
  unfoldable pub compact_refs :
      ℕ → ℕ → MergedIter S → RefRecord → TableWriter → ℕ → Result (Unit {0}) × (TableWriter × ℕ)
  compact_refs zero first it r wr entries = (fault out_of_fuel, (wr, entries))
  compact_refs (suc fuel) first it r wr entries =
      elim (reftable_iterator_next_ref next_merged it r) [
        | fault cause ↦ (fault cause, (wr, entries))
        | err code ↦ (err code, (wr, entries))
        | ok none ↦ (ok tt, (wr, entries))
        | ok (some (read, it')) ↦ elim (first == 0 && record_is_deletion (ref read)) [
          | true ↦ compact_refs fuel first it' read wr entries
          | false ↦
              elim (reftable_writer_add_ref append_bytes env.compress2 env.first_cap wr read) [
                | fault cause ↦ (fault cause, (wr, entries))
                | err code ↦ (err code, (wr, entries))
                | ok wr' ↦ compact_refs fuel first it' read wr' (entries + 1)
              ]
        ]
      ]

  -- The second `while (1)`.
  unfoldable pub compact_logs :
      ℕ
      → ℕ
      → Option LogExpiryConfig
      → MergedIter S
      → LogRecord
      → TableWriter
      → ℕ
      → Result (Unit {0}) × (TableWriter × ℕ)
  compact_logs zero first config it r wr entries = (fault out_of_fuel, (wr, entries))
  compact_logs (suc fuel) first config it r wr entries =
      elim (reftable_iterator_next_log next_merged it r) [
        | fault cause ↦ (fault cause, (wr, entries))
        | err code ↦ (err code, (wr, entries))
        | ok none ↦ (ok tt, (wr, entries))
        | ok (some (read, it')) ↦
            elim ((first == 0 && record_is_deletion (log read)) || is_expired config read) [
              | true ↦ compact_logs fuel first config it' read wr entries
              | false ↦
                  elim (reftable_writer_add_log append_bytes env.compress2 env.first_cap
                    env.close_fuel wr read) [
                      | fault cause ↦ (fault cause, (wr, entries))
                      | err code ↦ (err code, (wr, entries))
                      | ok wr' ↦ compact_logs fuel first config it' read wr' (entries + 1)
                    ]
            ]
      ]

  -- The seek in the logs and the loop over its iterator. A merged table always gives an iterator.
  abbrev copied_logs :
      ℕ
      → Option LogExpiryConfig
      → MergedTable S
      → TableWriter
      → ℕ
      → Result (Unit {0}) × (TableWriter × ℕ)
  copied_logs first config mt wr entries = elim (reftable_merged_table_seek_log env.next mt []) [
    | fault cause ↦ (fault cause, (wr, entries))
    | err code ↦ (err code, (wr, entries))
    | ok none ↦ (ok tt, (wr, entries))
    | ok (some it) ↦ compact_logs env.records_fuel first config it (wanted_log [] 0) wr entries
  ]

  -- Both copies. The seek in the logs overwrites the error of the loop over the refs; a seek in the refs
  -- that fails ends the function.
  unfoldable pub copy_records :
      ℕ
      → Option LogExpiryConfig
      → MergedTable S
      → TableWriter
      → Result (Unit {0}) × (TableWriter × ℕ)
  unfolding compact_refs compact_logs
  copy_records first config mt wr = elim (reftable_merged_table_seek_ref env.next mt []) [
    | fault cause ↦ (fault cause, (wr, 0))
    | err code ↦ (err code, (wr, 0))
    | ok none ↦ copied_logs first config mt wr 0
    | ok (some it) ↦
        let (ended, (wr', entries)) = compact_refs env.records_fuel first it (wanted_ref []) wr 0 in
        elim ended [
          | fault cause ↦ (fault cause, (wr', entries))
          | err code ↦ copied_logs first config mt wr' entries
          | ok done ↦ copied_logs first config mt wr' entries
        ]
  ]

  -- How the call ends, the writer, and the stack with its new statistics.
  unfoldable pub stack_write_compact :
      Stack S
      → List OpenReader
      → TableWriter
      → ℕ
      → ℕ
      → Option LogExpiryConfig
      → Result (Unit {0}) × (TableWriter × Stack S)
  unfolding subtabs sum_sizes
  stack_write_compact st readers wr first last config =
      let tables = subtabs readers first last in
      let bytes = (st.stats.bytes + sum_sizes tables) % u64 in
      let limits : Result (ℕ × ℕ) = do
        oldest ← load readers first
        newest ← load readers last
        ok (oldest.reader.min_update_index, newest.reader.max_update_index)
      in elim limits [
        | fault cause ↦ (fault cause, (wr, st))
        | err code ↦ (err code, (wr, st))
        | ok (min, max) ↦
            let wr1 = reftable_writer_set_limits wr min max in
            let counted : ℕ → Stack S = λ entries. record st {
              stats = record st.stats {
                bytes = bytes;
                entries_written = (st.stats.entries_written + entries) % u64;
              };
            } in
            elim (reftable_new_merged_table (tables_of env.table_from_reader tables)
              st.config.hash_id) [
                | fault cause ↦ (fault cause, (wr1, st))
                | err code ↦ (err code, (wr1, counted 0))
                | ok mt ↦
                    let (answer, (wr2, entries)) = copy_records first config mt wr1 in
                    (answer, (wr2, counted entries))
              ]
      ]
