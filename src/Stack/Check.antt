-- ===== src/Stack/Check.antt =====
-- stack_check_addition of c/stack.c: the refs of a new table against those of the stack.
use reftable.Base.{
  ℕ, zero, suc, List, [], ◌∷◌, if◌then◌else◌, Option, none, some, Result, ok, err, fault,
  out_of_fuel, out_of_bounds, ◌>>=◌,
}
use reftable.Basics.Names.{Name}
use reftable.Record.Types.{Record, RefRecord}
use reftable.Generic.{Table, wanted_ref, reftable_table_seek_ref, reftable_iterator_next_ref}
use reftable.Merged.{merged_iter_next_void}
use reftable.Merged.Table.{MergedTable, reftable_table_from_merged_table}
use reftable.Refname.Addition.{validate_ref_record_addition}
use reftable.Stack.UpToDate.{ListFile}
use reftable.Stack.Types.{OpenReader, Stack, deref_readers, open_table}

abbrev pub deref_merged : {S : Type 0} → Option (MergedTable S) → Result (MergedTable S)
deref_merged none = fault out_of_bounds
deref_merged (some mt) = ok mt

-- The reader that `done:` frees.
unfoldable pub opened_reader : Result OpenReader → Result OpenReader
opened_reader (ok rd) = ok rd
opened_reader (err code) = fault out_of_bounds
opened_reader (fault cause) = fault cause

module _ {S : Type 0} (next : S → Record → Result (Option (Record × S))) where
  -- The `while (1)`: each ref is read over a new record. `fuel` bounds the refs of the table.
  unfoldable pub refs_loop : ℕ → S → Result (List RefRecord)
  refs_loop zero it = fault out_of_fuel
  refs_loop (suc fuel) it = do
    step ← reftable_iterator_next_ref next it (wanted_ref [])
    elim step [ none ↦ ok [] | some (r, it') ↦ (do refs ← refs_loop fuel it'; ok (r ∷ refs)) ]

  module _ (crc32 : ℕ → List ℕ → ℕ) (table_from_reader : OpenReader → Table S) where
    -- `file` is the new table, at `new_tab_name`. Where it cannot be opened, reftable_reader_free reads through a
    -- NULL at `done:`. A seek that finds nothing is the 1 of C. The fuels are those of
    -- the merged iterator and of the loop.
    unfoldable pub stack_check_addition : ℕ → ℕ → Stack S → ListFile → Name → Result (Unit {0})
    unfolding refs_loop opened_reader
    stack_check_addition fuel merge_fuel st file new_tab_name =
        let check : Result (Unit {0}) = do
          rd ← opened_reader (open_table crc32 file new_tab_name)
          it ← reftable_table_seek_ref (table_from_reader rd) []
          elim it [
            | none ↦ ok tt
            | some s ↦ (do
              refs ← refs_loop fuel s
              merged ← deref_merged st.merged
              live ← deref_readers st
              validate_ref_record_addition (merged_iter_next_void next merge_fuel)
                  (reftable_table_from_merged_table next merged) refs)
          ]
        in if st.config.skip_name_check then ok tt else check
