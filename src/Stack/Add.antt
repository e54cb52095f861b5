-- ===== src/Stack/Add.antt =====
-- stack_try_add, reftable_stack_add, reftable_stack_read_ref and reftable_stack_read_log of c/stack.c.
use reftable.Base.{
  Bool, true, false, not, if◌then◌else◌, ◌||◌, Option, none, some, Result, ok, err, fault,
  lock_error, ◌>>=◌,
}
use reftable.Basics.Bytes.{strcmp, is_eq}
use reftable.Basics.Names.{Name}
use reftable.Record.Types.{Record, RefRecord, LogRecord, log}
use reftable.Record.Any.{record_is_deletion}
use reftable.Generic.{reftable_table_read_ref, reftable_iterator_next_log}
use reftable.Merged.{MergedIter, merged_iter_next_void}
use reftable.Merged.Table.{reftable_table_from_merged_table, reftable_merged_table_seek_log}
use reftable.Stack.Os.{Os}
use reftable.Stack.Types.{Stack, World, deref_readers}
use reftable.Stack.Env.{Env}
use reftable.Stack.Check.{deref_merged}
use reftable.Stack.Retry.{reftable_stack_reload}
use reftable.Stack.Addition.{
  Addition, addition_init, reftable_addition_close, reftable_stack_init_addition,
  reftable_addition_commit,
}
use reftable.Stack.NewTable.{WriteTable, reftable_addition_add}
use reftable.Stack.Compaction.{reftable_stack_auto_compact}

module _ (os : Os) {S : Type 0} (env : Env S) where
  -- From the addition of the table on, for an addition that holds the lock.
  unfoldable pub commit_added :
      Addition → Result Addition × World os S → Result (Unit {0}) × World os S
  commit_added add (fault cause, w) = (fault cause, w)
  commit_added add (err code, w) = (err code, (reftable_addition_close os add w).1)
  commit_added add (ok add1, w) =
      let (answer, (add2, w2)) =
        reftable_addition_commit os env.crc32 env.table_from_reader env.rand_max env.reload_rounds w
          add1 in
      (answer, (reftable_addition_close os add2 w2).1)

  unfoldable pub add_begun :
      WriteTable → Result Bool × (Addition × World os S) → Result (Unit {0}) × World os S
  unfolding commit_added
  add_begun write_table (fault cause, (add, w)) = (fault cause, w)
  add_begun write_table (err code, (add, w)) = (err code, (reftable_addition_close os add w).1)
  add_begun write_table (ok true, (add, w)) = (err lock_error, (reftable_addition_close os add w).1)
  add_begun write_table (ok false, (add, w)) =
      commit_added add (reftable_addition_add os env w add write_table)

  unfoldable pub stack_try_add : World os S → WriteTable → Result (Unit {0}) × World os S
  unfolding add_begun
  stack_try_add w write_table = add_begun write_table (
      reftable_stack_init_addition os env.crc32 env.table_from_reader env.rand_max env.reload_rounds
        w addition_init)

  -- The error of a reload after a lock that is taken is ignored. `true` is the 1 of a compaction.
  unfoldable pub reftable_stack_add : World os S → WriteTable → Result Bool × World os S
  unfolding stack_try_add
  reftable_stack_add w write_table =
      let (tried, w1) = stack_try_add w write_table in
      elim tried [
        | fault cause ↦ (fault cause, w1)
        | err lock_error ↦
            let (reloaded, w2) =
              reftable_stack_reload env.crc32 os env.table_from_reader env.rand_max
                env.reload_rounds w1 in
            elim reloaded [ fault cause ↦ (fault cause, w2) | _ ↦ (err lock_error, w2) ]
        | err code ↦ (err code, w1)
        | ok done ↦
            let compacted = reftable_stack_auto_compact os env w1 in
            if w1.stack.disable_auto_compact then (ok false, w1) else compacted
      ]

module _ {S : Type 0} (env : Env S) where
  abbrev next_merged : MergedIter S → Record → Result (Option (Record × MergedIter S))
  next_merged = merged_iter_next_void env.next env.merge_fuel

  unfoldable pub reftable_stack_read_ref : Stack S → Name → RefRecord → Result (Option RefRecord)
  reftable_stack_read_ref st refname r = do
    live ← deref_readers st
    merged ← deref_merged st.merged
    reftable_table_read_ref next_merged (reftable_table_from_merged_table env.next merged) refname r

  -- `none` is the 1 of C.
  unfoldable pub reftable_stack_read_log : Stack S → Name → LogRecord → Result (Option LogRecord)
  reftable_stack_read_log st refname l = do
    live ← deref_readers st
    merged ← deref_merged st.merged
    found ← reftable_merged_table_seek_log env.next merged refname
    elim found [
      | none ↦ ok none
      | some it ↦ (do
        step ← reftable_iterator_next_log next_merged it l
        elim step [
          | none ↦ ok none
          | some (read, it') ↦ ok (
              if not (is_eq (strcmp read.refname refname)) || record_is_deletion (log read)
              then none
              else some read)
        ])
    ]
