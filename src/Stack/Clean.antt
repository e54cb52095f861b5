-- ===== src/Stack/Clean.antt =====
-- remove_maybe_stale_table, reftable_stack_clean_locked and reftable_stack_clean of c/stack.c: tables that an
-- interrupted process has left behind.
use reftable.Base.{
  ℕ, true, false, not, leb, List, [], ◌∷◌, if◌then◌else◌, ◌||◌, none, some, Result, ok, err, fault,
  io_error, ◌>>=◌,
}
use reftable.Basics.Names.{Name, has_name}
use reftable.Stack.Os.{Os, FilePath}
use reftable.Stack.Types.{World, stack_filename, deref_readers, open_table, and_then}
use reftable.Stack.Env.{Env}
use reftable.Stack.Text.{is_table_name}
use reftable.Stack.Check.{deref_merged}
use reftable.Stack.Reload.{names_of}
use reftable.Stack.Retry.{reftable_stack_reload}
use reftable.Stack.Addition.{reftable_stack_new_addition, reftable_addition_destroy}

module _ (os : Os) (crc32 : ℕ → List ℕ → ℕ) where
  -- A table that cannot be opened stays.
  unfoldable pub remove_maybe_stale_table : os.State → FilePath → ℕ → Name → Result os.State
  remove_maybe_stale_table s dir max name =
      let table_path = stack_filename dir name in
      elim (open_table crc32 (os.read s table_path) name) [
        | fault cause ↦ fault cause
        | err code ↦ ok s
        | ok rd ↦ ok (if leb rd.reader.max_update_index max then (os.unlink s table_path).1 else s)
      ]

  -- The `while` over the directory.
  unfoldable pub clean_loop : os.State → FilePath → ℕ → List Name → List Name → Result os.State
  unfolding remove_maybe_stale_table
  clean_loop s dir max listed [] = ok s
  clean_loop s dir max listed (name ∷ names) =
      elim (not (is_table_name name) || has_name listed name) [
        | true ↦ clean_loop s dir max listed names
        | false ↦ (do
          s' ← remove_maybe_stale_table s dir max name
          clean_loop s' dir max listed names)
      ]

module _ (os : Os) {S : Type 0} (env : Env S) where
  unfoldable pub reftable_stack_clean_locked : World os S → Result (Unit {0}) × World os S
  unfolding clean_loop
  reftable_stack_clean_locked w =
      let dir = w.stack.reftable_dir in
      let clean : List Name → Result os.State = λ names. do
        merged ← deref_merged w.stack.merged
        readers ← deref_readers w.stack
        clean_loop os env.crc32 w.files dir merged.max (names_of readers) names
      in elim (os.read_dir w.files dir) [
        | none ↦ (err io_error, w)
        | some names ↦ and_then (clean names, w) (λ s w. (ok tt, record w { files = s }))
      ]

  -- The addition takes the lock. With the answer 1, which is not an error, there is no addition, and the
  -- function goes on without the lock.
  unfoldable pub reftable_stack_clean : World os S → Result (Unit {0}) × World os S
  unfolding reftable_stack_clean_locked
  reftable_stack_clean w =
      let (add, (begun, w1)) =
        reftable_stack_new_addition os env.crc32 env.table_from_reader env.rand_max
          env.reload_rounds w in
      let (answer, w2) =
        and_then (begun, w1)
          (λ is_changed w1.
            and_then
              (reftable_stack_reload env.crc32 os env.table_from_reader env.rand_max
                env.reload_rounds w1)
              (λ reloaded w2. reftable_stack_clean_locked w2)) in
      (answer, reftable_addition_destroy os w2 add)
