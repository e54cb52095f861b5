-- ===== src/Stack/Locks.antt =====
-- The locks of stack_compact_range of c/stack.c: how it takes those of the tables, makes its lock of the list the
-- new list, and gives up what it holds.
use reftable.Base.{
  ℕ, List, [], ◌∷◌, ◌++◌, Bool, true, false, not, if◌then◌else◌, Option, none, some, Result, ok,
  err, io_error,
}
use reftable.Basics.Bytes.{strcmp, is_eq}
use reftable.Stack.Os.{Os, is_written, FilePath, opened, exists, failed}
use reftable.Stack.Types.{OpenReader, Stack, World, stack_filename}
use reftable.Stack.Text.{dot_lock}
use reftable.Stack.Addition.{close_open}

-- What the function has to clean up at `done:`: the locks of the tables, and whether it holds the lock of the
-- list, with the descriptor.
pub record Held : Type 0 where
  pub subtable_locks : List FilePath
  pub have_lock : Bool
  pub lock_file_fd : ℕ

unfoldable pub lock_file : {S : Type 0} → Stack S → FilePath
lock_file st = st.list_file ++ dot_lock

unfoldable pub paths_of : FilePath → List OpenReader → List FilePath
paths_of dir [] = []
paths_of dir (rd ∷ readers) = stack_filename dir rd.name ∷ paths_of dir readers

module _ (os : Os) where
  unfoldable pub unlink_all : os.State → List FilePath → os.State
  unlink_all s [] = s
  unlink_all s (path ∷ paths) = unlink_all (os.unlink s path).1 paths

  -- `done:`
  unfoldable pub release : FilePath → Held → os.State → os.State
  unfolding unlink_all
  release lock_file_name held s =
      let s1 = close_open os (unlink_all s held.subtable_locks) held.lock_file_fd in
      if held.have_lock then (os.unlink s1 lock_file_name).1 else s1

  -- The `for` that takes the locks of the tables: the answer is `true` for the 1 of C, and the locks are those
  -- that `done:` removes, the last one also where it could not be taken.
  unfoldable pub lock_tables :
      os.State
      → FilePath
      → List OpenReader
      → List FilePath
      → Result Bool × (List FilePath × os.State)
  lock_tables s dir [] locks = (ok false, (locks, s))
  lock_tables s dir (rd ∷ readers) locks =
      let name = stack_filename dir rd.name ++ dot_lock in
      let (lock, s1) = os.open_excl s name in
      elim lock [
        | exists ↦ (ok true, (locks ++ (name ∷ []), s1))
        | failed ↦ (err io_error, (locks ++ (name ∷ []), s1))
        | opened fd ↦ lock_tables (close_open os s1 fd) dir readers (locks ++ (name ∷ []))
      ]

  -- The `while (*listp)`: the old tables, but not the new one.
  unfoldable pub delete_others : os.State → List FilePath → FilePath → os.State
  delete_others s [] new_table_path = s
  delete_others s (path ∷ paths) new_table_path =
      let s' = if is_eq (strcmp path new_table_path) then s else (os.unlink s path).1 in
      delete_others s' paths new_table_path

  -- The rename of the new table, if it is not empty.
  unfoldable pub place_table : os.State → Option FilePath → FilePath → Bool × os.State
  place_table s none new_table_path = (true, s)
  place_table s (some temp_name) new_table_path = os.rename s temp_name new_table_path

  module _ {S : Type 0} where
    -- `done:` with the answer that the function gives.
    unfoldable pub end_with {ℓ} : {A : Type ℓ} → Held → A → World os S → A × World os S
    end_with held answer w = (answer, record w { files = release (lock_file w.stack) held w.files })

    -- The new list of tables and the lock that becomes the list. On an error the new table is removed.
    unfoldable pub install_list :
        World os S → Held → FilePath → List ℕ → Result (Unit {0}) × (Held × World os S)
    install_list w held new_table_path ref_list_contents =
        let gone : os.State → World os S =
          λ s. record w { files = (os.unlink s new_table_path).1 } in
        let (written, s1) = os.write w.files held.lock_file_fd ref_list_contents in
        if not (is_written written)
        then (err io_error, (held, gone s1))
        else let (closed, s2) = os.close s1 held.lock_file_fd in
          let held2 = record held { lock_file_fd = 0 } in
          if not closed
          then (err io_error, (held2, gone s2))
          else let (renamed, s3) = os.rename s2 (lock_file w.stack) w.stack.list_file in
            if renamed
            then (ok tt, (record held2 { have_lock = false }, record w { files = s3 }))
            else (err io_error, (held2, gone s3))
