-- ===== src/Stack/Addition.antt =====
-- struct reftable_addition of c/stack.c and its functions: a transaction on the stack, which holds the lock
-- file of the list of tables. The calls of the writer are modelled over a buffer: the bytes that they write one
-- after the other go to the temporary file at once, and those of a table that fails do not get there.
use reftable.Base.{
  ℕ, ◌+◌, ◌-◌, ◌%◌, List, [], ◌∷◌, ◌++◌, Bool, true, false, not, ltb, if◌then◌else◌, Option, none,
  some, Result, ok, err, fault, io_error, lock_error, out_of_bounds, length, take, load, ◌>>=◌,
}
use reftable.Basics.Names.{Name, format_names}
use reftable.Record.View.{u64}
use reftable.Generic.{Table}
use reftable.Stack.Os.{Os, is_written, FilePath, Opened, opened, exists, failed}
use reftable.Stack.Types.{OpenReader, Stack, World, stack_filename, deref_readers, merged_len}
use reftable.Stack.Reload.{names_of, uptodate}
use reftable.Stack.Retry.{reftable_stack_reload}
use reftable.Stack.Text.{dot_lock}

-- The stack is that of the world. A descriptor that is not open is 0; C has -1 after an open that fails, which
-- no function tells apart from 0.
pub record Addition : Type 0 where
  pub lock_file_fd : ℕ
  pub lock_file_name : FilePath
  pub new_tables : List Name
  pub next_update_index : ℕ

-- REFTABLE_ADDITION_INIT
abbrev pub addition_init : Addition
addition_init = record {
  lock_file_fd = 0;
  lock_file_name = [];
  new_tables = [];
  next_update_index = 0;
}

abbrev pub is_empty : List ℕ → Bool
is_empty [] = true
is_empty (c ∷ cs) = false

abbrev append_bytes : List ℕ → List ℕ → Result (List ℕ)
append_bytes file bytes = ok (file ++ bytes)

-- The new value of `add` with the world, for the functions that change it.
module _ {S : Type 0} where
  unfoldable pub reftable_stack_next_update_index : Stack S → Result ℕ
  reftable_stack_next_update_index st = do
    sz ← merged_len st.merged
    if ltb 0 sz
        then (do
          readers ← deref_readers st
          last ← load readers (sz - 1)
          ok ((last.reader.max_update_index + 1) % u64))
        else ok 1

module _ (os : Os) where
  -- The `for`, which removes the new tables.
  unfoldable pub unlink_tables : os.State → FilePath → List Name → os.State
  unlink_tables s dir [] = s
  unlink_tables s dir (name ∷ names) =
      unlink_tables (os.unlink s (stack_filename dir name)).1 dir names

  unfoldable pub close_open : os.State → ℕ → os.State
  close_open s fd = if ltb 0 fd then (os.close s fd).1 else s

  unfoldable pub unlink_named : os.State → FilePath → os.State
  unlink_named s name = if is_empty name then s else (os.unlink s name).1

  unfoldable pub reftable_addition_close :
      {S : Type 0} → Addition → World os S → Addition × World os S
  unfolding unlink_tables close_open unlink_named
  reftable_addition_close add w = (
    record add { lock_file_fd = 0; lock_file_name = []; new_tables = [] },
    record w {
      files =
          unlink_named
            (close_open (unlink_tables w.files w.stack.reftable_dir add.new_tables)
              add.lock_file_fd)
            add.lock_file_name;
    },
  )

  unfoldable pub reftable_addition_destroy :
      {S : Type 0} → World os S → Option Addition → World os S
  reftable_addition_destroy w none = w
  reftable_addition_destroy w (some add) = (reftable_addition_close add w).1

  module _ (crc32 : ℕ → List ℕ → ℕ) {S : Type 0} (table_from_reader : OpenReader → Table S)
      (rand_max rounds : ℕ) where
    abbrev lock_path : World os S → FilePath
    lock_path w = w.stack.list_file ++ dot_lock

    -- With the lock in hand: the answers of stack_uptodate and, where it is 0 or 1, of
    -- reftable_stack_next_update_index.
    unfoldable pub init_held :
        Result Bool → Result ℕ → Addition → World os S → Result Bool × (Addition × World os S)
    init_held (fault cause) next add w = (fault cause, (add, w))
    init_held (err code) next add w = (err code, reftable_addition_close add w)
    init_held (ok is_changed) (fault cause) add w = (fault cause, (add, w))
    init_held (ok is_changed) (err code) add w = (err code, reftable_addition_close add w)
    init_held (ok true) (ok next) add w =
        (ok true, reftable_addition_close (record add { next_update_index = next }) w)
    init_held (ok false) (ok next) add w = (ok false, (record add { next_update_index = next }, w))

    unfoldable pub init_opened :
        Opened → Addition → World os S → Result Bool × (Addition × World os S)
    unfolding init_held
    init_opened exists add w = (err lock_error, reftable_addition_close add w)
    init_opened failed add w = (err io_error, reftable_addition_close add w)
    init_opened (opened fd) add w =
        init_held (uptodate os w) (reftable_stack_next_update_index w.stack)
          (record add { lock_file_fd = fd }) w

    -- The answer is 0, 1 (`true`) or an error; in the last two cases the addition is closed.
    unfoldable pub reftable_stack_init_addition :
        World os S → Addition → Result Bool × (Addition × World os S)
    unfolding init_opened
    reftable_stack_init_addition w add =
        let (lock, s1) = os.open_excl w.files (lock_path w) in
        init_opened lock (record add { lock_file_name = lock_path w; lock_file_fd = 0 })
          (record w { files = s1 })

    -- `dest` and the answer: an addition is given to the caller only with the answer 0.
    unfoldable pub give_addition :
        Result Bool × (Addition × World os S) → Option Addition × (Result Bool × World os S)
    give_addition (ok false, (add, w)) = (some add, (ok false, w))
    give_addition (ok true, (add, w)) = (none, (ok true, w))
    give_addition (err code, (add, w)) = (none, (err code, w))
    give_addition (fault cause, (add, w)) = (none, (fault cause, w))

    unfoldable pub reftable_stack_new_addition :
        World os S → Option Addition × (Result Bool × World os S)
    unfolding reftable_stack_init_addition give_addition
    reftable_stack_new_addition w = give_addition (reftable_stack_init_addition w addition_init)

    -- The new list of tables.
    unfoldable pub commit_text : World os S → Addition → Result (List ℕ)
    commit_text w add = do
      readers ← deref_readers w.stack
      stack_len ← merged_len w.stack.merged
      if ltb (length readers) stack_len
          then fault out_of_bounds
          else ok (format_names (names_of (take stack_len readers)) ++ format_names add.new_tables)

    -- From the write to the lock file on to `done:`.
    unfoldable pub commit_steps :
        World os S → Addition → List ℕ → Result (Unit {0}) × (Addition × World os S)
    commit_steps w add table_list =
        let (written, s1) = os.write w.files add.lock_file_fd table_list in
        if not (is_written written)
        then (err io_error, (add, record w { files = s1 }))
        else let (closed, s2) = os.close s1 add.lock_file_fd in
          let add2 = record add { lock_file_fd = 0 } in
          if not closed
          then (err io_error, (add2, record w { files = s2 }))
          else let (renamed, s3) = os.rename s2 add.lock_file_name w.stack.list_file in
            let w3 = record w { files = s3 } in
            if not renamed
            then (err io_error, (add2, w3))
            else let add3 = record add2 { lock_file_name = []; new_tables = [] } in
              let (answer, w4) =
                reftable_stack_reload crc32 os table_from_reader rand_max rounds w3 in
              (answer, (add3, w4))

    -- The new tables and the new list of tables.
    unfoldable pub commit_list :
        World os S → Addition → Result (List ℕ) → Result (Unit {0}) × (Addition × World os S)
    unfolding commit_steps
    commit_list w add (fault cause) = (fault cause, (add, w))
    commit_list w add (err code) = (err code, reftable_addition_close add w)
    commit_list w add (ok table_list) =
        let (answer, (add', w')) = commit_steps w add table_list in
        (answer, reftable_addition_close add' w')

    unfoldable pub reftable_addition_commit :
        World os S → Addition → Result (Unit {0}) × (Addition × World os S)
    unfolding commit_text commit_list
    reftable_addition_commit w add = elim add.new_tables [
      | [] ↦ (ok tt, reftable_addition_close add w)
      | name ∷ names ↦ commit_list w add (commit_text w add)
    ]
