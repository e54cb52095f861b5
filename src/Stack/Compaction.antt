-- ===== src/Stack/Compaction.antt =====
-- stack_compact_range of c/stack.c and the functions that call it. The lock of the list of tables is given up
-- while the new table is written, so the function is modelled in the two parts before and after, between which
-- other processes may run.
use reftable.Base.{
  ℕ, ◌+◌, ◌-◌, ◌%◌, List, [], ◌∷◌, ◌++◌, Bool, true, false, not, ltb, ◌==◌, ◌||◌, ◌&&◌,
  if◌then◌else◌, Option, none, some, Result, ok, err, fault, general, io_error, empty_table_error,
  out_of_bounds, load, length, take, ◌>>=◌,
}
use reftable.Basics.Names.{Name, format_names}
use reftable.Record.View.{u64}
use reftable.Generic.{git_sha1_format_id}
use reftable.Block.Writer.{header_size}
use reftable.Stack.Os.{Os, FilePath, Opened, opened, exists, failed}
use reftable.Stack.Types.{
  OpenReader, Stack, World, stack_filename, deref_readers, merged_len, and_then,
}
use reftable.Stack.Env.{Env}
use reftable.Stack.Text.{dot_ref, format_name}
use reftable.Stack.Segments.{segment_size, suggest_compaction_segment}
use reftable.Stack.Reload.{uptodate}
use reftable.Stack.Retry.{reftable_stack_reload_maybe_reuse}
use reftable.Stack.Compact.{LogExpiryConfig, subtabs}
use reftable.Stack.Range.{compacted_names, stack_compact_locked}
use reftable.Stack.Locks.{
  Held, lock_tables, delete_others, paths_of, lock_file, end_with, install_list, place_table,
}

-- What the second part works with. `temp_name` is the new table, unless that is empty.
pub record Compacted : Type 0 where
  pub readers : List OpenReader
  pub subtable_locks : List FilePath
  pub temp_name : Option FilePath

unfoldable pub count_attempt : {S : Type 0} → Stack S → Stack S
count_attempt st = record st { stats = record st.stats { attempts = st.stats.attempts + 1 } }

-- The `for`: the sizes without the overhead.
unfoldable pub sizes_without : ℕ → List OpenReader → List ℕ
sizes_without overhead [] = []
sizes_without overhead (rd ∷ readers) =
    ((rd.reader.size + (u64 - overhead)) % u64) ∷ sizes_without overhead readers

unfoldable pub stack_table_sizes_for_compaction : {S : Type 0} → Stack S → Result (List ℕ)
unfolding sizes_without
stack_table_sizes_for_compaction st = do
  readers ← deref_readers st
  stack_len ← merged_len st.merged
  header ← header_size (if st.config.hash_id == git_sha1_format_id then 1 else 2)
  if ltb (length readers) stack_len
      then fault out_of_bounds
      else ok (sizes_without (header - 1) (take stack_len readers))

module _ (os : Os) {S : Type 0} (env : Env S) where
  -- With the locks of the tables in hand: the lock of the list is given up and the new table is written.
  -- `none` is the 1 of C.
  unfoldable pub write_unlocked :
      World os S
      → List FilePath
      → ℕ
      → ℕ
      → Option LogExpiryConfig
      → Result (Option Compacted) × World os S
  write_unlocked w locks first last expiry =
      let (removed, s1) = os.unlink w.files (lock_file w.stack) in
      let w1 = record w { files = s1 } in
      let held : Bool → Held =
        λ lock. record { subtable_locks = locks; have_lock = lock; lock_file_fd = 0 } in
      if not removed
      then end_with os (held true) (err general) w1
      else let (made, w2) = stack_compact_locked os env w1 first last expiry in
        let go_on : Option FilePath → Result (Option Compacted) × World os S = λ temp_name.
          and_then (deref_readers w2.stack, w2)
            (λ readers w2. (
              ok (
                  some
                    (record { readers = readers; subtable_locks = locks; temp_name = temp_name })),
              w2,
            )) in
        elim made [
          | fault cause ↦ (fault cause, w2)
          | ok name ↦ go_on (some name)
          | err empty_table_error ↦ go_on none
          | err code ↦ end_with os (held false) (err code) w2
        ]

  -- Up to the second time that the lock of the list is taken.
  unfoldable pub compact_begin :
      World os S → ℕ → ℕ → Option LogExpiryConfig → Result (Option Compacted) × World os S
  unfolding write_unlocked
  compact_begin w first last expiry =
      let (lock, s1) = os.open_excl w.files (lock_file w.stack) in
      let w1 : World os S = record { files = s1; stack = count_attempt w.stack } in
      elim lock [
        | exists ↦ (ok none, w1)
        | failed ↦ (err io_error, w1)
        | opened fd ↦
            let w2 = record w1 { files = (os.close s1 fd).1 } in
            let held : List FilePath → Held =
              λ locks. record { subtable_locks = locks; have_lock = true; lock_file_fd = 0 } in
            elim (uptodate os w2) [
              | fault cause ↦ (fault cause, w2)
              | err code ↦ end_with os (held []) (err code) w2
              | ok true ↦ end_with os (held []) (ok none) w2
              | ok false ↦
                  let (answer, (locks, s3)) =
                    lock_tables os w2.files w2.stack.reftable_dir
                      (subtabs w2.stack.readers first last) [] in
                  let w3 = record w2 { files = s3 } in
                  elim answer [
                    | fault cause ↦ (fault cause, w3)
                    | err code ↦ end_with os (held locks) (err code) w3
                    | ok true ↦ end_with os (held locks) (ok none) w3
                    | ok false ↦ write_unlocked w3 locks first last expiry
                  ]
            ]
      ]

  -- From the new list on, or from an error in its place: the reload and the removal of the old tables.
  unfoldable pub finish_installed :
      ℕ
      → ℕ
      → Compacted
      → FilePath
      → Result (Unit {0}) × (Held × World os S)
      → Result Bool × World os S
  finish_installed first last c new_table_path (fault cause, (held, w)) = (fault cause, w)
  finish_installed first last c new_table_path (err code, (held, w)) = end_with os held (err code) w
  finish_installed first last c new_table_path (ok done, (held, w)) =
      let (answer, w1) =
        reftable_stack_reload_maybe_reuse env.crc32 os env.table_from_reader env.rand_max
          env.reload_rounds w (ltb first last) in
      let old_tables = paths_of w1.stack.reftable_dir (subtabs c.readers first last) in
      end_with os held (do reloaded ← answer; ok false)
        (record w1 { files = delete_others os w1.files old_tables new_table_path })

  unfoldable pub new_name : Compacted → Name → Option Name
  new_name c name = elim c.temp_name [ none ↦ none | some temp ↦ some name ]

  -- With the lock of the list in hand, at the descriptor; the new name is that of the range.
  unfoldable pub finish_locked :
      World os S → ℕ → ℕ → Compacted → ℕ → Result (ℕ × ℕ) → Result Bool × World os S
  unfolding finish_installed
  finish_locked w first last c fd (fault cause) = (fault cause, w)
  finish_locked w first last c fd (err code) = (err code, w)
  finish_locked w first last c fd (ok (min, max)) =
      let held : Held = record {
        subtable_locks = c.subtable_locks;
        have_lock = true;
        lock_file_fd = fd;
      } in
      let (rnd, s1) = os.rand w.files in
      let name = format_name min max rnd ++ dot_ref in
      let path = stack_filename w.stack.reftable_dir name in
      let (placed, s2) = place_table os s1 c.temp_name path in
      let w2 = record w { files = s2 } in
      let text = format_names (compacted_names c.readers first last (new_name c name)) in
      if placed
      then finish_installed first last c path (install_list os w2 held path text)
      else end_with os held (err io_error) w2

  unfoldable pub range_limits : List OpenReader → ℕ → ℕ → Result (ℕ × ℕ)
  range_limits readers first last = do
    oldest ← load readers first
    newest ← load readers last
    ok (oldest.reader.min_update_index, newest.reader.max_update_index)

  unfoldable pub finish_opened : Opened → World os S → ℕ → ℕ → Compacted → Result Bool × World os S
  unfolding finish_locked range_limits
  finish_opened exists w first last c =
      end_with os
        (record { subtable_locks = c.subtable_locks; have_lock = false; lock_file_fd = 0 })
        (ok true) w
  finish_opened failed w first last c =
      end_with os
        (record { subtable_locks = c.subtable_locks; have_lock = false; lock_file_fd = 0 })
        (err io_error) w
  finish_opened (opened fd) w first last c =
      finish_locked w first last c fd (range_limits c.readers first last)

  -- From the second time on that the lock of the list is taken. `true` is the 1 of C.
  unfoldable pub compact_finish : World os S → ℕ → ℕ → Compacted → Result Bool × World os S
  unfolding finish_opened
  compact_finish w first last c =
      let (lock, s1) = os.open_excl w.files (lock_file w.stack) in
      finish_opened lock (record w { files = s1 }) first last c

  -- `true` is the 1 of C: the attempt failed and can be made again.
  unfoldable pub stack_compact_range :
      World os S → ℕ → ℕ → Option LogExpiryConfig → Result Bool × World os S
  unfolding compact_begin compact_finish
  stack_compact_range w first last expiry =
      let no_expiry : Bool = elim expiry [ none ↦ true | some config ↦ false ] in
      let compact : Result Bool × World os S =
        and_then (compact_begin w first last expiry) (λ begun w1. elim begun [
          | none ↦ (ok true, w1)
          | some c ↦ compact_finish w1 first last c
        ]) in
      if ltb last first || no_expiry && first == last then (ok false, w) else compact

  -- For an empty stack, `last` is -1 in C.
  unfoldable pub reftable_stack_compact_all :
      World os S → Option LogExpiryConfig → Result Bool × World os S
  reftable_stack_compact_all w config =
      and_then (merged_len w.stack.merged, w)
        (λ len w.
          let compact = stack_compact_range w 0 (len - 1) config in
          if len == 0 then (ok false, w) else compact)

  unfoldable pub stack_compact_range_stats :
      World os S → ℕ → ℕ → Option LogExpiryConfig → Result Bool × World os S
  stack_compact_range_stats w first last config =
      let (answer, w') = stack_compact_range w first last config in
      let st = w'.stack in
      let counted = record st { stats = record st.stats { failures = st.stats.failures + 1 } } in
      elim answer [
        | ok true ↦ (ok true, record w' { stack = counted })
        | ok false ↦ (ok false, w')
        | err code ↦ (err code, w')
        | fault cause ↦ (fault cause, w')
      ]

  unfoldable pub reftable_stack_auto_compact : World os S → Result Bool × World os S
  unfolding stack_table_sizes_for_compaction stack_compact_range_stats
  reftable_stack_auto_compact w =
      and_then (stack_table_sizes_for_compaction w.stack, w)
        (λ sizes w.
          let seg = suggest_compaction_segment sizes in
          let compact = stack_compact_range_stats w seg.start (seg.end - 1) none in
          if ltb 0 (segment_size seg) then compact else (ok false, w))
