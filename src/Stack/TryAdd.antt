-- ===== src/Stack/TryAdd.antt =====
-- stack_try_add of c/stack.c gives up the lock, however it ends.
use reftable.Base.{
  ℕ, ◌≡◌, ◌≢◌, refl, sym, ◌∙◌, ap, List, [], ◌++◌, Bool, true, false, ltb, Option, none, some,
  Result, ok, err, fault, ok-injective, Fault, Bool-cases, inl, inr, ◌⊎◌,
}
use reftable.Stack.UpToDate.{missing}
use reftable.Stack.Os.{Os, is_written, IsLawful, FilePath, Opened, opened, exists, failed}
use reftable.Stack.Types.{World, stack_filename}
use reftable.Stack.Env.{Env}
use reftable.Stack.Text.{dot_lock, dot_ref, format_name}
use reftable.Stack.Reload.{uptodate}
use reftable.Stack.Addition.{
  Addition, addition_init, reftable_addition_close, reftable_stack_next_update_index, init_held,
  init_opened, reftable_stack_init_addition,
}
use reftable.Stack.NewTable.{
  WriteTable, written_table, set_defaults, name_table, accept_table, fill_table, fill_made,
  reftable_addition_add,
}
use reftable.Stack.Release.{close-releases, init_addition-Releasable, commit-Releasable}
use reftable.Stack.Add.{commit_added, add_begun, stack_try_add}
use reftable.Writer.{Writer}

module _ (os : Os) {S : Type 0} (env : Env S) where
  -- The path of the list is as before, and so is the lock of the addition, if there is one.
  abbrev Kept : FilePath → FilePath → Result Addition × World os S → Type 0
  Kept list lock (r, w) =
      ((add : Addition) → r ≡ ok add → add.lock_file_name ≡ lock) × (w.stack.list_file ≡ list)

  name_table-Kept :
      (checked : Result (Unit {0})) (w : World os S) (add : Addition) (temp_name : FilePath)
      (wr : Writer (List ℕ))
      → Kept w.stack.list_file add.lock_file_name (name_table os env checked w add temp_name wr)
  unfolding name_table
  name_table-Kept (fault cause) w add temp_name wr = (λ a e. cc, refl)
  name_table-Kept (err code) w add temp_name wr = (λ a e. cc, refl)
  name_table-Kept (ok checked) w add temp_name wr =
      let (rnd, s1) = os.rand w.files in
      let name = format_name wr.min_update_index wr.max_update_index rnd ++ dot_ref in
      let renamed = (os.rename s1 temp_name (stack_filename w.stack.reftable_dir name)).0 in
      elim (Bool-cases (ltb wr.min_update_index add.next_update_index)) [
        | inl early ↦ rw early (λ a e. cc, refl)
        | inr late ↦ elim (Bool-cases renamed) [
          | inl moved ↦
              rw (late, moved) (λ a e. sym (ap (λ x. x.lock_file_name) (ok-injective e)), refl)
          | inr stuck ↦ rw (late, stuck) (λ a e. cc, refl)
        ]
      ]

  accept_table-Kept :
      (w : World os S) (add : Addition) (temp_name : FilePath) (tab_fd : ℕ) (wr : Writer (List ℕ))
      → Kept w.stack.list_file add.lock_file_name (accept_table os env w add temp_name tab_fd wr)
  unfolding accept_table
  accept_table-Kept w add temp_name tab_fd wr = elim (Bool-cases (os.close w.files tab_fd).0) [
    | inl shut ↦ rw shut (name_table-Kept _ _ add temp_name wr)
    | inr open' ↦ rw open' (λ a e. cc, refl)
  ]

  fill_table-Kept :
      (written : Result (Writer (List ℕ) × Bool)) (w : World os S) (add : Addition)
      (temp_name : FilePath) (tab_fd : ℕ)
      → Kept w.stack.list_file add.lock_file_name (fill_table os env written w add temp_name tab_fd)
  unfolding fill_table
  fill_table-Kept (fault cause) w add temp_name tab_fd = (λ a e. cc, refl)
  fill_table-Kept (err code) w add temp_name tab_fd = (λ a e. cc, refl)
  fill_table-Kept (ok (wr, empty_table)) w add temp_name tab_fd =
      elim (Bool-cases (is_written (os.write w.files tab_fd wr.sink).0)) [
        | inr refused ↦ rw refused (λ a e. cc, refl)
        | inl wrote ↦ elim (Bool-cases empty_table) [
          | inl blank ↦
              rw (wrote, blank) (λ a e. sym (ap (λ x. x.lock_file_name) (ok-injective e)), refl)
          | inr full ↦ rw (wrote, full) (accept_table-Kept _ add temp_name tab_fd wr)
        ]
      ]

  fill_made-Kept :
      (made : Option (FilePath × ℕ)) (template : FilePath) (w : World os S) (add : Addition)
      (write_table : WriteTable)
      → Kept w.stack.list_file add.lock_file_name (fill_made os env made template w add write_table)
  unfolding fill_made set_defaults
  fill_made-Kept none template w add write_table = (λ a e. cc, refl)
  fill_made-Kept (some (temp_name, tab_fd)) template w add write_table =
      fill_table-Kept (written_table env w.stack.config write_table) _ add temp_name tab_fd

  addition_add-Kept :
      (w : World os S) (add : Addition) (write_table : WriteTable)
      → Kept w.stack.list_file add.lock_file_name (reftable_addition_add os env w add write_table)
  unfolding reftable_addition_add
  addition_add-Kept w add write_table = fill_made-Kept _ _ _ add write_table

  -- The addition with which the caller goes on holds the lock.
  abbrev Holding : FilePath → FilePath → Result Bool × (Addition × World os S) → Type 0
  Holding list lock (r, (add, w)) =
      (r ≡ ok false → add.lock_file_name ≡ lock) × (w.stack.list_file ≡ list)

  module _ (law : IsLawful os) where
    init_held-Holding :
        (answer : Result Bool) (next : Result ℕ) (add : Addition) (w : World os S)
        → Holding w.stack.list_file add.lock_file_name (
            init_held os env.crc32 env.table_from_reader env.rand_max env.reload_rounds answer next
              add w)
    unfolding init_held reftable_addition_close
    init_held-Holding (fault cause) next add w = (λ e. cc, refl)
    init_held-Holding (err code) next add w = (λ e. cc, refl)
    init_held-Holding (ok is_changed) (fault cause) add w = (λ e. cc, refl)
    init_held-Holding (ok is_changed) (err code) add w = (λ e. cc, refl)
    init_held-Holding (ok true) (ok next) add w =
        (λ e. absurd (let t : true ≡ false = ok-injective e in cc), refl)
    init_held-Holding (ok false) (ok next) add w = (λ e. refl, refl)

    init_opened-Holding :
        (lock : Opened) (add : Addition) (w : World os S)
        → Holding w.stack.list_file add.lock_file_name (
            init_opened os env.crc32 env.table_from_reader env.rand_max env.reload_rounds lock add
              w)
    unfolding init_opened reftable_addition_close
    init_opened-Holding exists add w = (λ e. cc, refl)
    init_opened-Holding failed add w = (λ e. cc, refl)
    init_opened-Holding (opened fd) add w =
        init_held-Holding (uptodate os w) (reftable_stack_next_update_index w.stack) _ w

    init_addition-Holding :
        (w : World os S) (add : Addition)
        → Holding w.stack.list_file (w.stack.list_file ++ dot_lock) (
            reftable_stack_init_addition os env.crc32 env.table_from_reader env.rand_max
              env.reload_rounds w add)
    unfolding reftable_stack_init_addition
    init_addition-Holding w add = init_opened-Holding _ _ _

    -- The lock of the list at `list` is not there at the end, unless the program has died.
    abbrev Released : FilePath → Result (Unit {0}) × World os S → Type 0
    Released list (r, w) =
        ((cause : Fault) → r ≢ fault cause) → os.read w.files (list ++ dot_lock) ≡ missing

    commit_added-Released :
        (list : FilePath) (add : Addition) (added : Result Addition × World os S)
        → add.lock_file_name ≡ list ++ dot_lock
        → Kept list (list ++ dot_lock) added
        → Released list (commit_added os env add added)
    unfolding commit_added
    commit_added-Released list add (fault cause, w) h (names, path) alive =
        absurd (alive cause refl)
    commit_added-Released list add (err code, w) h (names, path) alive =
        close-releases os law list add w (inl h)
    commit_added-Released list add (ok add1, w) h (names, path) alive =
        let left =
          commit-Releasable os law env.crc32 env.table_from_reader env.rand_max env.reload_rounds w
            add1 (names add1 refl ∙ ap (λ l. l ++ dot_lock) (sym path)) in
        close-releases os law list _ _ (rw (sym path) left)

    add_begun-Released :
        (list : FilePath) (write_table : WriteTable) (begun : Result Bool × (Addition × World os S))
        → ((begun.1.0.lock_file_name ≡ list ++ dot_lock)
            ⊎ ((begun.1.0.lock_file_name ≡ [])
                × (os.read begun.1.1.files (list ++ dot_lock) ≡ missing)))
        → Holding list (list ++ dot_lock) begun
        → Released list (add_begun os env write_table begun)
    unfolding add_begun
    add_begun-Released list write_table (fault cause, (add, w)) h (lock, path) alive =
        absurd (alive cause refl)
    add_begun-Released list write_table (err code, (add, w)) h (lock, path) alive =
        close-releases os law list add w h
    add_begun-Released list write_table (ok true, (add, w)) h (lock, path) alive =
        close-releases os law list add w h
    add_begun-Released list write_table (ok false, (add, w)) h (lock, path) alive =
        let (names, path') = addition_add-Kept w add write_table in
        commit_added-Released list add _ (lock refl)
          ((λ a e. names a e ∙ lock refl), (path' ∙ path)) alive

    -- However stack_try_add ends, if the program is still alive, the lock of the list is not there any more, and an
    -- attempt to take it next does not find it taken.
    pub stack_try_add-releases :
        (w : World os S) (write_table : WriteTable)
        → ((cause : Fault) → (stack_try_add os env w write_table).0 ≢ fault cause)
        → (os.read (stack_try_add os env w write_table).1.files (w.stack.list_file ++ dot_lock)
            ≡ missing)
          × ((os.open_excl
                (stack_try_add os env w write_table).1.files
                (w.stack.list_file ++ dot_lock)).0
              ≢ exists)
    unfolding stack_try_add
    stack_try_add-releases w write_table alive =
        let gone =
          add_begun-Released w.stack.list_file write_table _
            (init_addition-Releasable os law env.crc32 env.table_from_reader env.rand_max
              env.reload_rounds w addition_init)
            (init_addition-Holding w addition_init) alive in
        (gone, λ taken. (law.open-exists _ _).0 taken gone)
