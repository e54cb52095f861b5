-- ===== src/Stack/Release.antt =====
-- The lock of the list of tables: who removes it.
use reftable.Base.{
  ℕ, ◌≡◌, ◌≢◌, refl, sym, ◌∙◌, ap, List, [], ◌∷◌, ◌++◌, Bool, true, false, ltb, none, Result, ok,
  err, fault, lock_error, Bool-cases, inl, inr, ◌⊎◌, All, arith, length, length-append,
}
use reftable.Basics.Bytes.{strcmp, strcmp-eq, strcmp_refl, is_eq, is_eq-eq}
use reftable.Basics.Names.{Name}
use reftable.Generic.{Table}
use reftable.Stack.UpToDate.{missing}
use reftable.Stack.Os.{Os, is_written, IsLawful, FilePath, Opened, opened, exists, failed}
use reftable.Stack.Types.{OpenReader, World, stack_filename}
use reftable.Stack.Text.{dot_lock}
use reftable.Stack.Reload.{names_of, uptodate}
use reftable.Stack.Frame.{IsKept, reftable_stack_reload-Keeps}
use reftable.Stack.Addition.{
  Addition, addition_init, is_empty, unlink_tables, close_open, unlink_named,
  reftable_addition_close, reftable_stack_next_update_index, init_held, init_opened, give_addition,
  reftable_stack_init_addition, reftable_stack_new_addition, commit_text, commit_steps, commit_list,
  reftable_addition_commit,
}

pub FilePath-cases : (p q : FilePath) → (p ≡ q) ⊎ (p ≢ q)
FilePath-cases p q = elim (Bool-cases (is_eq (strcmp p q))) [
  | inl same ↦ inl (strcmp-eq p q (is_eq-eq (strcmp p q) same))
  | inr other ↦ inr (λ e. differ p q other e)
]
  where
    differ : (p q : FilePath) → is_eq (strcmp p q) ≡ false → p ≡ q → ⊥
    differ p q h e = let t : is_eq (strcmp p q) ≡ true = rw e (rw (strcmp_refl q)) in cc

pub lock-nonempty : (list : FilePath) → is_empty (list ++ dot_lock) ≡ false
lock-nonempty [] = refl
lock-nonempty (c ∷ list) = refl

pub lock-apart : (list : FilePath) → list ++ dot_lock ≢ list
lock-apart list e =
    let long = length-append list dot_lock in
    let same : length (list ++ dot_lock) ≡ length list = ap length e in absurd (omega arith)

All_any : (names : List Name) → All (λ name. Unit {0}) names
All_any [] = tt
All_any (name ∷ names) = (tt, All_any names)

module _ (os : Os) (law : IsLawful os) where
  pub unlink-missing :
      (s : os.State) (p q : FilePath)
      → os.read s q ≡ missing
      → os.read (os.unlink s p).1 q ≡ missing
  unlink-missing s p q h = elim (FilePath-cases q p) [
    | inl same ↦ rw same (law.unlink-removes s p)
    | inr other ↦ law.unlink-same s p q other ∙ h
  ]

  -- That a file is not there is kept by a reload.
  missing-IsKept :
      (dir q : FilePath) → IsKept os dir (λ name. Unit {0}) (λ s. os.read s q ≡ missing)
  missing-IsKept dir q = record {
    unlink_table = λ s name any h. unlink-missing s (stack_filename dir name) q h;
    rand = λ s h. law.rand-same s q ∙ h;
    time = λ s h. law.time-same s q ∙ h;
    sleep = λ s n h. law.sleep-same s n q ∙ h;
  }

  unlink_tables-missing :
      (s : os.State) (dir : FilePath) (names : List Name) (q : FilePath)
      → os.read s q ≡ missing
      → os.read (unlink_tables os s dir names) q ≡ missing
  unfolding unlink_tables
  unlink_tables-missing s dir [] q h = h
  unlink_tables-missing s dir (name ∷ names) q h =
      unlink_tables-missing (os.unlink s (stack_filename dir name)).1 dir names q
        (unlink-missing s (stack_filename dir name) q h)

  pub close_open-same :
      (s : os.State) (fd : ℕ) (q : FilePath) → os.read (close_open os s fd) q ≡ os.read s q
  unfolding close_open
  close_open-same s fd q = elim (Bool-cases (ltb 0 fd)) [
    | inl live ↦ rw live (law.close-same s fd q)
    | inr closed ↦ rw closed
  ]

  module _ {S : Type 0} where
    -- The lock is the one that the addition removes, or it is not there any more.
    abbrev Releasable : FilePath → Addition × World os S → Type 0
    Releasable lock (add, w) =
        (add.lock_file_name ≡ lock) ⊎ ((add.lock_file_name ≡ []) × (os.read w.files lock ≡ missing))

    pub close-releases :
        (list : FilePath) (add : Addition) (w : World os S)
        → Releasable (list ++ dot_lock) (add, w)
        → os.read (reftable_addition_close os add w).1.files (list ++ dot_lock) ≡ missing
    unfolding reftable_addition_close unlink_named
    close-releases list add w (inl same) = rw (same, lock-nonempty list) (law.unlink-removes _ _)
    close-releases list add w (inr (free, gone)) = rw free (
        close_open-same _ add.lock_file_fd _
        ∙ unlink_tables-missing w.files w.stack.reftable_dir add.new_tables _ gone)

  module _ (crc32 : ℕ → List ℕ → ℕ) {S : Type 0} (table_from_reader : OpenReader → Table S)
      (rand_max rounds : ℕ) where
    first_addition : World os S → Addition
    first_addition w = record addition_init { lock_file_name = w.stack.list_file ++ dot_lock }

    after_open : World os S → World os S
    after_open w = record w { files = (os.open_excl w.files (w.stack.list_file ++ dot_lock)).1 }

    closed_first :
        (w : World os S)
        → reftable_addition_close os (first_addition w) (after_open w) ≡ (
          addition_init,
          record w { files = (os.unlink (after_open w).files (w.stack.list_file ++ dot_lock)).1 },
        )
    unfolding reftable_addition_close unlink_named first_addition after_open
    closed_first w = rw (lock-nonempty w.stack.list_file) refl

    -- Where the lock is held by another process, reftable_stack_new_addition answers LOCK_ERROR, gives no
    -- addition, leaves the stack as it is, and removes the lock of the other process.
    pub reftable_stack_new_addition-steals :
        (w : World os S)
        → os.read w.files (w.stack.list_file ++ dot_lock) ≢ missing
        → (s : os.State) × (reftable_stack_new_addition os crc32 table_from_reader rand_max rounds w
            ≡ (none, (err lock_error, record w { files = s })))
          × (os.read s (w.stack.list_file ++ dot_lock) ≡ missing)
    unfolding reftable_stack_new_addition give_addition first_addition after_open
    reftable_stack_new_addition-steals w held =
        let taken = (law.open-exists w.files (w.stack.list_file ++ dot_lock)).1 held in
        let refused : reftable_stack_init_addition os crc32 table_from_reader rand_max rounds w
              addition_init
            ≡ (err lock_error, reftable_addition_close os (first_addition w) (after_open w)) =
          rw (reftable_stack_init_addition, taken) refl in
        (
          (os.unlink (os.open_excl w.files (w.stack.list_file ++ dot_lock)).1
              (w.stack.list_file ++ dot_lock)).1,
          ap (give_addition os crc32 table_from_reader rand_max rounds)
              (refused ∙ ap (λ c. (err lock_error, c)) (closed_first w)),
          law.unlink-removes _ _,
        )

    closed-Releasable :
        (list : FilePath) (add : Addition) (w : World os S)
        → add.lock_file_name ≡ list ++ dot_lock
        → Releasable (list ++ dot_lock) (reftable_addition_close os add w)
    unfolding reftable_addition_close
    closed-Releasable list add w same = inr (refl, close-releases list add w (inl same))

    init_held-Releasable :
        (list : FilePath) (answer : Result Bool) (next : Result ℕ) (add : Addition) (w : World os S)
        → add.lock_file_name ≡ list ++ dot_lock
        → Releasable
            (list ++ dot_lock)
            (init_held os crc32 table_from_reader rand_max rounds answer next add w).1
    unfolding init_held
    init_held-Releasable list (fault cause) next add w h = inl h
    init_held-Releasable list (err code) next add w h = closed-Releasable list add w h
    init_held-Releasable list (ok is_changed) (fault cause) add w h = inl h
    init_held-Releasable list (ok is_changed) (err code) add w h = closed-Releasable list add w h
    init_held-Releasable list (ok true) (ok next) add w h = closed-Releasable list _ w h
    init_held-Releasable list (ok false) (ok next) add w h = inl h

    init_opened-Releasable :
        (list : FilePath) (lock : Opened) (add : Addition) (w : World os S)
        → add.lock_file_name ≡ list ++ dot_lock
        → Releasable
            (list ++ dot_lock)
            (init_opened os crc32 table_from_reader rand_max rounds lock add w).1
    unfolding init_opened
    init_opened-Releasable list exists add w h = closed-Releasable list add w h
    init_opened-Releasable list failed add w h = closed-Releasable list add w h
    init_opened-Releasable list (opened fd) add w h =
        init_held-Releasable list (uptodate os w) (reftable_stack_next_update_index w.stack) _ w h

    pub init_addition-Releasable :
        (w : World os S) (add : Addition)
        → Releasable
            (w.stack.list_file ++ dot_lock)
            (reftable_stack_init_addition os crc32 table_from_reader rand_max rounds w add).1
    unfolding reftable_stack_init_addition
    init_addition-Releasable w add = init_opened-Releasable w.stack.list_file _ _ _ refl

    commit_steps-Releasable :
        (w : World os S) (add : Addition) (text : List ℕ)
        → add.lock_file_name ≡ w.stack.list_file ++ dot_lock
        → Releasable
            (w.stack.list_file ++ dot_lock)
            (commit_steps os crc32 table_from_reader rand_max rounds w add text).1
    unfolding commit_steps
    commit_steps-Releasable w add text h =
        let (written, s1) = os.write w.files add.lock_file_fd text in
        let (closed, s2) = os.close s1 add.lock_file_fd in
        let (renamed, s3) = os.rename s2 add.lock_file_name w.stack.list_file in
        let w3 : World os S = record w { files = s3 } in
        let gone : renamed ≡ true → os.read s3 (w.stack.list_file ++ dot_lock) ≡ missing = λ moved.
          rw (sym h)
            (law.rename-to s2 add.lock_file_name w.stack.list_file
              (λ e. lock-apart w.stack.list_file (sym h ∙ e)) moved).1 in
        elim (Bool-cases (is_written written)) [
          | inr refused ↦ rw refused (inl h)
          | inl wrote ↦ elim (Bool-cases closed) [
            | inr refused ↦ rw (wrote, refused) (inl h)
            | inl shut ↦ elim (Bool-cases renamed) [
              | inr refused ↦ rw (wrote, shut, refused) (inl h)
              | inl moved ↦
                  rw (wrote, shut, moved)
                    (inr (
                      refl,
                      (reftable_stack_reload-Keeps os w.stack.list_file w.stack.reftable_dir
                          (λ name. Unit {0})
                          (λ s. os.read s (w.stack.list_file ++ dot_lock) ≡ missing)
                          (missing-IsKept w.stack.reftable_dir (w.stack.list_file ++ dot_lock))
                          crc32 table_from_reader rand_max rounds w3
                          (record { files = gone moved; list_path = refl; dir_path = refl })
                          (All_any (names_of w.stack.readers))).files,
                    ))
            ]
          ]
        ]

    commit_list-Releasable :
        (w : World os S) (add : Addition) (text : Result (List ℕ))
        → add.lock_file_name ≡ w.stack.list_file ++ dot_lock
        → Releasable
            (w.stack.list_file ++ dot_lock)
            (commit_list os crc32 table_from_reader rand_max rounds w add text).1
    unfolding commit_list reftable_addition_close
    commit_list-Releasable w add (fault cause) h = inl h
    commit_list-Releasable w add (err code) h = closed-Releasable w.stack.list_file add w h
    commit_list-Releasable w add (ok text) h =
        let steps = commit_steps os crc32 table_from_reader rand_max rounds w add text in
        let left = commit_steps-Releasable w add text h in
        inr (refl, close-releases w.stack.list_file steps.1.0 steps.1.1 left)

    pub commit-Releasable :
        (w : World os S) (add : Addition)
        → add.lock_file_name ≡ w.stack.list_file ++ dot_lock
        → Releasable
            (w.stack.list_file ++ dot_lock)
            (reftable_addition_commit os crc32 table_from_reader rand_max rounds w add).1
    unfolding reftable_addition_commit
    commit-Releasable w add h =
        elim add.new_tables
          as (λ names.
            Releasable (w.stack.list_file ++ dot_lock)
              (elim names as (λ n. Result (Unit {0}) × (Addition × World os S)) [
                | [] ↦ (ok tt, reftable_addition_close os add w)
                | name ∷ more ↦
                    commit_list os crc32 table_from_reader rand_max rounds w add
                      (commit_text os crc32 table_from_reader rand_max rounds w add)
              ]).1) [
                | [] ↦ closed-Releasable w.stack.list_file add w h
                | name ∷ more ↦ commit_list-Releasable w add _ h
              ]
