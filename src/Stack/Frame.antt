-- ===== src/Stack/Frame.antt =====
-- What a reload of c/stack.c leaves alone: the paths of the stack, and every predicate of the files that the removal
-- of its tables keeps.
use reftable.Base.{
  ℕ, zero, suc, ◌+◌, ◌≡◌, refl, List, [], ◌∷◌, Bool, true, ltb, ◌&&◌, Option, none, some, Result,
  ok, err, fault, Error, general, io_error, format_error, not_exist_error, lock_error, api_error,
  zlib_error, empty_table_error, name_conflict, refname_error, take, All, Bool-cases, Option-cases,
  inl, inr,
}
use reftable.Basics.Names.{Name, names_equal}
use reftable.Generic.{Table}
use reftable.Merged.Table.{MergedTable}
use reftable.Stack.UpToDate.{read_lines}
use reftable.Stack.Os.{Os, FilePath}
use reftable.Stack.Types.{OpenReader, World, stack_filename}
use reftable.Stack.Reload.{
  names_of, copy_readers, readers_loop, remove_left, is_past, uptodate, cur_len, merge_readers,
  replace_readers, reftable_stack_reload_once,
}
use reftable.Stack.Retry.{
  after_reload, reload_loop, reftable_stack_reload_maybe_reuse, reftable_stack_reload,
}
use reftable.Stack.Left.{and_then-leads, AllLeft, copy_readers-AllLeft, readers_loop-AllLeft}

-- A predicate of the files that a reload of the tables in `dir` with names in Q keeps.
pub record IsKept (os : Os) (dir : FilePath) (Q : Name → Type 0) (P : os.State → Type 0)
    : Type 0 where
  pub unlink_table :
      (s : os.State) (name : Name) → Q name → P s → P (os.unlink s (stack_filename dir name)).1
  pub rand : (s : os.State) → P s → P (os.rand s).1
  pub time : (s : os.State) → P s → P (os.gettimeofday s).1
  pub sleep : (s : os.State) (n : ℕ) → P s → P (os.sleep_millisec s n)

-- The paths of a stack, and the predicate of the files.
pub record Keeps {S : Type 0} (os : Os) (P : os.State → Type 0) (list dir : FilePath)
    (w : World os S) : Type 0 where
  pub files : P w.files
  pub list_path : w.stack.list_file ≡ list
  pub dir_path : w.stack.reftable_dir ≡ dir

module _ (os : Os) (list dir : FilePath) (Q : Name → Type 0) (P : os.State → Type 0)
    (k : IsKept os dir Q P) where
  remove_left-keeps :
      (s : os.State) (cur : List (Option OpenReader))
      → AllLeft Q cur
      → P s
      → P (remove_left os s dir cur)
  unfolding remove_left
  remove_left-keeps s [] h p = p
  remove_left-keeps s (none ∷ cur) h p = remove_left-keeps s cur h p
  remove_left-keeps s (some rd ∷ cur) (q, h) p =
      remove_left-keeps (os.unlink s (stack_filename dir rd.name)).1 cur h
        (k.unlink_table s rd.name q p)

  module _ (crc32 : ℕ → List ℕ → ℕ) {S : Type 0} (table_from_reader : OpenReader → Table S) where
    replace_readers-Keeps :
        (w : World os S) (left : List (Option OpenReader))
        (loaded : Result (List OpenReader × MergedTable S))
        → AllLeft Q left
        → Keeps os P list dir w
        → Keeps os P list dir (replace_readers crc32 os table_from_reader w left loaded).1
    unfolding replace_readers
    replace_readers-Keeps w left (fault cause) q h = h
    replace_readers-Keeps w left (err code) q h = record {
      files = h.files;
      list_path = h.list_path;
      dir_path = h.dir_path;
    }
    replace_readers-Keeps w left (ok (readers, merged)) q h = record {
      files = rw h.dir_path (remove_left-keeps w.files left q h.files);
      list_path = h.list_path;
      dir_path = h.dir_path;
    }

    replace_readers-readers :
        (w : World os S) (left : List (Option OpenReader))
        (loaded : Result (List OpenReader × MergedTable S)) (code : Error)
        → (replace_readers crc32 os table_from_reader w left loaded).0 ≡ err code
        → (replace_readers crc32 os table_from_reader w left loaded).1.stack.readers
          ≡ w.stack.readers
    unfolding replace_readers
    replace_readers-readers w left (fault cause) code e = refl
    replace_readers-readers w left (err other) code e = refl
    replace_readers-readers w left (ok (readers, merged)) code e = cc

    -- After an error the readers are still those of which Q holds.
    abbrev Reloaded : Result (Unit {0}) × World os S → Type 0
    Reloaded (r, w) =
        Keeps os P list dir w × ((code : Error) → r ≡ err code → All Q (names_of w.stack.readers))

    abbrev Ready : World os S → Type 0
    Ready w = Keeps os P list dir w × All Q (names_of w.stack.readers)

    reload_once-Keeps :
        (w : World os S) (names : List Name) (reuse_open : Bool)
        → Keeps os P list dir w
        → All Q (names_of w.stack.readers)
        → Reloaded (reftable_stack_reload_once crc32 os table_from_reader w names reuse_open)
    unfolding reftable_stack_reload_once
    reload_once-Keeps w names reuse_open h q =
        let cur =
          copy_readers (take (cur_len crc32 os table_from_reader w.stack) w.stack.readers) in
        let loop = readers_loop crc32 os w.files w.stack.reftable_dir reuse_open cur names in
        let loaded = merge_readers crc32 os table_from_reader w.stack loop.0 in
        (
          replace_readers-Keeps w loop.1 loaded
              (readers_loop-AllLeft Q crc32 os w.files w.stack.reftable_dir reuse_open cur names (
                copy_readers-AllLeft Q (cur_len crc32 os table_from_reader w.stack) w.stack.readers
                  q))
              h,
          λ code e. rw (replace_readers-readers w loop.1 loaded code e) q,
        )

    after_reload-Keeps :
        (rand_max : ℕ) (names : List Name)
        (again : ℕ → World os S → Bool → Result (Unit {0}) × World os S) (delay : ℕ)
        (reloaded : Result (Unit {0}) × World os S) (reuse_open : Bool)
        → ((d : ℕ) (w : World os S)
            → Keeps os P list dir w
            → All Q (names_of w.stack.readers)
            → Keeps os P list dir (again d w reuse_open).1)
        → Reloaded reloaded
        → Keeps os P list dir
            (after_reload crc32 os table_from_reader rand_max names again delay reloaded
              reuse_open).1
    unfolding after_reload
    after_reload-Keeps rand_max names again delay (err not_exist_error, w) reuse_open g (h, q) =
        and_then-leads Ready (Keeps os P list dir)
          (read_lines (os.read w.files w.stack.list_file), w) _ (h, q not_exist_error refl)
          (λ w2 r. r.0)
          (λ names_after w2 r. elim (Bool-cases (names_equal names_after names)) [
            | inl same ↦ rw same r.0
            | inr other ↦ rw other (
                g _ _
                  (record {
                    files = k.sleep _ _ (k.rand w2.files r.0.files);
                    list_path = r.0.list_path;
                    dir_path = r.0.dir_path;
                  })
                  r.1)
          ])
    after_reload-Keeps rand_max names again delay (err general, w) reuse_open g (h, q) = h
    after_reload-Keeps rand_max names again delay (err io_error, w) reuse_open g (h, q) = h
    after_reload-Keeps rand_max names again delay (err format_error, w) reuse_open g (h, q) = h
    after_reload-Keeps rand_max names again delay (err lock_error, w) reuse_open g (h, q) = h
    after_reload-Keeps rand_max names again delay (err api_error, w) reuse_open g (h, q) = h
    after_reload-Keeps rand_max names again delay (err zlib_error, w) reuse_open g (h, q) = h
    after_reload-Keeps rand_max names again delay (err empty_table_error, w) reuse_open g (h, q) = h
    after_reload-Keeps rand_max names again delay (err name_conflict, w) reuse_open g (h, q) = h
    after_reload-Keeps rand_max names again delay (err refname_error, w) reuse_open g (h, q) = h
    after_reload-Keeps rand_max names again delay (ok done, w) reuse_open g (h, q) = h
    after_reload-Keeps rand_max names again delay (fault cause, w) reuse_open g (h, q) = h

    reload_loop-Keeps :
        (rand_max rounds : ℕ) (deadline : ℕ × ℕ) (tries delay : ℕ) (w : World os S)
        (reuse_open : Bool)
        → Ready w
        → Keeps os P list dir
            (reload_loop crc32 os table_from_reader rand_max rounds deadline tries delay w
              reuse_open).1
    unfolding reload_loop
    reload_loop-Keeps rand_max zero deadline tries delay w reuse_open (h, q) = h
    reload_loop-Keeps rand_max (suc rounds) deadline tries delay w reuse_open (h, q) =
        let s1 = (os.gettimeofday w.files).1 in
        let w1 : World os S = record w { files = s1 } in
        let h1 : Keeps os P list dir w1 = record {
          files = k.time w.files h.files;
          list_path = h.list_path;
          dir_path = h.dir_path;
        } in
        elim (Option-cases (os.gettimeofday w.files).0) [
          | inl gone ↦ rw (reload_loop, gone) h1
          | inr (now, clock) ↦ elim (Bool-cases (ltb 2 tries && is_past now deadline)) [
            | inl late ↦ rw (reload_loop, clock, late) h1
            | inr early ↦
                rw (reload_loop, clock, early)
                  (and_then-leads Ready (Keeps os P list dir)
                    (read_lines (os.read s1 w.stack.list_file), w1) _ (h1, q) (λ w2 r. r.0)
                    (λ names w2 r.
                      after_reload-Keeps rand_max names
                        (reload_loop crc32 os table_from_reader rand_max rounds deadline
                          (tries + 1))
                        delay
                        (reftable_stack_reload_once crc32 os table_from_reader w2 names reuse_open)
                        reuse_open
                        (λ d w3 h3 q3.
                          reload_loop-Keeps rand_max rounds deadline (tries + 1) d w3 reuse_open
                            (h3, q3))
                        (reload_once-Keeps w2 names reuse_open r.0 r.1)))
          ]
        ]

    pub reload_maybe_reuse-Keeps :
        (rand_max rounds : ℕ) (w : World os S) (reuse_open : Bool)
        → Keeps os P list dir w
        → All Q (names_of w.stack.readers)
        → Keeps os P list dir
            (reftable_stack_reload_maybe_reuse crc32 os table_from_reader rand_max rounds w
              reuse_open).1
    unfolding reftable_stack_reload_maybe_reuse
    reload_maybe_reuse-Keeps rand_max rounds w reuse_open h q =
        let s1 = (os.gettimeofday w.files).1 in
        let w1 : World os S = record w { files = s1 } in
        let h1 : Keeps os P list dir w1 = record {
          files = k.time w.files h.files;
          list_path = h.list_path;
          dir_path = h.dir_path;
        } in
        elim (Option-cases (os.gettimeofday w.files).0) [
          | inl gone ↦ rw (reftable_stack_reload_maybe_reuse, gone) h1
          | inr ((sec, usec), clock) ↦
              rw (reftable_stack_reload_maybe_reuse, clock)
                (reload_loop-Keeps rand_max rounds (sec + 3, usec) 0 0 w1 reuse_open (h1, q))
        ]

    -- A reload keeps the predicate and the paths, whatever its answer.
    pub reftable_stack_reload-Keeps :
        (rand_max rounds : ℕ) (w : World os S)
        → Keeps os P list dir w
        → All Q (names_of w.stack.readers)
        → Keeps os P list dir (reftable_stack_reload crc32 os table_from_reader rand_max rounds w).1
    unfolding reftable_stack_reload
    reftable_stack_reload-Keeps rand_max rounds w h q =
        and_then-leads Ready (Keeps os P list dir) (uptodate os w, w) _ (h, q) (λ w2 r. r.0)
          (λ is_changed w2 r. elim (Bool-cases is_changed) [
            | inl newer ↦ rw newer (reload_maybe_reuse-Keeps rand_max rounds w2 true r.0 r.1)
            | inr older ↦ rw older r.0
          ])
