-- ===== src/Stack/Commit.antt =====
-- reftable_addition_commit of c/stack.c changes the list of tables at once or not at all.
use mathlib.Core.List.{append_assoc}
use reftable.Base.{
  ℕ, suc, ◌≡◌, ◌≢◌, refl, sym, subst, ◌∙◌, ap, List, [], ◌∷◌, ◌++◌, Bool, true, false, ltb,
  if◌then◌else◌, Option, some, Result, ok, Bool-cases, inl, inr, All, length, take_all, arith,
}
use reftable.Basics.Names.{Name, newline, format_names, parse_names-format_names, IsTableName}
use reftable.Generic.{Table}
use reftable.Stack.UpToDate.{ListFile, holds, read_lines}
use reftable.Stack.Os.{Os, is_written, written_part, IsLawful, FilePath}
use reftable.Stack.Types.{OpenReader, Stack, World, stack_filename, IsLoaded}
use reftable.Stack.Text.{dot_lock}
use reftable.Stack.Reload.{names_of}
use reftable.Stack.Frame.{IsKept, reftable_stack_reload-Keeps}
use reftable.Stack.Release.{lock-apart, close_open-same}
use reftable.Stack.Addition.{
  Addition, is_empty, unlink_tables, unlink_named, reftable_addition_close, commit_text,
  commit_steps, commit_list, reftable_addition_commit,
}

pub format_names-append :
    (a b : List Name) → format_names a ++ format_names b ≡ format_names (a ++ b)
unfolding format_names
format_names-append [] b = refl
format_names-append (n ∷ a) b =
    append_assoc n (newline ∷ format_names a) (format_names b)
    ∙ ap (λ t. n ++ (newline ∷ t)) (format_names-append a b)

All-append : {A : Type 0} (P : A → Type 0) (a b : List A) → All P a → All P b → All P (a ++ b)
All-append P [] b h k = k
All-append P (x ∷ a) b (p, h) k = (p, All-append P a b h k)

pub length-names_of : (readers : List OpenReader) → length (names_of readers) ≡ length readers
length-names_of [] = refl
length-names_of (rd ∷ readers) = ap suc (length-names_of readers)

-- A table with the name is not the list of tables.
abbrev pub NotList : {S : Type 0} → Stack S → Name → Type 0
NotList st name = st.list_file ≢ stack_filename st.reftable_dir name

-- The addition has an open descriptor of its lock, into which nothing is written yet.
pub record IsHolding {S : Type 0} (os : Os) (law : IsLawful os) (w : World os S) (add : Addition)
    : Type 0 where
  pub name : add.lock_file_name ≡ w.stack.list_file ++ dot_lock
  pub at : law.At w.files add.lock_file_fd (w.stack.list_file ++ dot_lock)
  pub fresh : os.read w.files (w.stack.list_file ++ dot_lock) ≡ holds []

-- The list of tables that is to be written.
abbrev pub new_list : {S : Type 0} → Stack S → Addition → List Name
new_list st add = names_of st.readers ++ add.new_tables

-- What write(2) answers when it is given this list.
abbrev pub sent : {S : Type 0} (os : Os) → World os S → Addition → Option ℕ
sent os w add = (os.write w.files add.lock_file_fd (format_names (new_list w.stack add))).0

list_reads :
    (names : List Name) (committed : Bool) (file before : ListFile)
    → All IsTableName names
    → file ≡ (if committed then holds (format_names names) else before)
    → read_lines file ≡ (if committed then ok names else read_lines before)
unfolding read_lines
list_reads names true file before plain e = rw e (parse_names-format_names names plain)
list_reads names false file before plain e = ap read_lines e

module _ (os : Os) (law : IsLawful os) where
  unlink_tables-same :
      (s : os.State) (dir : FilePath) (names : List Name) (q : FilePath)
      → All (λ name. q ≢ stack_filename dir name) names
      → os.read (unlink_tables os s dir names) q ≡ os.read s q
  unfolding unlink_tables
  unlink_tables-same s dir [] q h = refl
  unlink_tables-same s dir (name ∷ names) q (other, h) =
      unlink_tables-same (os.unlink s (stack_filename dir name)).1 dir names q h
      ∙ law.unlink-same s (stack_filename dir name) q other

  unlink_named-same :
      (s : os.State) (name q : FilePath)
      → q ≢ name
      → os.read (unlink_named os s name) q ≡ os.read s q
  unfolding unlink_named
  unlink_named-same s name q other = elim (Bool-cases (is_empty name)) [
    | inl nothing ↦ rw nothing
    | inr named ↦ rw named (law.unlink-same s name q other)
  ]

  module _ {S : Type 0} where
    close-same :
        (add : Addition) (w : World os S) (q : FilePath)
        → All (λ name. q ≢ stack_filename w.stack.reftable_dir name) add.new_tables
        → q ≢ add.lock_file_name
        → os.read (reftable_addition_close os add w).1.files q ≡ os.read w.files q
    unfolding reftable_addition_close
    close-same add w q tables other =
        unlink_named-same _ add.lock_file_name q other
        ∙ (close_open-same os law _ add.lock_file_fd q
            ∙ unlink_tables-same w.files w.stack.reftable_dir add.new_tables q tables)

  pub list-IsKept :
      {S : Type 0} (st : Stack S) (file : ListFile)
      → IsKept os st.reftable_dir (NotList st) (λ s. os.read s st.list_file ≡ file)
  list-IsKept st file = record {
    unlink_table = λ s name other h. law.unlink-same s _ st.list_file other ∙ h;
    rand = λ s h. law.rand-same s _ ∙ h;
    time = λ s h. law.time-same s _ ∙ h;
    sleep = λ s n h. law.sleep-same s n _ ∙ h;
  }

  module _ (crc32 : ℕ → List ℕ → ℕ) {S : Type 0} (table_from_reader : OpenReader → Table S)
      (rand_max rounds : ℕ) where
    commit_text-ok :
        (w : World os S) (add : Addition)
        → IsLoaded w.stack
        → commit_text os crc32 table_from_reader rand_max rounds w add
          ≡ ok (format_names (names_of w.stack.readers ++ add.new_tables))
    unfolding commit_text
    commit_text-ok w add l =
        let fits : ltb (length w.stack.readers) (length w.stack.readers) ≡ false = ground arith in
        rw (l.live, l.merged, fits, take_all (length w.stack.readers) w.stack.readers (omega arith))
          (ap ok (format_names-append (names_of w.stack.readers) add.new_tables))

    -- What the list of tables is after the steps and the close that follows them.
    abbrev Outcome :
        World os S → Addition → List ℕ → Result (Unit {0}) × (Addition × World os S) → Type 0
    Outcome w add text (r, (add', w')) =
        (committed : Bool) × (os.read w'.files w.stack.list_file ≡ (
          if committed
          then holds (written_part (os.write w.files add.lock_file_fd text).0 text)
          else os.read w.files w.stack.list_file))
        × (r ≡ ok tt → committed ≡ true)

    commit_list-Outcome :
        (w : World os S) (add : Addition) (text : List ℕ)
        → IsHolding os law w add
        → All (NotList w.stack) (names_of w.stack.readers)
        → All (NotList w.stack) add.new_tables
        → Outcome w add text
            (commit_list os crc32 table_from_reader rand_max rounds w add (ok text))
    unfolding commit_list commit_steps reftable_addition_close
    commit_list-Outcome w add text h old new =
        let (written, s1) = os.write w.files add.lock_file_fd text in
        let (closed, s2) = os.close s1 add.lock_file_fd in
        let list = w.stack.list_file in
        let (renamed, s3) = os.rename s2 add.lock_file_name list in
        let part = written_part written text in
        let apart : list ≢ list ++ dot_lock = λ e. lock-apart list (sym e) in
        let other : list ≢ add.lock_file_name = λ e. apart (e ∙ h.name) in
        let same1 = law.write-same w.files add.lock_file_fd _ list text h.at apart in
        let same2 = law.close-same s1 add.lock_file_fd list ∙ same1 in
        let moves : renamed ≡ true → is_written written ≡ true → os.read s3 list ≡ holds part =
          λ moved wrote.
            (law.rename-to s2 add.lock_file_name list (λ e. other (sym e)) moved).0
            ∙ (law.close-same s1 add.lock_file_fd add.lock_file_name
                ∙ rw h.name (law.write-at w.files add.lock_file_fd _ [] text h.at h.fresh wrote)) in
        elim (Bool-cases (is_written written)) [
          | inr refused ↦
              rw refused
                (false, close-same add (record w { files = s1 }) list new other ∙ same1, λ e. cc)
          | inl wrote ↦ elim (Bool-cases closed) [
            | inr refused ↦
                rw (wrote, refused)
                  (
                    false,
                    close-same (record add { lock_file_fd = 0 }) (record w { files = s2 }) list new
                          other
                        ∙ same2,
                    λ e. cc,
                  )
            | inl shut ↦ elim (Bool-cases renamed) [
              | inr refused ↦
                  rw (wrote, shut, refused)
                    (
                      false,
                      close-same (record add { lock_file_fd = 0 }) (record w { files = s3 }) list
                            new other
                          ∙ (law.rename-fails s2 add.lock_file_name list list refused ∙ same2),
                      λ e. cc,
                    )
              | inl moved ↦
                  rw (wrote, shut, moved)
                    (
                      true,
                      (reftable_stack_reload-Keeps os list w.stack.reftable_dir (NotList w.stack)
                          (λ s. os.read s list ≡ holds part) (list-IsKept w.stack (holds part))
                          crc32 table_from_reader rand_max rounds (record w { files = s3 })
                          (record { files = moves moved wrote; list_path = refl; dir_path = refl })
                          old).files,
                      λ e. refl,
                    )
            ]
          ]
        ]

    commit-starts :
        (w : World os S) (add : Addition)
        → add.new_tables ≢ []
        → reftable_addition_commit os crc32 table_from_reader rand_max rounds w add
          ≡ commit_list os crc32 table_from_reader rand_max rounds w add
              (commit_text os crc32 table_from_reader rand_max rounds w add)
    unfolding reftable_addition_commit
    commit-starts w add h =
        elim add.new_tables
            as (λ names.
              names ≢ []
              → (elim names as (λ n. Result (Unit {0}) × (Addition × World os S)) [
                | [] ↦ (ok tt, reftable_addition_close os add w)
                | name ∷ more ↦
                    commit_list os crc32 table_from_reader rand_max rounds w add
                      (commit_text os crc32 table_from_reader rand_max rounds w add)
              ])
                ≡ commit_list os crc32 table_from_reader rand_max rounds w add
                    (commit_text os crc32 table_from_reader rand_max rounds w add)) [
                      | [] ↦ λ differs. absurd (differs refl)
                      | name ∷ more ↦ λ differs. refl
                    ]
          h

    -- An addition with new tables that holds the lock, on a stack that is loaded, whose tables are not called like
    -- the list: after reftable_addition_commit the file of the list is unchanged, or is what write(2) has written of
    -- the tables of the stack with the new tables behind them, and the latter wherever the answer is 0. If that
    -- write is not short, the list reads as these tables or as before.
    pub reftable_addition_commit-atomic :
        (w : World os S) (add : Addition)
        → IsLoaded w.stack
        → IsHolding os law w add
        → All (NotList w.stack) (names_of w.stack.readers)
        → All (NotList w.stack) add.new_tables
        → All IsTableName (names_of w.stack.readers)
        → All IsTableName add.new_tables
        → add.new_tables ≢ []
        → (committed : Bool) × (os.read
              (reftable_addition_commit os crc32 table_from_reader rand_max rounds w add).1.1.files
              w.stack.list_file
            ≡ (if committed
                then holds (written_part (sent os w add) (format_names (new_list w.stack add)))
                else os.read w.files w.stack.list_file))
          × ((reftable_addition_commit os crc32 table_from_reader rand_max rounds w add).0 ≡ ok tt
              → committed ≡ true)
          × (sent os w add ≡ some (length (format_names (new_list w.stack add)))
              → read_lines (
                  os.read
                    (reftable_addition_commit os crc32 table_from_reader rand_max rounds w
                      add).1.1.files
                    w.stack.list_file)
                ≡ (if committed
                    then ok (new_list w.stack add)
                    else read_lines (os.read w.files w.stack.list_file)))
    reftable_addition_commit-atomic w add l h old new plain_old plain_new some_new =
        let names = new_list w.stack add in
        let text = format_names names in
        let before = os.read w.files w.stack.list_file in
        let (committed, content, success) =
          subst (Outcome w add text)
            (sym (
              commit-starts w add some_new
              ∙ ap (commit_list os crc32 table_from_reader rand_max rounds w add)
                  (commit_text-ok w add l)))
            (commit_list-Outcome w add (format_names names) h old new) in
        (
          committed,
          content,
          success,
          λ whole.
              list_reads names committed _ before
                (All-append IsTableName (names_of w.stack.readers) add.new_tables plain_old
                  plain_new)
                (content
                  ∙ ap (λ part. if committed then holds part else before)
                      (ap (λ n. written_part n text) whole
                        ∙ take_all (length text) text (omega arith))),
        )
