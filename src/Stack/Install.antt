-- ===== src/Stack/Install.antt =====
-- How stack_compact_range of c/stack.c makes its lock of the list the new list.
use reftable.Base.{
  ℕ, ◌≡◌, ◌≢◌, refl, sym, ◌∙◌, List, [], ◌++◌, Option, some, Result, ok, err, fault, Bool-cases,
  inl, inr, All,
}
use reftable.Stack.UpToDate.{ListFile, holds}
use reftable.Stack.Os.{Os, is_written, written_part, IsLawful, FilePath}
use reftable.Stack.Types.{OpenReader, Stack, World}
use reftable.Stack.Text.{dot_lock}
use reftable.Stack.Reload.{names_of, tables_list}
use reftable.Stack.Release.{lock-apart}
use reftable.Stack.Commit.{NotList}
use reftable.Stack.Compact.{subtabs}
use reftable.Stack.Overwrites.{All-take, All-drop}
use reftable.Stack.Locks.{Held, lock_file, install_list}
use reftable.Stack.Compaction.{Compacted}

pub subtabs-All :
    (P : OpenReader → Type 0) (first last : ℕ) (readers : List OpenReader)
    → All P readers
    → All P (subtabs readers first last)
unfolding subtabs
subtabs-All P first last readers h = All-take P _ _ (All-drop P first readers h)

-- What the second part is given: the readers are not called like the list, and neither are the locks and
-- the new table, which is no lock either.
pub record IsApart {S : Type 0} (st : Stack S) (c : Compacted) : Type 0 where
  pub path : st.list_file ≡ st.reftable_dir ++ tables_list
  pub current : All (NotList st) (names_of st.readers)
  pub readers : All (λ rd. NotList st rd.name) c.readers
  pub locks : All (λ p. st.list_file ≢ p) c.subtable_locks
  pub temp : (t : FilePath) → c.temp_name ≡ some t → (st.list_file ≢ t) × (lock_file st ≢ t)

module _ (os : Os) (law : IsLawful os) {S : Type 0} where
  -- The list is what has been written of the new one exactly where the function goes on to the reload.
  abbrev pub Installed :
      World os S
      → Option ℕ
      → List ℕ
      → List FilePath
      → Result (Unit {0}) × (Held × World os S)
      → Type 0
  Installed w sent text locks (r, (held, w')) =
      (os.read w'.files w.stack.list_file ≡ elim r as (λ o. ListFile) [
        | ok done ↦ holds (written_part sent text)
        | err code ↦ os.read w.files w.stack.list_file
        | fault cause ↦ os.read w.files w.stack.list_file
      ])
      × (held.subtable_locks ≡ locks)
      × (w'.stack ≡ w.stack)

  pub install_list-Installed :
      (w : World os S) (held : Held) (path : FilePath) (text : List ℕ)
      → law.At w.files held.lock_file_fd (lock_file w.stack)
      → os.read w.files (lock_file w.stack) ≡ holds []
      → w.stack.list_file ≢ path
      → Installed w
          (os.write w.files held.lock_file_fd text).0
          text
          held.subtable_locks
          (install_list os w held path text)
  unfolding install_list lock_file
  install_list-Installed w held path text at fresh other =
      let list = w.stack.list_file in
      let lock = list ++ dot_lock in
      let (written, s1) = os.write w.files held.lock_file_fd text in
      let (closed, s2) = os.close s1 held.lock_file_fd in
      let (renamed, s3) = os.rename s2 lock list in
      let apart : list ≢ lock = λ e. lock-apart list (sym e) in
      let same1 = law.write-same w.files held.lock_file_fd lock list text at apart in
      let same2 = law.close-same s1 held.lock_file_fd list ∙ same1 in
      let gone : (s : os.State) → os.read (os.unlink s path).1 list ≡ os.read s list =
        λ s. law.unlink-same s path list other in
      elim (Bool-cases (is_written written)) [
        | inr refused ↦ rw refused (gone s1 ∙ same1, refl, refl)
        | inl wrote ↦ elim (Bool-cases closed) [
          | inr refused ↦ rw (wrote, refused) (gone s2 ∙ same2, refl, refl)
          | inl shut ↦ elim (Bool-cases renamed) [
            | inr refused ↦
                rw (wrote, shut, refused)
                  (gone s3 ∙ (law.rename-fails s2 lock list list refused ∙ same2), refl, refl)
            | inl moved ↦
                rw (wrote, shut, moved)
                  (
                    (law.rename-to s2 lock list (λ e. apart (sym e)) moved).0
                        ∙ (law.close-same s1 held.lock_file_fd lock
                            ∙ law.write-at w.files held.lock_file_fd lock [] text at fresh wrote),
                    refl,
                    refl,
                  )
          ]
        ]
      ]
