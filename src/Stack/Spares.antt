-- ===== src/Stack/Spares.antt =====
-- What reftable_stack_clean_locked of c/stack.c does not remove.
use reftable.Base.{
  ℕ, ◌≡◌, ◌≢◌, refl, sym, ◌∙◌, ap, List, [], ◌∷◌, Bool, true, false, not, leb, ◌||◌, if◌then◌else◌,
  Result, ok, err, fault, out_of_bounds, Ensures, Ensures-ok, Ensures-fault, Ensures->>=,
  Ensures_any, Bool-cases, Option-cases, inl, inr, length, drop, drop-append,
}
use reftable.Basics.Names.{Name, has_name}
use reftable.Refname.Validate.{slash}
use reftable.Stack.Os.{Os, IsLawful, FilePath}
use reftable.Stack.Types.{OpenReader, Stack, World, stack_filename, open_table, and_then}
use reftable.Stack.Env.{Env}
use reftable.Stack.Text.{is_table_name}
use reftable.Stack.Reload.{names_of}
use reftable.Stack.Check.{deref_merged}
use reftable.Stack.Clean.{remove_maybe_stale_table, clean_loop, reftable_stack_clean_locked}

pub stack_filename-injective :
    (dir : FilePath) (a b : Name) → stack_filename dir a ≡ stack_filename dir b → a ≡ b
unfolding stack_filename
stack_filename-injective dir a b e = ap (drop 1) (
    sym (drop-append (length dir) dir (slash ∷ a) refl)
    ∙ (ap (drop (length dir)) e ∙ drop-append (length dir) dir (slash ∷ b) refl))

deref_readers-same :
    {S : Type 0} (st : Stack S) (freed : Bool)
    → Ensures
        (λ readers. readers ≡ st.readers)
        (if freed then fault out_of_bounds else ok st.readers)
deref_readers-same st true = Ensures-fault
deref_readers-same st false = Ensures-ok refl

-- A file that is no table or that is listed.
abbrev IsSpared : List Name → Name → Type 0
IsSpared listed name = (not (is_table_name name) || has_name listed name) ≡ true

module _ (os : Os) (law : IsLawful os) where
  module _ (crc32 : ℕ → List ℕ → ℕ) (dir : FilePath) (max : ℕ) (listed : List Name)
      (name : Name) where
    abbrev Same : os.State → os.State → Type 0
    Same s s' = os.read s' (stack_filename dir name) ≡ os.read s (stack_filename dir name)

    remove_stale-Same :
        (s : os.State) (other : Name)
        → name ≢ other
        → Ensures (Same s) (remove_maybe_stale_table os crc32 s dir max other)
    unfolding remove_maybe_stale_table
    remove_stale-Same s other differs =
        after (open_table crc32 (os.read s (stack_filename dir other)) other)
      where
        after :
            (opened : Result OpenReader)
            → Ensures (Same s) (elim opened as (λ o. Result os.State) [
              | fault cause ↦ fault cause
              | err code ↦ ok s
              | ok rd ↦ ok (
                  if leb rd.reader.max_update_index max
                  then (os.unlink s (stack_filename dir other)).1
                  else s)
            ])
        after (fault cause) = Ensures-fault
        after (err code) = Ensures-ok refl
        after (ok rd) = elim (Bool-cases (leb rd.reader.max_update_index max)) [
          | inl stale ↦ rw stale (
              Ensures-ok (
                law.unlink-same s (stack_filename dir other) (stack_filename dir name)
                  (λ e. differs (stack_filename-injective dir name other e))))
          | inr young ↦ rw young (Ensures-ok refl)
        ]

    clean_loop-Same :
        (s : os.State) (names : List Name)
        → IsSpared listed name
        → Ensures (Same s) (clean_loop os crc32 s dir max listed names)
    unfolding clean_loop
    clean_loop-Same s [] spared = Ensures-ok refl
    clean_loop-Same s (other ∷ names) spared =
        elim (Bool-cases (not (is_table_name other) || has_name listed other)) [
          | inl skipped ↦ rw (clean_loop, skipped) (clean_loop-Same s names spared)
          | inr tried ↦
              rw (clean_loop, tried)
                (Ensures->>=
                  (remove_stale-Same s other (λ e. absurd (
                    let t : true ≡ false =
                      sym spared
                      ∙ (ap (λ n. not (is_table_name n) || has_name listed n) e ∙ tried) in
                    cc)))
                  (λ s' same.
                    then_same s s' (clean_loop os crc32 s' dir max listed names) same
                      (clean_loop-Same s' names spared)))
        ]
      where
        then_same :
            (s s' : os.State) (r : Result os.State)
            → Same s s'
            → Ensures (Same s') r
            → Ensures (Same s) r
        then_same s s' r same h = record { value = λ t e. h.value t e ∙ same }

  module _ {S : Type 0} (env : Env S) where
    files-Same :
        (w : World os S) (q : FilePath) (cleaned : Result os.State)
        → Ensures (λ s. os.read s q ≡ os.read w.files q) cleaned
        → os.read (and_then (cleaned, w) (λ s w. (ok tt, record w { files = s }))).1.files q
          ≡ os.read w.files q
    files-Same w q (fault cause) h = refl
    files-Same w q (err code) h = refl
    files-Same w q (ok s) h = h.value s refl

    -- However reftable_stack_clean_locked ends, a file of the directory that has not the name of a table, or is a
    -- table that the stack has open, is as before.
    pub reftable_stack_clean_locked-spares :
        (w : World os S) (name : Name)
        → (not (is_table_name name) || has_name (names_of w.stack.readers) name) ≡ true
        → os.read
            (reftable_stack_clean_locked os env w).1.files
            (stack_filename w.stack.reftable_dir name)
          ≡ os.read w.files (stack_filename w.stack.reftable_dir name)
    unfolding reftable_stack_clean_locked
    reftable_stack_clean_locked-spares w name spared =
        elim (Option-cases (os.read_dir w.files w.stack.reftable_dir)) [
          | inl gone ↦ rw (reftable_stack_clean_locked, gone)
          | inr (names, listed) ↦
              rw (reftable_stack_clean_locked, listed)
                (files-Same w _ _ (
                  Ensures->>= (Ensures_any (deref_merged w.stack.merged)) (λ merged t.
                    Ensures->>= (deref_readers-same w.stack w.stack.has_freed) (λ readers same.
                      clean_loop-Same env.crc32 w.stack.reftable_dir merged.max (names_of readers)
                        name w.files names (rw same spared)))))
        ]
