-- ===== src/Stack/UpToDate.antt =====
-- read_lines and stack_uptodate of c/stack.c. What open and read answer for the list file is an argument.
use Prim.Native.Nat.Ordering.{eq}
use reftable.Base.{
  ℕ, ◌≤◌, ◌≡◌, refl, List, [], ◌∷◌, Bool, true, false, ltb, if◌then◌else◌, Result, ok, err, fault,
  io_error, out_of_bounds, ◌>>=◌, length, All, arith, Bool-cases, inl, inr, ◌↔◌,
}
use reftable.Basics.Bytes.{strcmp, strcmp_refl, strcmp-eq}
use reftable.Basics.Names.{Name, parse_names, format_names, IsTableName, parse_names-format_names}

-- The list file: it is not there (ENOENT), cannot be opened or read, or holds bytes.
pub data ListFile : Type 0 where
  missing unreadable : ListFile
  holds : List ℕ → ListFile

unfoldable pub read_lines : ListFile → Result (List Name)
read_lines missing = ok []
read_lines unreadable = err io_error
read_lines (holds buf) = parse_names buf

-- The `for` over the readers: whether a name is missing or is another one.
differs : List Name → List Name → Bool
differs [] names = false
differs (reader ∷ readers) [] = true
differs (reader ∷ readers) (name ∷ names) = elim (strcmp reader name) [
  | eq ↦ differs readers names
  | _ ↦ true
]

-- 0 and 1 in C: `true` is that the stack has changed. `readers` are the names of the open tables, and
-- `stack_len` is the number of tables in the merged table.
unfoldable pub stack_uptodate : ListFile → List Name → ℕ → Result Bool
unfolding differs
stack_uptodate file readers stack_len = do
  names ← read_lines file
  if differs readers names
      then ok true
      else if ltb (length names) stack_len
      then fault out_of_bounds
      else ok (ltb stack_len (length names))

-- The answer of the two tests for a merged table of all the readers.
changed : List Name → List Name → Bool
unfolding differs
changed readers names = if differs readers names then true else ltb (length readers) (length names)

differs-length :
    (readers names : List Name) → differs readers names ≡ false → length readers ≤ length names
unfolding differs
differs-length [] names h = omega arith
differs-length (r ∷ readers) [] h = cc
differs-length (r ∷ readers) (n ∷ names) h = ground (arith, differs-length readers names)

changed-eq : (readers names : List Name) → changed readers names ≡ false → readers ≡ names
unfolding changed differs
changed-eq [] [] h = refl
changed-eq [] (n ∷ names) h = absurd (ground arith)
changed-eq (r ∷ readers) [] h = cc
changed-eq (r ∷ readers) (n ∷ names) h = ground (arith, strcmp-eq r n, changed-eq readers names)

changed_refl : (names : List Name) → changed names names ≡ false
unfolding changed differs
changed_refl [] = refl
changed_refl (n ∷ names) = ground (arith, strcmp_refl n, changed_refl names)

-- For the list of tables that a commit has written and readers of which all are merged, stack_uptodate
-- answers; and it answers 0 exactly if the readers are the tables of the list, in its order.
pub stack_uptodate_iff :
    (names readers : List Name)
    → All IsTableName names
    → (b : Bool) × (stack_uptodate (holds (format_names names)) readers (length readers) ≡ ok b)
      × ((b ≡ false) ↔ (readers ≡ names))
unfolding stack_uptodate read_lines changed
stack_uptodate_iff names readers h = (
  changed readers names,
  rw (parse_names-format_names names h) (elim (Bool-cases (differs readers names)) [
    | inl e ↦ rw e
    | inr e ↦ rw e (ground (arith, differs-length readers names))
  ]),
  (changed-eq readers names, λ e. rw e (changed_refl names)),
)
