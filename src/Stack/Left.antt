-- ===== src/Stack/Left.antt =====
-- The readers of a stack that a reload of c/stack.c has not taken over have names that were there before.
use reftable.Base.{
  ℕ, zero, suc, List, [], ◌∷◌, Bool, true, false, Option, none, some, Result, ok, err, fault, take,
  All, Bool-cases, inl, inr,
}
use reftable.Basics.Bytes.{strcmp, is_eq}
use reftable.Basics.Names.{Name}
use reftable.Stack.Os.{Os, FilePath}
use reftable.Stack.Types.{OpenReader, stack_filename, open_table, and_then}
use reftable.Stack.Reload.{names_of, take_named, copy_readers, reader_for, readers_loop}

pub and_then-keeps {ℓ} :
    {A B : Type 0} {W : Type ℓ} (I : W → Type 0) (m : Result A × W) (next : A → W → Result B × W)
    → I m.1
    → ((a : A) (w : W) → I w → I (next a w).1)
    → I (and_then m next).1
and_then-keeps I (ok a, w) next h k = k a w h
and_then-keeps I (err code, w) next h k = h
and_then-keeps I (fault cause, w) next h k = h

pub and_then-leads {ℓ} :
    {A B : Type 0} {W : Type ℓ} (I J : W → Type 0) (m : Result A × W) (next : A → W → Result B × W)
    → I m.1
    → ((w : W) → I w → J w)
    → ((a : A) (w : W) → I w → J (next a w).1)
    → J (and_then m next).1
and_then-leads I J (ok a, w) next h j k = k a w h
and_then-leads I J (err code, w) next h j k = j w h
and_then-leads I J (fault cause, w) next h j k = j w h

-- The readers of cur that are left have names of which Q holds.
abbrev pub AllLeft : (Name → Type 0) → List (Option OpenReader) → Type 0
AllLeft Q [] = Unit {0}
AllLeft Q (none ∷ cur) = AllLeft Q cur
AllLeft Q (some rd ∷ cur) = Q rd.name × AllLeft Q cur

module _ (Q : Name → Type 0) where
  pub copy_readers-AllLeft :
      (n : ℕ) (readers : List OpenReader)
      → All Q (names_of readers)
      → AllLeft Q (copy_readers (take n readers))
  unfolding copy_readers
  copy_readers-AllLeft zero readers h = tt
  copy_readers-AllLeft (suc n) [] h = tt
  copy_readers-AllLeft (suc n) (rd ∷ readers) (q, h) = (q, copy_readers-AllLeft n readers h)

  -- What is left where the reader has been looked for.
  abbrev left_of :
      Option (OpenReader × List (Option OpenReader))
      → List (Option OpenReader)
      → List (Option OpenReader)
  left_of none cur = cur
  left_of (some (rd, rest)) cur = rest

  behind_none :
      (found : Option (OpenReader × List (Option OpenReader))) (cur : List (Option OpenReader))
      → AllLeft Q (left_of found cur)
      → AllLeft Q (
          left_of
            (elim found [ none ↦ none | some (rd, cur') ↦ some (rd, none ∷ cur') ])
            (none ∷ cur))
  behind_none none cur h = h
  behind_none (some (rd, rest)) cur h = h

  behind_some :
      (c : OpenReader) (found : Option (OpenReader × List (Option OpenReader)))
      (cur : List (Option OpenReader))
      → Q c.name
      → AllLeft Q (left_of found cur)
      → AllLeft Q (
          left_of
            (elim found [ none ↦ none | some (rd, cur') ↦ some (rd, some c ∷ cur') ])
            (some c ∷ cur))
  behind_some c none cur q h = (q, h)
  behind_some c (some (rd, rest)) cur q h = (q, h)

  take_named-AllLeft :
      (cur : List (Option OpenReader)) (name : Name)
      → AllLeft Q cur
      → AllLeft Q (left_of (take_named cur name) cur)
  unfolding take_named
  take_named-AllLeft [] name h = h
  take_named-AllLeft (none ∷ cur) name h =
      behind_none (take_named cur name) cur (take_named-AllLeft cur name h)
  take_named-AllLeft (some c ∷ cur) name (q, h) = elim (Bool-cases (is_eq (strcmp c.name name))) [
    | inl same ↦ rw same h
    | inr other ↦
        rw other (behind_some c (take_named cur name) cur q (take_named-AllLeft cur name h))
  ]

  module _ (crc32 : ℕ → List ℕ → ℕ) (os : Os) (s : os.State) (dir : FilePath) where
    reader_for-AllLeft :
        (reuse_open : Bool) (cur : List (Option OpenReader)) (name : Name)
        → AllLeft Q cur
        → AllLeft Q (reader_for crc32 os s dir reuse_open cur name).1
    unfolding reader_for
    reader_for-AllLeft false cur name h = h
    reader_for-AllLeft true cur name h = after (take_named cur name) (take_named-AllLeft cur name h)
      where
        after :
            (found : Option (OpenReader × List (Option OpenReader)))
            → AllLeft Q (left_of found cur)
            → AllLeft Q
                (elim found as (λ o. Result OpenReader × List (Option OpenReader)) [
                  | some (rd, rest) ↦ (ok rd, rest)
                  | none ↦ (open_table crc32 (os.read s (stack_filename dir name)) name, cur)
                ]).1
        after none h = h
        after (some (rd, rest)) h = h

    pub readers_loop-AllLeft :
        (reuse_open : Bool) (cur : List (Option OpenReader)) (names : List Name)
        → AllLeft Q cur
        → AllLeft Q (readers_loop crc32 os s dir reuse_open cur names).1
    unfolding readers_loop
    readers_loop-AllLeft reuse_open cur [] h = h
    readers_loop-AllLeft reuse_open cur (name ∷ names) h =
        and_then-keeps (AllLeft Q) (reader_for crc32 os s dir reuse_open cur name) _
          (reader_for-AllLeft reuse_open cur name h)
          (λ rd left l.
            and_then-keeps (AllLeft Q) (readers_loop crc32 os s dir reuse_open left names) _
              (readers_loop-AllLeft reuse_open left names l) (λ readers left' l'. l'))
