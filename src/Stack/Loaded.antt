-- ===== src/Stack/Loaded.antt =====
-- A reload of c/stack.c that succeeds: the stack then has the tables of the list that was read.
use reftable.Base.{ℕ, ◌≡◌, List, false, Option, none, some, Result, ok, length}
use reftable.Basics.Names.{Name}
use reftable.Generic.{Table}
use reftable.Merged.Table.{MergedTable}
use reftable.Stack.Os.{Os}
use reftable.Stack.Types.{OpenReader, Stack}

abbrev IsNamed : Name → OpenReader → Type 0
IsNamed name rd = rd.name ≡ name

abbrev FoundAs : Name → Option (OpenReader × List (Option OpenReader)) → Type 0
FoundAs name none = Unit {0}
FoundAs name (some (rd, rest)) = IsNamed name rd

module _ (crc32 : ℕ → List ℕ → ℕ) (os : Os) {S : Type 0}
    (table_from_reader : OpenReader → Table S) where
  -- What a reload that succeeds has read and merged.
  abbrev Merges : Stack S → Result (List OpenReader) → List OpenReader × MergedTable S → Type 0
  Merges st read (readers, merged) =
      (st.has_freed ≡ false) × (read ≡ ok readers) × (length merged.stack ≡ length readers)
