-- ===== src/Stack/Finish.antt =====
-- The second part of stack_compact_range of c/stack.c writes the list of tables from its readers, whatever the list
-- has become while it did not hold the lock.
use reftable.Base.{ℕ, ◌≡◌, List, Bool, true, false, if◌then◌else◌, Result, ok}
use reftable.Basics.Names.{Name, format_names}
use reftable.Stack.UpToDate.{holds}
use reftable.Stack.Os.{Os, written_part, IsLawful}
use reftable.Stack.Types.{Stack, World}
use reftable.Stack.Env.{Env}
use reftable.Stack.Range.{compacted_names}
use reftable.Stack.Compaction.{Compacted, new_name}

module _ (os : Os) (law : IsLawful os) {S : Type 0} where
  module _ (env : Env S) where
    -- The list is `text`, or is unchanged; and it is new wherever the answer is 0.
    abbrev Ends : World os S → List ℕ → Result Bool × World os S → Type 0
    Ends w text (r, w') =
        (installed : Bool) × (os.read w'.files w.stack.list_file
          ≡ (if installed then holds text else os.read w.files w.stack.list_file))
        × (r ≡ ok false → installed ≡ true)

    abbrev pub text_of : Compacted → ℕ → ℕ → Name → List ℕ
    text_of c first last name =
        format_names (compacted_names c.readers first last (new_name os env c name))

    -- What a write of the text writes, to some descriptor in some state.
    abbrev pub part_of : Compacted → ℕ → ℕ → Name → os.State → ℕ → List ℕ
    part_of c first last name s fd =
        let text = text_of c first last name in written_part (os.write s fd text).0 text
