-- ===== src/Stack/Examples.antt =====
-- The theorems on stacks at concrete tables.
use reftable.Basics.Names.{Name, format_names}
use reftable.Stack.UpToDate.{holds, stack_uptodate, stack_uptodate_iff}
use reftable.Base.{Bool, false, ok, ◌↔◌, ℕ, ◌+◌, ◌≤◌, ◌≡◌, List, [], ◌∷◌, length, ◌⊎◌, arith}
use reftable.Stack.Segments.{
  segment_size, suggest_compaction_segment, suggest_compaction_segment-inside,
}

abbrev sizes : List ℕ
sizes = 64 ∷ 17 ∷ 16 ∷ 9 ∷ 9 ∷ 3 ∷ []

suggest_compaction_segment-inside_example :
    (segment_size (suggest_compaction_segment sizes) ≡ 0)
    ⊎ ((suggest_compaction_segment sizes).start + 2 ≤ (suggest_compaction_segment sizes).end
        × ((suggest_compaction_segment sizes).end ≤ length sizes))
suggest_compaction_segment-inside_example = suggest_compaction_segment-inside sizes

abbrev tables : List Name
tables = (b'a' ∷ []) ∷ (b'b' ∷ []) ∷ []

stack_uptodate_iff_example :
    (b : Bool) × (stack_uptodate (holds (format_names tables)) ((b'a' ∷ []) ∷ []) 1 ≡ ok b)
    × ((b ≡ false) ↔ (((b'a' ∷ []) ∷ []) ≡ tables))
stack_uptodate_iff_example = stack_uptodate_iff tables ((b'a' ∷ []) ∷ []) (ground arith)
