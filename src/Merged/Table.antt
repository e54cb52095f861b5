-- ===== src/Merged/Table.antt =====
-- struct reftable_merged_table of c/merged.h, and how c/merged.c makes one and seeks in it.
use reftable.Base.{
  ℕ, ◌+◌, ◌-◌, List, [], ◌∷◌, Bool, false, Option, some, none, ltb, ◌==◌, ◌||◌, if◌then◌else◌,
  Result, ok, err, format_error, ◌>>=◌,
}
use reftable.Record.Types.{Record, ref, log}
use reftable.Record.View.{u64}
use reftable.Record.Any.{record_type}
use reftable.Generic.{Table, wanted_ref, wanted_log}
use reftable.Merged.{MergedIter, merged_iter_init}

-- `stack_len` is the length of the stack.
pub record MergedTable (S : Type 0) : Type 0 where
  pub stack : List (Table S)
  pub hash_id : ℕ
  pub suppress_deletions : Bool
  pub min : ℕ
  pub max : ℕ

module _ {S : Type 0} where
  -- The `for` of reftable_new_merged_table from table i on: first_min and last_max.
  unfoldable pub range_loop : ℕ → ℕ → List (Table S) → ℕ → ℕ → Result (ℕ × ℕ)
  range_loop hash_id i [] first_min last_max = ok (first_min, last_max)
  range_loop hash_id i (tab ∷ stack) first_min last_max =
      let first_min' =
        if i == 0 || ltb tab.min_update_index first_min then tab.min_update_index else first_min in
      let last_max' =
        if i == 0 || ltb last_max tab.max_update_index then tab.max_update_index else last_max in
      let rest = range_loop hash_id (i + 1) stack first_min' last_max' in
      if tab.hash_id == hash_id then rest else err format_error

  unfoldable pub reftable_new_merged_table : List (Table S) → ℕ → Result (MergedTable S)
  unfolding range_loop
  reftable_new_merged_table stack hash_id = do
    (first_min, last_max) ← range_loop hash_id 0 stack 0 0
    ok (record {
      stack = stack;
      hash_id = hash_id;
      suppress_deletions = false;
      min = first_min;
      max = last_max;
    })

  -- The `for` of merged_table_seek_record: a table without such a record gives no iterator.
  unfoldable pub seek_loop : List (Table S) → Record → Result (List S)
  seek_loop [] rec = ok []
  seek_loop (tab ∷ stack) rec = do
    found ← tab.seek_record rec
    rest ← seek_loop stack rec
    ok (elim found [ none ↦ rest | some it ↦ it ∷ rest ])

  module _ (next : S → Record → Result (Option (Record × S))) where
    unfoldable pub merged_table_seek_record :
        MergedTable S → Record → Result (Option (MergedIter S))
    unfolding seek_loop
    merged_table_seek_record mt rec = do
      iters ← seek_loop mt.stack rec
      merged ← merged_iter_init next mt.hash_id (record_type rec) mt.suppress_deletions iters
      ok (some merged)

    unfoldable pub reftable_merged_table_seek_ref :
        MergedTable S → List ℕ → Result (Option (MergedIter S))
    reftable_merged_table_seek_ref mt name = merged_table_seek_record mt (ref (wanted_ref name))

    unfoldable pub reftable_merged_table_seek_log_at :
        MergedTable S → List ℕ → ℕ → Result (Option (MergedIter S))
    reftable_merged_table_seek_log_at mt name update_index =
        merged_table_seek_record mt (log (wanted_log name update_index))

    unfoldable pub reftable_merged_table_seek_log :
        MergedTable S → List ℕ → Result (Option (MergedIter S))
    reftable_merged_table_seek_log mt name = reftable_merged_table_seek_log_at mt name (u64 - 1)

    -- reftable_table_from_merged_table: the merged table as a table.
    unfoldable pub reftable_table_from_merged_table : MergedTable S → Table (MergedIter S)
    reftable_table_from_merged_table merged = record {
      seek_record = merged_table_seek_record merged;
      hash_id = merged.hash_id;
      min_update_index = merged.min;
      max_update_index = merged.max;
    }
