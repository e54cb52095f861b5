-- ===== src/Stack/Kept.antt =====
-- Which refs stack_write_compact of c/stack.c copies.
use reftable.Base.{
  ℕ, zero, suc, ◌+◌, ◌<◌, ◌≡◌, refl, List, [], ◌∷◌, ◌==◌, ◌&&◌, if◌then◌else◌, none, some, Result,
  ok, err, fault, length, Bool-cases, inl, inr, arith,
}
use reftable.Record.Types.{Record, RefRecord, ref}
use reftable.Record.Any.{record_type, record_is_deletion, block_type_ref}
use reftable.Generic.{record_as_ref, reftable_iterator_next_ref}
use reftable.Merged.{MergedIter, merged_iter_next_void}
use reftable.Merged.Entry.{Gives}
use reftable.Writer.Add.{reftable_writer_add_ref}
use reftable.Stack.Env.{Env}
use reftable.Stack.NewTable.{append_bytes}
use reftable.Stack.Compact.{TableWriter, compact_refs}

-- A range that starts at the oldest table has nothing below it, so its deletions are dropped.
abbrev pub kept : ℕ → List RefRecord → List RefRecord
kept first [] = []
kept first (r ∷ refs) =
    if first == 0 && record_is_deletion (ref r) then kept first refs else r ∷ kept first refs

abbrev pub records_of : List RefRecord → List Record
records_of [] = []
records_of (r ∷ refs) = ref r ∷ records_of refs

module _ {S : Type 0} (env : Env S) where
  -- One call of the writer after the other, up to the first that fails.
  unfoldable pub add_each : List RefRecord → TableWriter → ℕ → Result (Unit {0}) × (TableWriter × ℕ)
  add_each [] wr entries = (ok tt, (wr, entries))
  add_each (r ∷ refs) wr entries =
      elim (reftable_writer_add_ref append_bytes env.compress2 env.first_cap wr r) [
        | fault cause ↦ (fault cause, (wr, entries))
        | err code ↦ (err code, (wr, entries))
        | ok wr' ↦ add_each refs wr' (entries + 1)
      ]

  next_ref-Gives :
      (it : MergedIter S) (r x : RefRecord) (refs : List RefRecord)
      → Gives
          (merged_iter_next_void env.next env.merge_fuel)
          block_type_ref
          it
          (records_of (x ∷ refs))
      → (it' : MergedIter S) × (reftable_iterator_next_ref
            (merged_iter_next_void env.next env.merge_fuel)
            it
            r
          ≡ ok (some (x, it')))
        × Gives (merged_iter_next_void env.next env.merge_fuel) block_type_ref it' (records_of refs)
  unfolding reftable_iterator_next_ref record_as_ref record_type
  next_ref-Gives it r x refs (it', read, rest) = (it', rw (read (ref r) refl) refl, rest)

  next_ref-end :
      (it : MergedIter S) (r : RefRecord)
      → Gives (merged_iter_next_void env.next env.merge_fuel) block_type_ref it []
      → reftable_iterator_next_ref (merged_iter_next_void env.next env.merge_fuel) it r ≡ ok none
  unfolding reftable_iterator_next_ref record_type
  next_ref-end it r g = rw (g (ref r) refl) refl

  -- Two ways to go on after a call of the writer.
  after_add :
      (added : Result TableWriter) (wr : TableWriter) (entries : ℕ)
      (f g : TableWriter → Result (Unit {0}) × (TableWriter × ℕ))
      → ((wr' : TableWriter) → f wr' ≡ g wr')
      → ◌≡◌ {A = Result (Unit {0}) × (TableWriter × ℕ)}
          (elim added as (λ o. Result (Unit {0}) × (TableWriter × ℕ)) [
            | fault cause ↦ (fault cause, (wr, entries))
            | err code ↦ (err code, (wr, entries))
            | ok wr' ↦ f wr'
          ])
          (elim added as (λ o. Result (Unit {0}) × (TableWriter × ℕ)) [
            | fault cause ↦ (fault cause, (wr, entries))
            | err code ↦ (err code, (wr, entries))
            | ok wr' ↦ g wr'
          ])
  after_add (fault cause) wr entries f g h = refl
  after_add (err code) wr entries f g h = refl
  after_add (ok wr') wr entries f g h = h wr'

  -- Over an iterator that gives the refs, on fuel for all of them, the loop over the refs of stack_write_compact makes
  -- one call of the writer for each ref, in their order, but none for a deletion where the range starts at the oldest
  -- table; it stops at the first call that fails.
  pub compact_refs-kept :
      (fuel first : ℕ) (it : MergedIter S) (r : RefRecord) (wr : TableWriter) (entries : ℕ)
      (refs : List RefRecord)
      → Gives (merged_iter_next_void env.next env.merge_fuel) block_type_ref it (records_of refs)
      → length refs < fuel
      → compact_refs env fuel first it r wr entries ≡ add_each (kept first refs) wr entries
  unfolding compact_refs add_each
  compact_refs-kept zero first it r wr entries refs g h = absurd (omega arith)
  compact_refs-kept (suc fuel) first it r wr entries [] g h = rw (compact_refs, next_ref-end it r g)
  compact_refs-kept (suc fuel) first it r wr entries (x ∷ refs) g h =
      let (it', read, rest) = next_ref-Gives it r x refs g in
      elim (Bool-cases (first == 0 && record_is_deletion (ref x))) [
        | inl dropped ↦
            rw (compact_refs, read, dropped)
              (compact_refs-kept fuel first it' x wr entries refs rest (omega arith))
        | inr written ↦
            rw (compact_refs, read, written)
              (after_add (reftable_writer_add_ref append_bytes env.compress2 env.first_cap wr x) wr
                entries (λ wr'. compact_refs env fuel first it' x wr' (entries + 1))
                (λ wr'. add_each (kept first refs) wr' (entries + 1))
                (λ wr'.
                  compact_refs-kept fuel first it' x wr' (entries + 1) refs rest (omega arith)))
      ]
