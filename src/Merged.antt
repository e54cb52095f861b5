-- ===== src/Merged.antt =====
-- struct merged_iter of c/merged.h, and its functions in c/merged.c. `next` is the `next` of the iterators'
-- vtables: it is given an iterator and the record to read over, and `none` is the 1 of C, the end. An
-- iterator that reftable_iterator_destroy has made null is `none` in the stack.
pub mod Heads
pub mod Advance
pub mod Skip
pub mod Newest
pub mod First
pub mod Entry
pub mod Init
pub mod Table
pub mod Seek
pub mod ReadRef
pub mod Range
pub mod Refine
mod Examples
use Prim.Native.Nat.Ordering.{lt, eq, gt}
use reftable.Base.{
  ℕ, zero, suc, ◌+◌, List, [], ◌∷◌, Bool, true, false, if◌then◌else◌, ◌&&◌, Option, some, none,
  Result, ok, fault, out_of_fuel, ◌>>=◌, load, set,
}
use reftable.Basics.Bytes.{strbuf_cmp}
use reftable.Record.Types.{Record}
use reftable.Record.Any.{record_key, new_record, record_copy_from, record_is_deletion}
use reftable.Generic.{hash_size}
use reftable.Pq.{
  PqEntry, merged_iter_pqueue_add, merged_iter_pqueue_remove, merged_iter_pqueue_top,
  merged_iter_pqueue_is_empty,
}

-- `stack_len` is the length of the stack.
pub record MergedIter (S : Type 0) : Type 0 where
  pub stack : List (Option S)
  pub hash_id : ℕ
  pub typ : ℕ
  pub suppress_deletions : Bool
  pub pq : List PqEntry

module _ {S : Type 0} (next : S → Record → Result (Option (Record × S))) where
  -- The `for` of merged_iter_init from table i on.
  unfoldable pub init_loop : ℕ → ℕ → List S → List PqEntry → Result (List (Option S) × List PqEntry)
  init_loop typ i [] pq = ok ([], pq)
  init_loop typ i (s ∷ rest) pq = do
    rec ← new_record typ
    step ← next s rec
    elim step [
      | none ↦ (do (stack, pq') ← init_loop typ (i + 1) rest pq; ok (none ∷ stack, pq'))
      | some (r, s') ↦ (do
        added ← merged_iter_pqueue_add pq (record { idx = i; rec = r })
        (stack, pq') ← init_loop typ (i + 1) rest added
        ok (some s' ∷ stack, pq'))
    ]

  -- The iterator for the sub-iterators that a seek has left.
  unfoldable pub merged_iter_init : ℕ → ℕ → Bool → List S → Result (MergedIter S)
  unfolding init_loop
  merged_iter_init hash_id typ suppress_deletions stack = do
    (stack', pq) ← init_loop typ 0 stack []
    ok (record {
      stack = stack';
      hash_id = hash_id;
      typ = typ;
      suppress_deletions = suppress_deletions;
      pq = pq;
    })

  unfoldable pub merged_iter_advance_nonnull_subiter : MergedIter S → ℕ → S → Result (MergedIter S)
  merged_iter_advance_nonnull_subiter mi idx s = do
    rec ← new_record mi.typ
    step ← next s rec
    elim step [
      | none ↦ ok (record mi { stack = set mi.stack idx none })
      | some (r, s') ↦ (do
        pq' ← merged_iter_pqueue_add mi.pq (record { idx = idx; rec = r })
        ok (record mi { stack = set mi.stack idx (some s'); pq = pq' }))
    ]

  unfoldable pub merged_iter_advance_subiter : MergedIter S → ℕ → Result (MergedIter S)
  merged_iter_advance_subiter mi idx = do
    sub ← load mi.stack idx
    elim sub [ none ↦ ok mi | some s ↦ merged_iter_advance_nonnull_subiter mi idx s ]

  -- The `while`: the entries of older tables with the key, or a smaller one, are dropped.
  unfoldable pub skip_loop : ℕ → MergedIter S → List ℕ → Result (MergedIter S)
  skip_loop zero mi entry_key = fault out_of_fuel
  skip_loop (suc fuel) mi entry_key =
      let drop_top : Result (MergedIter S) = do
        top ← merged_iter_pqueue_top mi.pq
        elim (strbuf_cmp (record_key top.rec) entry_key) [
          | gt ↦ ok mi
          | _ ↦ (do
            (removed, pq') ← merged_iter_pqueue_remove mi.pq
            mi' ← merged_iter_advance_subiter (record mi { pq = pq' }) top.idx
            skip_loop fuel mi' entry_key)
        ]
      in if merged_iter_pqueue_is_empty mi.pq then ok mi else drop_top

  unfoldable pub merged_iter_next_entry :
      ℕ → MergedIter S → Record → Result (Option (Record × MergedIter S))
  unfolding skip_loop
  merged_iter_next_entry fuel mi rec =
      let read : Result (Option (Record × MergedIter S)) = do
        (entry, pq') ← merged_iter_pqueue_remove mi.pq
        mi1 ← merged_iter_advance_subiter (record mi { pq = pq' }) entry.idx
        mi2 ← skip_loop fuel mi1 (record_key entry.rec)
        size ← hash_size mi.hash_id
        rec' ← record_copy_from size rec entry.rec
        ok (some (rec', mi2))
      in if merged_iter_pqueue_is_empty mi.pq then ok none else read

  -- The `while (1)`: a deletion is passed over, if the iterator is to suppress them.
  unfoldable pub next_loop : ℕ → ℕ → MergedIter S → Record → Result (Option (Record × MergedIter S))
  unfolding merged_iter_next_entry
  next_loop zero fuel mi rec = fault out_of_fuel
  next_loop (suc rounds) fuel mi rec = do
    step ← merged_iter_next_entry fuel mi rec
    elim step [
      | none ↦ ok none
      | some (r, mi') ↦ elim (mi.suppress_deletions && record_is_deletion r) [
        | true ↦ next_loop rounds fuel mi' r
        | false ↦ ok (some (r, mi'))
      ]
    ]

  unfoldable pub merged_iter_next :
      ℕ → MergedIter S → Record → Result (Option (Record × MergedIter S))
  merged_iter_next fuel = next_loop (suc fuel) fuel

  unfoldable pub merged_iter_next_void :
      ℕ → MergedIter S → Record → Result (Option (Record × MergedIter S))
  merged_iter_next_void fuel mi rec =
      if merged_iter_pqueue_is_empty mi.pq then ok none else merged_iter_next fuel mi rec
