-- ===== src/Merged/Advance.antt =====
-- merged_iter_advance_subiter: what the iterator holds stays in step with what the sub-iterators give.
use mathlib.Core.List.{Perm}
use mathlib.Core.List.Perm
use reftable.Base.{
  ℕ, zero, suc, ◌<◌, ◌≡◌, refl, subst, ap, ◌∙◌, List, [], ◌∷◌, ◌++◌, Bool, Option, some, none,
  Result, ok, load, length, get_elem?, set, All, arith,
}
use reftable.Record.Types.{Record}
use reftable.Record.Any.{new_record}
use reftable.Generic.{hash_size}
use reftable.Pq.{PqEntry, merged_iter_pqueue_remove, merged_iter_pqueue_top}
use reftable.Pq.Order.{Precedes, Precedes-prop}
use reftable.Pq.Up.{IsHeap}
use reftable.Pq.Heap.{merged_iter_pqueue_add-IsHeap, merged_iter_pqueue_remove-IsHeap}
use reftable.Merged.{MergedIter, merged_iter_advance_nonnull_subiter, merged_iter_advance_subiter}
use reftable.Merged.Heads.{
  All-perm, entry, heads, front_of, heads-split, front-get, Fronts, Fronts-prop, heads-Fronts,
}

module _ {S : Type 0} (next : S → Record → Result (Option (Record × S))) (rec0 : Record) where
  -- The sub-iterator gives these records, each read over a new record, and then its end.
  abbrev pub Drains : S → List Record → Type 0
  Drains s [] = next s rec0 ≡ ok none
  Drains s (r ∷ rs) = (s' : S) × (next s rec0 ≡ ok (some (r, s'))) × Drains s' rs

  -- A list of which the first record is in the queue and the sub-iterator has the others.
  abbrev pub Feeds : Option S → List Record → Type 0
  Feeds o [] = o ≡ none
  Feeds o (r ∷ rs) = (s : S) × (o ≡ some s) × Drains s rs

  abbrev pub Live : List (Option S) → List (List Record) → Type 0
  Live [] [] = Unit {0}
  Live [] (l ∷ lists) = ⊥
  Live (o ∷ stack) [] = ⊥
  Live (o ∷ stack) (l ∷ lists) = Feeds o l × Live stack lists

  Live-get :
      (stack : List (Option S)) (lists : List (List Record)) (n : ℕ) (r : Record) (rs : List Record)
      → Live stack lists
      → get_elem? lists n ≡ some (r ∷ rs)
      → (s : S) × (get_elem? stack n ≡ some (some s)) × Drains s rs
  Live-get [] [] n r rs v h = cc
  Live-get [] (l ∷ lists) n r rs v h = absurd v
  Live-get (o ∷ stack) [] n r rs v h = absurd v
  Live-get (o ∷ stack) ([] ∷ lists) zero r rs v h = cc
  Live-get (o ∷ stack) ((q ∷ qs) ∷ lists) zero r rs ((s, e, d), v) h =
      let same : qs ≡ rs = cc in (s, ap some e, subst (Drains s) same d)
  Live-get (o ∷ stack) (l ∷ lists) (suc n) r rs (f, v) h = Live-get stack lists n r rs v h

  Live-set :
      (stack : List (Option S)) (lists : List (List Record)) (n : ℕ) (o : Option S)
      (l : List Record)
      → Live stack lists
      → Feeds o l
      → Live (set stack n o) (set lists n l)
  Live-set [] [] n o l v f = tt
  Live-set [] (k ∷ lists) n o l v f = absurd v
  Live-set (p ∷ stack) [] n o l v f = absurd v
  Live-set (p ∷ stack) (k ∷ lists) zero o l (g, v) f = (f, v)
  Live-set (p ∷ stack) (k ∷ lists) (suc n) o l (g, v) f = (g, Live-set stack lists n o l v f)

  module _ (size typ : ℕ) (suppress : Bool) where
    -- The iterator has these records of each table still to give.
    pub record Holds (mi : MergedIter S) (lists : List (List Record)) : Type 0 where
      pub live : Live mi.stack lists
      pub queued : Perm mi.pq (heads 0 lists)
      pub ordered : IsHeap mi.pq
      pub hashed : hash_size mi.hash_id ≡ ok size
      pub typed : mi.typ ≡ typ
      pub suppressed : mi.suppress_deletions ≡ suppress

    -- The other fields are those of the one before.
    advanced :
        (lists : List (List Record)) (e : PqEntry) (rs : List Record) (mi : MergedIter S)
        → new_record typ ≡ ok rec0
        → Live mi.stack lists
        → get_elem? lists e.idx ≡ some (e.rec ∷ rs)
        → (others : List PqEntry) → Perm mi.pq others
        → Perm (heads 0 (set lists e.idx rs)) (front_of e.idx rs ++ others)
        → IsHeap mi.pq
        → hash_size mi.hash_id ≡ ok size
        → mi.typ ≡ typ
        → mi.suppress_deletions ≡ suppress
        → (mi' : MergedIter S) × (merged_iter_advance_subiter next mi e.idx ≡ ok mi')
          × Holds mi' (set lists e.idx rs)
    unfolding merged_iter_advance_subiter merged_iter_advance_nonnull_subiter
    advanced lists e [] mi fresh live at_e others left all order hs ty su =
        let (s, in_stack, ends) = Live-get mi.stack lists e.idx e.rec [] live at_e in
        (
          record mi { stack = set mi.stack e.idx none },
          rw (load, in_stack, ap new_record ty ∙ fresh, ends),
          record {
            live = Live-set mi.stack lists e.idx none [] live refl;
            queued = Perm.trans left (Perm.symm all);
            ordered = order;
            hashed = hs;
            typed = ty;
            suppressed = su;
          },
        )
    advanced lists e (r ∷ rs) mi fresh live at_e others left all order hs ty su =
        let (s, in_stack, (s', gives, after)) =
          Live-get mi.stack lists e.idx e.rec (r ∷ rs) live at_e in
        let (pq', added, order', same) =
          merged_iter_pqueue_add-IsHeap mi.pq (entry e.idx r) order in
        (
          record mi { stack = set mi.stack e.idx (some s'); pq = pq' },
          rw (load, in_stack, ap new_record ty ∙ fresh, gives, added),
          record {
            live = Live-set mi.stack lists e.idx (some s') (r ∷ rs) live (s', refl, after);
            queued = Perm.trans same (Perm.trans (Perm.cons (entry e.idx r) left) (Perm.symm all));
            ordered = order';
            hashed = hs;
            typed = ty;
            suppressed = su;
          },
        )

    -- The entry at the top is taken out, and its sub-iterator is asked for the next.
    pub take_top :
        (mi : MergedIter S) (lists : List (List Record))
        → new_record typ ≡ ok rec0
        → Holds mi lists
        → 0 < length mi.pq
        → (e : PqEntry) × (pq' : List PqEntry) × (rs : List Record) × (mi' : MergedIter S)
          × (merged_iter_pqueue_top mi.pq ≡ ok e)
          × (merged_iter_pqueue_remove mi.pq ≡ ok (e, pq'))
          × (get_elem? lists e.idx ≡ some (e.rec ∷ rs))
          × All (Precedes e) (heads 0 lists)
          × (merged_iter_advance_subiter next (record mi { pq = pq' }) e.idx ≡ ok mi')
          × Holds mi' (set lists e.idx rs)
    take_top mi lists fresh h pos =
        let (e, pq', top, removed, order, same, least) =
          merged_iter_pqueue_remove-IsHeap mi.pq h.ordered pos in
        let all = Perm.trans same h.queued in
        let (e_front, _) =
          All-perm (Fronts lists) (heads 0 lists) (e ∷ pq') (Fronts-prop lists) (Perm.symm all)
            (heads-Fronts lists) in
        let (rs, at_e) = front-get lists e.idx e.rec e_front in
        let (others, whole, less) = heads-split 0 e.idx e.idx lists e.rec rs (omega arith) at_e in
        let (mi', run, holds) =
          advanced lists e rs (record mi { pq = pq' }) fresh h.live at_e others
            (Perm.cons_inv (Perm.trans all whole)) less order h.hashed h.typed h.suppressed in
        (
          e,
          pq',
          rs,
          mi',
          top,
          removed,
          at_e,
          All-perm (Precedes e) mi.pq (heads 0 lists) (Precedes-prop e) h.queued least,
          run,
          holds,
        )
