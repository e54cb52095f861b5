-- ===== src/Merged/Init.antt =====
-- merged_iter_init: the queue starts with the first record of each sub-iterator.
use mathlib.Core.List.{Perm}
use mathlib.Core.List.Perm
use mathlib.Core.List.{perm_middle, append-nil}
use reftable.Base.{
  ℕ, ◌+◌, ◌≡◌, refl, subst, List, [], ◌∷◌, ◌++◌, Bool, Option, some, none, Result, ok, arith,
}
use reftable.Record.Types.{Record}
use reftable.Record.Any.{new_record}
use reftable.Generic.{hash_size}
use reftable.Pq.{PqEntry}
use reftable.Pq.Up.{IsHeap}
use reftable.Pq.Heap.{merged_iter_pqueue_add-IsHeap}
use reftable.Merged.{MergedIter, init_loop, merged_iter_init}
use reftable.Merged.Heads.{heads, entry}
use reftable.Merged.Advance.{Drains, Live, Holds}

module _ {S : Type 0} (next : S → Record → Result (Option (Record × S))) (rec0 : Record) where
  -- Each sub-iterator gives the records of its table.
  abbrev pub Sources : List S → List (List Record) → Type 0
  Sources [] [] = Unit {0}
  Sources [] (l ∷ lists) = ⊥
  Sources (s ∷ subs) [] = ⊥
  Sources (s ∷ subs) (l ∷ lists) = Drains next rec0 s l × Sources subs lists

  module _ (hash_id size typ : ℕ) (suppress : Bool) (sized : hash_size hash_id ≡ ok size)
      (fresh : new_record typ ≡ ok rec0) where
    init_loop-Live :
        (i : ℕ) (subs : List S) (lists : List (List Record)) (pq : List PqEntry)
        → Sources subs lists
        → IsHeap pq
        → (stack : List (Option S)) × (pq' : List PqEntry) × (init_loop next typ i subs pq
            ≡ ok (stack, pq'))
          × Live next rec0 stack lists
          × Perm pq' (heads i lists ++ pq)
          × IsHeap pq'
    unfolding init_loop heads
    init_loop-Live i [] [] pq v order = ([], pq, refl, tt, Perm.rfl, order)
    init_loop-Live i [] (l ∷ lists) pq v order = absurd v
    init_loop-Live i (s ∷ subs) [] pq v order = absurd v
    init_loop-Live i (s ∷ subs) ([] ∷ lists) pq (ends, v) order =
        let (stack, pq', run, live, same, order') = init_loop-Live (i + 1) subs lists pq v order in
        (none ∷ stack, pq', rw (fresh, ends, run), (refl, live), same, order')
    init_loop-Live i (s ∷ subs) ((r ∷ rs) ∷ lists) pq ((s', gives, after), v) order =
        let (added, add, order1, same1) = merged_iter_pqueue_add-IsHeap pq (entry i r) order in
        let (stack, pq', run, live, same, order') =
          init_loop-Live (i + 1) subs lists added v order1 in
        (
          some s' ∷ stack,
          pq',
          rw (fresh, gives, add, run),
          ((s', refl, after), live),
          Perm.trans same (
              Perm.trans (Perm.append_left (heads (i + 1) lists) same1)
                (perm_middle (heads (i + 1) lists) pq)),
          order',
        )

    pub merged_iter_init-Holds :
        (subs : List S) (lists : List (List Record))
        → Sources subs lists
        → (mi : MergedIter S) × (merged_iter_init next hash_id typ suppress subs ≡ ok mi)
          × Holds next rec0 size typ suppress mi lists
    unfolding merged_iter_init
    merged_iter_init-Holds subs lists v =
        let (stack, pq, run, live, same, order) =
          init_loop-Live 0 subs lists [] v (λ c p q. absurd (omega arith)) in
        (
          record {
            stack = stack;
            hash_id = hash_id;
            typ = typ;
            suppress_deletions = suppress;
            pq = pq;
          },
          rw run,
          record {
            live = live;
            queued = subst (Perm pq) (append-nil (heads 0 lists)) same;
            ordered = order;
            hashed = sized;
            typed = refl;
            suppressed = refl;
          },
        )
