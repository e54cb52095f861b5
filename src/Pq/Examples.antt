-- ===== src/Pq/Examples.antt =====
-- Tests of the queue at two entries.
use mathlib.Core.List.{Perm}
use reftable.Base.{ℕ, zero, suc, ◌≡◌, refl, List, [], ◌∷◌, ok, All, arith}
use reftable.Record.Types.{RefValue, ref}
use reftable.Record.Ref.{ref_record_key}
use reftable.Record.Any.{record_key}
use reftable.Basics.Bytes.{strbuf_cmp, memcmp}
use reftable.Pq.{
  PqEntry, pq_less, merged_iter_pqueue_add, merged_iter_pqueue_remove, merged_iter_pqueue_top,
}
use reftable.Pq.Order.{Precedes}
use reftable.Pq.Up.{IsHeap}
use reftable.Pq.Heap.{merged_iter_pqueue_add-IsHeap, merged_iter_pqueue_remove-IsHeap}

abbrev named : ℕ → ℕ → PqEntry
named n i = record {
  idx = i;
  rec = ref (record { refname = n ∷ []; update_index = 1; value = RefValue.deletion });
}

-- The same name in two tables: the later table stands in front.
abbrev heap : List PqEntry
heap = named 97 1 ∷ named 97 0 ∷ []

heap-IsHeap : IsHeap heap
unfolding pq_less strbuf_cmp memcmp record_key ref_record_key
heap-IsHeap zero p q = absurd (omega arith)
heap-IsHeap (suc zero) p q = refl
heap-IsHeap (suc (suc c)) p q = absurd (omega arith)

merged_iter_pqueue_add-IsHeap_example :
    (heap' : List PqEntry) × (merged_iter_pqueue_add heap (named 98 0) ≡ ok heap')
    × IsHeap heap'
    × Perm heap' (named 98 0 ∷ heap)
merged_iter_pqueue_add-IsHeap_example = merged_iter_pqueue_add-IsHeap heap (named 98 0) heap-IsHeap

merged_iter_pqueue_remove-IsHeap_example :
    (e : PqEntry) × (heap' : List PqEntry) × (merged_iter_pqueue_top heap ≡ ok e)
    × (merged_iter_pqueue_remove heap ≡ ok (e, heap'))
    × IsHeap heap'
    × Perm (e ∷ heap') heap
    × All (Precedes e) heap
merged_iter_pqueue_remove-IsHeap_example =
    merged_iter_pqueue_remove-IsHeap heap heap-IsHeap (omega arith)
