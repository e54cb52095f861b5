-- ===== src/Pq/Heap.antt =====
-- The operations of the queue: what stands at the root, what is added and what is left.
use mathlib.Core.List.{Perm}
use mathlib.Core.List.Perm
use reftable.Base.{
  ℕ, zero, suc, ◌+◌, ◌-◌, ◌<◌, ◌≡◌, refl, ◌∙◌, List, [], ◌∷◌, ◌++◌, ◌==◌, ok, length, length-append,
  length-take, set, take, All, arith, Bool-cases, inl, inr,
}
use reftable.Pq.{
  PqEntry, at, merged_iter_pqueue_add, merged_iter_pqueue_remove, merged_iter_pqueue_top,
}
use reftable.Pq.Order.{Precedes, Precedes-trans, Precedes-refl}
use reftable.Pq.Array.{at-append, at-take, snoc-perm, moved-perm}
use reftable.Pq.Up.{parent, IsHeap, UpInv, sift_up-Sifted}
use reftable.Pq.Down.{DownInv, sift_down-Sifted}

-- The root stands in front of every entry.
root-Precedes :
    (fuel : ℕ) (heap : List PqEntry) (c : ℕ)
    → IsHeap heap
    → c < fuel
    → c < length heap
    → Precedes (at heap 0) (at heap c)
root-Precedes zero heap c h f q = absurd (omega arith)
root-Precedes (suc fuel) heap c h f q = elim (Bool-cases (c == 0)) [
  | inl root ↦ let same : c ≡ 0 = ground arith in rw same (Precedes-refl (at heap 0))
  | inr inner ↦
      Precedes-trans (at heap 0) (at heap (parent c)) (at heap c)
        (root-Precedes fuel heap (parent c) h (ground arith) (ground arith)) (h c (ground arith) q)
]

all_at :
    (P : PqEntry → Type 0) (heap : List PqEntry)
    → ((c : ℕ) → c < length heap → P (at heap c))
    → All P heap
all_at P [] f = tt
all_at P (x ∷ heap) f = (f 0 (omega arith), all_at P heap (λ c h. f (suc c) (omega arith)))

pub root-least : (heap : List PqEntry) → IsHeap heap → All (Precedes (at heap 0)) heap
root-least heap h =
    all_at (Precedes (at heap 0)) heap (λ c q. root-Precedes (suc c) heap c h (omega arith) q)

-- An entry that is added to a heap gives a heap of the entries before and the new one.
pub merged_iter_pqueue_add-IsHeap :
    (heap : List PqEntry) (e : PqEntry)
    → IsHeap heap
    → (heap' : List PqEntry) × (merged_iter_pqueue_add heap e ≡ ok heap')
      × IsHeap heap'
      × Perm heap' (e ∷ heap)
unfolding merged_iter_pqueue_add
merged_iter_pqueue_add-IsHeap heap e h =
    let size = length-append heap (e ∷ []) in
    let start : UpInv (heap ++ (e ∷ [])) (length heap) = record {
      edges = λ c p q n.
          rw
            (
              at-append heap (e ∷ []) c (omega arith),
              at-append heap (e ∷ []) (parent c) (omega arith),
            )
            (h c p (omega arith));
      bridged = λ c p q z o. absurd (omega arith);
    } in
    let (heap', run, order, same) =
      sift_up-Sifted (length heap + 1) (heap ++ (e ∷ [])) (length heap) (omega arith) (omega arith)
        start in
    (heap', run, order, Perm.trans same (snoc-perm heap e))

at-tail : (x y : PqEntry) (rest : List PqEntry) (c : ℕ) → 0 < c → at (x ∷ rest) c ≡ at (y ∷ rest) c
at-tail x y rest zero h = absurd (omega arith)
at-tail x y rest (suc c) h = refl

-- From a heap that is not empty, the removal answers the top, which stands in front of all the entries,
-- and leaves a heap of the others.
pub merged_iter_pqueue_remove-IsHeap :
    (heap : List PqEntry)
    → IsHeap heap
    → 0 < length heap
    → (e : PqEntry) × (heap' : List PqEntry) × (merged_iter_pqueue_top heap ≡ ok e)
      × (merged_iter_pqueue_remove heap ≡ ok (e, heap'))
      × IsHeap heap'
      × Perm (e ∷ heap') heap
      × All (Precedes e) heap
unfolding merged_iter_pqueue_remove merged_iter_pqueue_top
merged_iter_pqueue_remove-IsHeap [] h pos = absurd (omega arith)
merged_iter_pqueue_remove-IsHeap (e ∷ rest) h pos =
    let last = length (e ∷ rest) - 1 in
    let small : length rest ≡ last = omega arith in
    let moved = take last (set (e ∷ rest) 0 (at (e ∷ rest) last)) in
    let size : length moved ≡ last =
      omega (arith, length-take last (set (e ∷ rest) 0 (at (e ∷ rest) last))) in
    let kept : (c : ℕ) → 0 < c → c < last → at moved c ≡ at (e ∷ rest) c = λ c p q.
      at-take last (at (e ∷ rest) last ∷ rest) c q ∙ at-tail (at (e ∷ rest) last) e rest c p in
    let start : DownInv moved 0 = record {
      edges = λ c p q n.
          rw (kept c p (omega (arith, size)), kept (parent c) (omega arith) (omega (arith, size)))
            (h c p (omega (arith, size)));
      bridged = λ c p q z o. absurd (omega arith);
    } in
    let (heap', run, order, same) =
      sift_down-Sifted (length moved + 1) moved 0 (omega arith) start in
    (
      e,
      heap',
      refl,
      rw run,
      order,
      Perm.trans (Perm.cons e same) (moved-perm e rest last small),
      root-least (e ∷ rest) h,
    )
