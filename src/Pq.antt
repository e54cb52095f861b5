-- ===== src/Pq.antt =====
-- struct pq_entry and struct merged_iter_pqueue of c/pq.h, and the functions of c/pq.c. The queue is the
-- list of its first `len` entries; `cap` belongs to the management of memory. Every read below the root is
-- behind a test of its index in C, and here falls back to `blank`.
pub mod Order
pub mod Array
pub mod Up
pub mod Down
pub mod Heap
mod Examples
use Prim.Native.Nat.Ordering.{lt, eq, gt}
use reftable.Base.{
  ℕ, zero, suc, ◌+◌, ◌-◌, ◌*◌, ◌/◌, List, [], ◌∷◌, ◌++◌, Bool, true, false, ltb, ◌==◌,
  if◌then◌else◌, ◌&&◌, Result, ok, fault, out_of_bounds, out_of_fuel, load, length, get_or, set,
  take, ◌>>=◌,
}
use reftable.Basics.Bytes.{strbuf_cmp}
use reftable.Record.Types.{Record, ref, RefRecord, RefValue}
use reftable.Record.Any.{record_key}

-- `idx` is the field `index`.
pub record PqEntry : Type 0 where
  pub idx : ℕ
  pub rec : Record

abbrev pub blank : PqEntry
blank = record {
  idx = 0;
  rec = ref (record { refname = []; update_index = 0; value = RefValue.deletion });
}

-- By key, and the later table first where the keys are the same.
unfoldable pub pq_less : PqEntry → PqEntry → Bool
pq_less a b = elim (strbuf_cmp (record_key a.rec) (record_key b.rec)) [
  | eq ↦ ltb b.idx a.idx
  | lt ↦ true
  | gt ↦ false
]

abbrev pub at : List PqEntry → ℕ → PqEntry
at heap i = get_or heap i blank

-- SWAP(heap[i], heap[j])
unfoldable pub swap : List PqEntry → ℕ → ℕ → List PqEntry
swap heap i j = set (set heap i (at heap j)) j (at heap i)

unfoldable pub merged_iter_pqueue_top : List PqEntry → Result PqEntry
merged_iter_pqueue_top heap = load heap 0

unfoldable pub merged_iter_pqueue_is_empty : List PqEntry → Bool
merged_iter_pqueue_is_empty heap = length heap == 0

-- The least of entry i and its children, as the two tests find it.
unfoldable pub min_child : List PqEntry → ℕ → ℕ
min_child heap i =
    let j = 2 * i + 1 in
    let k = 2 * i + 2 in
    let min = if ltb j (length heap) && pq_less (at heap j) (at heap i) then j else i in
    if ltb k (length heap) && pq_less (at heap k) (at heap min) then k else min

-- The `while (i < pq->len)` of the removal.
pub sift_down : ℕ → List PqEntry → ℕ → Result (List PqEntry)
unfolding min_child
sift_down zero heap i = fault out_of_fuel
sift_down (suc fuel) heap i =
    let min = min_child heap i in
    let rest = sift_down fuel (swap heap i min) min in
    if ltb i (length heap) then (if min == i then ok heap else rest) else ok heap

-- The first entry, and the queue without it: the last entry takes its place.
unfoldable pub merged_iter_pqueue_remove : List PqEntry → Result (PqEntry × List PqEntry)
unfolding sift_down
merged_iter_pqueue_remove heap = do
  e ← load heap 0
  let last = length heap - 1
  let moved = take last (set heap 0 (at heap last))
  heap' ← sift_down (length moved + 1) moved 0
  ok (e, heap')

-- The `while (i > 0)` of the insertion.
pub sift_up : ℕ → List PqEntry → ℕ → Result (List PqEntry)
sift_up zero heap i = fault out_of_fuel
sift_up (suc fuel) heap i =
    let j = (i - 1) / 2 in
    let rest = sift_up fuel (swap heap j i) j in
    if i == 0 then ok heap else if pq_less (at heap j) (at heap i) then ok heap else rest

unfoldable pub merged_iter_pqueue_add : List PqEntry → PqEntry → Result (List PqEntry)
unfolding sift_up
merged_iter_pqueue_add heap e = sift_up (length heap + 1) (heap ++ (e ∷ [])) (length heap)
