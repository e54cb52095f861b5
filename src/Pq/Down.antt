-- ===== src/Pq/Down.antt =====
-- The loop of merged_iter_pqueue_remove.
use mathlib.Core.List.Perm
use reftable.Base.{
  ℕ, zero, suc, ◌+◌, ◌-◌, ◌*◌, ◌<◌, ◌≡◌, ◌≢◌, refl, List, ltb, ◌==◌, if◌then◌else◌, length, arith,
  Bool-cases, inl, inr, ◌⊎◌,
}
use reftable.Pq.{PqEntry, at, swap, min_child, sift_down}
use reftable.Pq.Order.{Precedes, Precedes-trans, Precedes-total, Precedes-refl}
use reftable.Pq.Array.{at-swap, length-swap}
use reftable.Pq.Up.{parent, IsHeap, Sifted, Sifted-swap}

-- Only the edges below `i` may be out of order.
pub record DownInv (heap : List PqEntry) (i : ℕ) : Type 0 where
  pub edges :
      (c : ℕ) → 0 < c → c < length heap → parent c ≢ i → Precedes (at heap (parent c)) (at heap c)
  pub bridged :
      (c : ℕ)
      → 0 < c
      → c < length heap
      → parent c ≡ i
      → 0 < i
      → Precedes (at heap (parent i)) (at heap c)

-- `m` is `i` or a child, and stands in front of `i` and of its children.
record IsLeast (heap : List PqEntry) (i m : ℕ) : Type 0 where
  inside : m < length heap
  near : (m ≡ i) ⊎ ((0 < m) × (parent m ≡ i))
  own : Precedes (at heap m) (at heap i)
  left : 2 * i + 1 < length heap → Precedes (at heap m) (at heap (2 * i + 1))
  right : 2 * i + 2 < length heap → Precedes (at heap m) (at heap (2 * i + 2))

module _ (heap : List PqEntry) (i : ℕ) (h : i < length heap) where
  min_child-IsLeast : IsLeast heap i (min_child heap i)
  unfolding min_child
  min_child-IsLeast =
      let j = 2 * i + 1 in
      let k = 2 * i + 2 in
      record {
        inside = ground arith;
        near = ground arith;
        own = ground (
          arith,
          Precedes-refl (at heap i),
          Precedes-total (at heap j) (at heap i),
          Precedes-total (at heap k) (at heap i),
          Precedes-total (at heap k) (at heap j),
          Precedes-trans (at heap k) (at heap j) (at heap i),
        );
        left = λ l. ground (
          arith,
          Precedes-refl (at heap j),
          Precedes-total (at heap k) (at heap j),
          Precedes-total (at heap k) (at heap i),
          Precedes-trans (at heap k) (at heap i) (at heap j),
        );
        right = λ l. ground (arith, Precedes-refl (at heap k));
      }

  least-child :
      (m c : ℕ)
      → IsLeast heap i m
      → 0 < c
      → c < length heap
      → parent c ≡ i
      → Precedes (at heap m) (at heap c)
  least-child m c s p q e = elim (Bool-cases (c == 2 * i + 1)) [
    | inl odd ↦ let at : c ≡ 2 * i + 1 = ground arith in rw at (s.left (omega arith))
    | inr even ↦ let at : c ≡ 2 * i + 2 = ground arith in rw at (s.right (omega arith))
  ]

module _ (heap : List PqEntry) (i m : ℕ) (v : DownInv heap i) (s : IsLeast heap i m) (other : m ≢ i)
    (inside : i < length heap) where
  abbrev heap' : List PqEntry
  heap' = swap heap i m

  moved :
      (c : ℕ) → at heap' c ≡ (if m == c then at heap i else if i == c then at heap m else at heap c)
  moved = at-swap heap i m inside s.inside

  child : (0 < m) × (parent m ≡ i)
  child = elim s.near [ inl same ↦ absurd (other same) | inr c ↦ c ]

  edge :
      (c : ℕ) → 0 < c → c < length heap → parent c ≢ m → Precedes (at heap' (parent c)) (at heap' c)
  edge c p q n = ground (
    arith,
    child,
    moved c,
    moved (parent c),
    v.edges c,
    v.bridged m,
    s.own,
    least-child heap i inside m c s p q,
  )

  bridge :
      (c : ℕ)
      → 0 < c
      → c < length heap
      → parent c ≡ m
      → 0 < m
      → Precedes (at heap' (parent m)) (at heap' c)
  bridge c p q e z = ground (arith, child, moved c, moved (parent m), v.edges c)

  swap-DownInv : DownInv heap' m
  swap-DownInv = record {
    edges = λ c p q n. edge c p (omega (arith, length-swap heap i m inside s.inside)) n;
    bridged = λ c p q e z. bridge c p (omega (arith, length-swap heap i m inside s.inside)) e z;
  }

settled-IsHeap :
    (heap : List PqEntry) (i : ℕ)
    → DownInv heap i
    → i < length heap
    → IsLeast heap i i
    → IsHeap heap
settled-IsHeap heap i v h s c p q = elim (Bool-cases (parent c == i)) [
  | inl below ↦ let at : parent c ≡ i = ground arith in rw at (least-child heap i h i c s p q at)
  | inr aside ↦ v.edges c p q (ground arith)
]

pub sift_down-Sifted :
    (fuel : ℕ) (heap : List PqEntry) (i : ℕ)
    → length heap - i < fuel
    → DownInv heap i
    → Sifted heap (sift_down fuel heap i)
unfolding sift_down
sift_down-Sifted zero heap i f v = absurd (omega arith)
sift_down-Sifted (suc fuel) heap i f v = elim (Bool-cases (ltb i (length heap))) [
  | inr past ↦ rw past (heap, refl, (λ c p q. v.edges c p q (ground arith)), Perm.refl heap)
  | inl in' ↦
      let h : i < length heap = ground arith in
      let m = min_child heap i in
      let s = min_child-IsLeast heap i h in
      elim (Bool-cases (m == i)) [
        | inl settled ↦
            let same : m ≡ i = ground arith in
            rw (in', settled) (heap, refl, settled-IsHeap heap i v h (rw same at s), Perm.refl heap)
        | inr go ↦
            let other : m ≢ i = ground arith in
            rw (in', go)
              (Sifted-swap heap i m (sift_down fuel (swap heap i m) m) h s.inside (
                sift_down-Sifted fuel (swap heap i m) m
                  (let size = length-swap heap i m h s.inside in
                    let below = child heap i m v s other h in omega (arith, below, size))
                  (swap-DownInv heap i m v s other h)))
      ]
]
