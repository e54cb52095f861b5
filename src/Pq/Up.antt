-- ===== src/Pq/Up.antt =====
-- The loop of merged_iter_pqueue_add.
use mathlib.Core.List.{Perm}
use mathlib.Core.List.Perm
use reftable.Base.{
  ℕ, zero, suc, ◌-◌, ◌/◌, ◌<◌, ◌≡◌, ◌≢◌, refl, List, ◌==◌, if◌then◌else◌, Result, ok, length, arith,
  Bool-cases, inl, inr,
}
use reftable.Pq.{PqEntry, pq_less, at, swap, sift_up}
use reftable.Pq.Order.{Precedes, Precedes-trans, Precedes-total}
use reftable.Pq.Array.{at-swap, length-swap, swap-perm}

abbrev pub parent : ℕ → ℕ
parent c = (c - 1) / 2

-- No entry stands behind a child of its own.
abbrev pub IsHeap : List PqEntry → Type 0
IsHeap heap = (c : ℕ) → 0 < c → c < length heap → Precedes (at heap (parent c)) (at heap c)

-- What a sift makes of a queue: a heap of the same entries.
abbrev pub Sifted : List PqEntry → Result (List PqEntry) → Type 0
Sifted heap r = (heap' : List PqEntry) × (r ≡ ok heap') × IsHeap heap' × Perm heap' heap

pub Sifted-swap :
    (heap : List PqEntry) (i j : ℕ) (r : Result (List PqEntry))
    → i < length heap
    → j < length heap
    → Sifted (swap heap i j) r
    → Sifted heap r
Sifted-swap heap i j r hi hj (heap', e, order, same) =
    (heap', e, order, Perm.trans same (swap-perm heap i j hi hj))

-- Only the entry at `i` may stand behind its parent's place wrongly.
pub record UpInv (heap : List PqEntry) (i : ℕ) : Type 0 where
  pub edges : (c : ℕ) → 0 < c → c < length heap → c ≢ i → Precedes (at heap (parent c)) (at heap c)
  pub bridged :
      (c : ℕ)
      → 0 < c
      → c < length heap
      → parent c ≡ i
      → 0 < i
      → Precedes (at heap (parent i)) (at heap c)

module _ (heap : List PqEntry) (i : ℕ) (v : UpInv heap i) (pos : 0 < i) (inside : i < length heap)
    (less : Precedes (at heap i) (at heap (parent i))) where
  abbrev heap' : List PqEntry
  heap' = swap heap (parent i) i

  moved :
      (c : ℕ)
      → at heap' c
        ≡ (if i == c then at heap (parent i) else if parent i == c then at heap i else at heap c)
  moved = at-swap heap (parent i) i (omega arith) inside

  edge :
      (c : ℕ) → 0 < c → c < length heap → c ≢ parent i → Precedes (at heap' (parent c)) (at heap' c)
  edge c p q n = ground (
    arith,
    moved c,
    moved (parent c),
    v.edges c,
    v.bridged c,
    Precedes-trans (at heap i) (at heap (parent i)) (at heap c),
  )

  bridge :
      (c : ℕ)
      → 0 < c
      → c < length heap
      → parent c ≡ parent i
      → 0 < parent i
      → Precedes (at heap' (parent (parent i))) (at heap' c)
  bridge c p q e z = ground (
    arith,
    moved c,
    moved (parent (parent i)),
    v.edges c,
    v.edges (parent i),
    Precedes-trans (at heap (parent (parent i))) (at heap (parent i)) (at heap c),
  )

  swap-UpInv : UpInv heap' (parent i)
  swap-UpInv = record {
    edges =
        λ c p q n. edge c p (omega (arith, length-swap heap (parent i) i (omega arith) inside)) n;
    bridged = λ c p q e z.
        bridge c p (omega (arith, length-swap heap (parent i) i (omega arith) inside)) e z;
  }

pub sift_up-Sifted :
    (fuel : ℕ) (heap : List PqEntry) (i : ℕ)
    → i < fuel
    → i < length heap
    → UpInv heap i
    → Sifted heap (sift_up fuel heap i)
unfolding sift_up
sift_up-Sifted zero heap i f h v = absurd (omega arith)
sift_up-Sifted (suc fuel) heap i f h v = elim (Bool-cases (i == 0)) [
  | inl root ↦ rw root (heap, refl, (λ c p q. v.edges c p q (ground arith)), Perm.refl heap)
  | inr inner ↦ elim (Bool-cases (pq_less (at heap (parent i)) (at heap i))) [
    | inl done ↦
        rw (inner, done)
          (
            heap,
            refl,
            (λ c p q. ground (arith, v.edges c, Precedes-total (at heap (parent i)) (at heap i))),
            Perm.refl heap,
          )
    | inr go ↦
        let pos : 0 < i = ground arith in
        rw (inner, go)
          (Sifted-swap heap (parent i) i (sift_up fuel (swap heap (parent i) i) (parent i))
            (omega arith) h
            (sift_up-Sifted fuel (swap heap (parent i) i) (parent i) (omega arith)
              (omega (arith, length-swap heap (parent i) i (omega arith) h))
              (swap-UpInv heap i v pos h go)))
  ]
]
