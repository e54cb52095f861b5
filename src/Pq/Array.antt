-- ===== src/Pq/Array.antt =====
-- Entries after a swap, and what a permutation keeps.
use mathlib.Core.List.{Perm, perm_middle, append-nil}
use mathlib.Core.List.Perm
use reftable.Base.{
  ℕ, zero, suc, ◌<◌, ◌≡◌, refl, ap, ◌∙◌, List, [], ◌∷◌, ◌++◌, ◌==◌, if◌then◌else◌, length,
  length-set, set, take, arith,
}
use reftable.Pq.{PqEntry, at, swap}

at-set :
    (heap : List PqEntry) (i c : ℕ) (v : PqEntry)
    → i < length heap
    → at (set heap i v) c ≡ (if i == c then v else at heap c)
at-set [] i c v h = absurd (omega arith)
at-set (x ∷ heap) zero zero v h = refl
at-set (x ∷ heap) zero (suc c) v h = ground arith
at-set (x ∷ heap) (suc i) zero v h = ground arith
at-set (x ∷ heap) (suc i) (suc c) v h = ground (arith, at-set heap i c v)

-- The entry that is written over, beside the new list, against the new entry beside the old one.
set-perm :
    (heap : List PqEntry) (i : ℕ) (v : PqEntry)
    → i < length heap
    → Perm (at heap i ∷ set heap i v) (v ∷ heap)
set-perm [] i v h = absurd (omega arith)
set-perm (x ∷ heap) zero v h = Perm.swap v x heap
set-perm (x ∷ heap) (suc i) v h =
    Perm.trans (Perm.swap x (at heap i) (set heap i v))
      (Perm.trans (Perm.cons x (set-perm heap i v (omega arith))) (Perm.swap v x heap))

module _ (heap : List PqEntry) (i j : ℕ) (hi : i < length heap) (hj : j < length heap) where
  pub at-swap :
      (c : ℕ)
      → at (swap heap i j) c
        ≡ (if j == c then at heap i else if i == c then at heap j else at heap c)
  unfolding swap
  at-swap c = rw (
    at-set (set heap i (at heap j)) j c (at heap i) (omega (arith, length-set heap i (at heap j))),
    at-set heap i c (at heap j) hi,
  )

  pub length-swap : length (swap heap i j) ≡ length heap
  unfolding swap
  length-swap = length-set (set heap i (at heap j)) j (at heap i) ∙ length-set heap i (at heap j)

  pub swap-perm : Perm (swap heap i j) heap
  unfolding swap
  swap-perm =
      let one = set heap i (at heap j) in
      let same : at one j ≡ at heap j = ground (arith, at-set heap i j (at heap j)) in
      let second = set-perm one j (at heap i) (omega (arith, length-set heap i (at heap j))) in
      Perm.cons_inv (Perm.trans (rw same at second) (set-perm heap i (at heap j) hi))

pub at-append :
    (heap more : List PqEntry) (i : ℕ) → i < length heap → at (heap ++ more) i ≡ at heap i
at-append [] more i h = absurd (omega arith)
at-append (x ∷ heap) more zero h = refl
at-append (x ∷ heap) more (suc i) h = at-append heap more i (omega arith)

pub at-take : (n : ℕ) (heap : List PqEntry) (i : ℕ) → i < n → at (take n heap) i ≡ at heap i
at-take zero heap i h = absurd (omega arith)
at-take (suc n) [] i h = refl
at-take (suc n) (x ∷ heap) zero h = refl
at-take (suc n) (x ∷ heap) (suc i) h = at-take n heap i (omega arith)

pub snoc-perm : (heap : List PqEntry) (e : PqEntry) → Perm (heap ++ (e ∷ [])) (e ∷ heap)
snoc-perm heap e = rw (append-nil heap) at (perm_middle {a = e} heap [])

take-snoc :
    (n : ℕ) (rest : List PqEntry) → length rest ≡ suc n → take n rest ++ (at rest n ∷ []) ≡ rest
take-snoc n [] h = absurd (omega arith)
take-snoc zero (x ∷ []) h = refl
take-snoc zero (x ∷ y ∷ rest) h = absurd (omega arith)
take-snoc (suc n) (x ∷ rest) h = ap (◌∷◌ x) (take-snoc n rest (omega arith))

-- The first entry aside and the last one moved into its place: the same entries.
pub moved-perm :
    (e : PqEntry) (rest : List PqEntry) (last : ℕ)
    → length rest ≡ last
    → Perm (e ∷ take last (set (e ∷ rest) 0 (at (e ∷ rest) last))) (e ∷ rest)
moved-perm e [] zero h = Perm.refl (e ∷ [])
moved-perm e (x ∷ rest) zero h = absurd (omega arith)
moved-perm e rest (suc n) h =
    Perm.cons e (rw (take-snoc n rest h) at (Perm.symm (snoc-perm (take n rest) (at rest n))))
