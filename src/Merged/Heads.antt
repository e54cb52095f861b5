-- ===== src/Merged/Heads.antt =====
-- The sub-iterators as lists: what each still has to give, and the queue of their first records.
use mathlib.Core.Logic.{∥∥₁_elim}
use mathlib.Core.HLevel.{×_prop}
use mathlib.Core.List.{Perm, Permᴰ, perm_middle}
use mathlib.Core.List.Perm
use reftable.Base.{
  ℕ, zero, suc, ◌+◌, ◌≡◌, subst, ap, ◌∙◌, List, [], ◌∷◌, ◌++◌, Option, some, none, get_elem?, set,
  All, arith,
}
use reftable.Record.Types.{Record}
use reftable.Pq.{PqEntry}

All-permᴰ : (P : PqEntry → Type 0) {xs ys : List PqEntry} → Permᴰ xs ys → All P xs → All P ys
All-permᴰ P Permᴰ.nil h = h
All-permᴰ P (Permᴰ.cons x p) (a, h) = (subst P x a, All-permᴰ P p h)
All-permᴰ P (Permᴰ.swap x y) (a, (b, h)) = (subst P y b, (subst P x a, h))
All-permᴰ P (Permᴰ.trans p q) h = All-permᴰ P q (All-permᴰ P p h)

All-prop :
    (P : PqEntry → Type 0)
    → ((e : PqEntry) → IsProp (P e))
    → (xs : List PqEntry) → IsProp (All P xs)
All-prop P prop [] = hlevel
All-prop P prop (x ∷ xs) = ×_prop (prop x) (All-prop P prop xs)

pub All-perm :
    (P : PqEntry → Type 0) (xs ys : List PqEntry)
    → ((e : PqEntry) → IsProp (P e))
    → Perm xs ys
    → All P xs
    → All P ys
All-perm P xs ys prop p h = ∥∥₁_elim p (All-prop P prop ys) (λ q. All-permᴰ P q h)

abbrev pub entry : ℕ → Record → PqEntry
entry i r = record { idx = i; rec = r }

abbrev pub front_of : ℕ → List Record → List PqEntry
front_of i [] = []
front_of i (r ∷ rs) = entry i r ∷ []

-- The first record of each list, with the number of the list.
unfoldable pub heads : ℕ → List (List Record) → List PqEntry
heads i [] = []
heads i (rs ∷ lists) = front_of i rs ++ heads (i + 1) lists

-- The list at `n` and the others.
pub heads-split :
    (i j n : ℕ) (lists : List (List Record)) (r : Record) (rs : List Record)
    → i + n ≡ j
    → get_elem? lists n ≡ some (r ∷ rs)
    → (others : List PqEntry) × Perm (heads i lists) (entry j r ∷ others)
      × Perm (heads i (set lists n rs)) (front_of j rs ++ others)
unfolding heads
heads-split i j n [] r rs e h = cc
heads-split i j zero ([] ∷ lists) r rs e h = cc
heads-split i j zero ((q ∷ qs) ∷ lists) r rs e h =
    let here : i ≡ j = omega arith in
    let same : (q ∷ qs) ≡ (r ∷ rs) = cc in
    let at_q : q ≡ r = cc in rw (at_q, here) (heads (j + 1) lists, Perm.rfl, Perm.rfl)
heads-split i j (suc n) ([] ∷ lists) r rs e h = heads-split (i + 1) j n lists r rs (omega arith) h
heads-split i j (suc n) ((q ∷ qs) ∷ lists) r rs e h =
    let (others, whole, less) = heads-split (i + 1) j n lists r rs (omega arith) h in
    (
      entry i q ∷ others,
      Perm.trans (Perm.cons (entry i q) whole) (Perm.swap (entry j r) (entry i q) others),
      Perm.trans (Perm.cons (entry i q) less) (Perm.symm (perm_middle (front_of j rs) others)),
    )

abbrev pub first : List Record → Option Record
first [] = none
first (r ∷ rs) = some r

-- What stands first in the list at `n`.
abbrev pub front : List (List Record) → ℕ → Option Record
front [] n = none
front (l ∷ lists) zero = first l
front (l ∷ lists) (suc n) = front lists n

pub front-get :
    (lists : List (List Record)) (n : ℕ) (r : Record)
    → front lists n ≡ some r
    → (rs : List Record) × (get_elem? lists n ≡ some (r ∷ rs))
front-get [] n r h = absurd cc
front-get ([] ∷ lists) zero r h = absurd cc
front-get ((q ∷ qs) ∷ lists) zero r h = (qs, cc)
front-get (l ∷ lists) (suc n) r h = front-get lists n r h

-- An entry is the first record of the list that it names.
abbrev pub Fronts : List (List Record) → PqEntry → Type 0
Fronts lists e = front lists e.idx ≡ some e.rec

pub Fronts-prop : (lists : List (List Record)) (e : PqEntry) → IsProp (Fronts lists e)
Fronts-prop lists e = hlevel

All-append : (P : PqEntry → Type 0) (xs ys : List PqEntry) → All P xs → All P ys → All P (xs ++ ys)
All-append P [] ys h k = k
All-append P (x ∷ xs) ys (a, h) k = (a, All-append P xs ys h k)

heads-Fronts_at :
    (whole lists : List (List Record)) (i : ℕ)
    → ((n : ℕ) → front whole (i + n) ≡ front lists n)
    → All (Fronts whole) (heads i lists)
unfolding heads
heads-Fronts_at whole [] i agree = tt
heads-Fronts_at whole ([] ∷ lists) i agree =
    heads-Fronts_at whole lists (i + 1) (λ n. ap (front whole) (omega arith) ∙ agree (suc n))
heads-Fronts_at whole ((r ∷ rs) ∷ lists) i agree = (
  ap (front whole) (omega arith) ∙ agree 0,
  heads-Fronts_at whole lists (i + 1) (λ n. ap (front whole) (omega arith) ∙ agree (suc n)),
)

pub heads-Fronts : (lists : List (List Record)) → All (Fronts lists) (heads 0 lists)
heads-Fronts lists = heads-Fronts_at lists lists 0 (λ n. ap (front lists) (omega arith))
