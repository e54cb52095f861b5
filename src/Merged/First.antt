-- ===== src/Merged/First.antt =====
-- The entry at the top of the queue: its key is the least, and it is the newest record of it.
use Prim.Native.Nat.Ordering.{lt}
use reftable.Base.{
  ℕ, zero, suc, ◌+◌, ◌<◌, ◌≡◌, refl, subst, List, [], ◌∷◌, some, get_elem?, All, arith, ◌⊎◌, inl,
  inr,
}
use reftable.Basics.Bytes.{strcmp, strcmp_trans, strcmp_refl}
use reftable.Record.Types.{Record}
use reftable.Record.Any.{record_key}
use reftable.Pq.{PqEntry}
use reftable.Pq.Order.{Precedes, Precedes-keys}
use reftable.Merged.Heads.{heads, entry}
use reftable.Merged.Newest.{newest, Above, Ascending, Above-trans, newest-Above, find-eq}

-- The tables that stand from number i on are behind `e`, in the order of the queue.
module _ (e : PqEntry) where
  head-Above :
      (k : List ℕ) (r : Record) (i : ℕ)
      → (strcmp k (record_key e.rec) ≡ lt) ⊎ ((k ≡ record_key e.rec) × (e.idx < i))
      → Precedes e (entry i r)
      → Above k r
  head-Above k r i near p = elim (Precedes-keys e (entry i r) p) [
    | inl less ↦ elim near [
      | inl before ↦ strcmp_trans k (record_key e.rec) (record_key r) before less
      | inr (same, _) ↦ rw same less
    ]
    | inr (same, older) ↦ elim near [
      | inl before ↦ subst (λ key. strcmp k key ≡ lt) same before
      | inr (_, newer) ↦ absurd (omega arith)
    ]
  ]

  later :
      (k : List ℕ) (i : ℕ)
      → (strcmp k (record_key e.rec) ≡ lt) ⊎ ((k ≡ record_key e.rec) × (e.idx < i))
      → (strcmp k (record_key e.rec) ≡ lt) ⊎ ((k ≡ record_key e.rec) × (e.idx < i + 1))
  later k i (inl before) = inl before
  later k i (inr (same, newer)) = inr (same, omega arith)

  pub heads-Above :
      (k : List ℕ) (i : ℕ) (lists : List (List Record))
      → (strcmp k (record_key e.rec) ≡ lt) ⊎ ((k ≡ record_key e.rec) × (e.idx < i))
      → All Ascending lists
      → All (Precedes e) (heads i lists)
      → All (All (Above k)) lists
  unfolding heads
  heads-Above k i [] near sorted h = tt
  heads-Above k i ([] ∷ lists) near (_, sorted) h =
      (tt, heads-Above k (i + 1) lists (later k i near) sorted h)
  heads-Above k i ((r ∷ rs) ∷ lists) near ((a, _), sorted) (p, h) =
      let above = head-Above k r i near p in
      ((above, Above-trans k r rs above a), heads-Above k (i + 1) lists (later k i near) sorted h)

pub newest-front :
    (i n : ℕ) (lists : List (List Record)) (e : PqEntry) (rs : List Record)
    → i + n ≡ e.idx
    → get_elem? lists n ≡ some (e.rec ∷ rs)
    → All Ascending lists
    → All (Precedes e) (heads i lists)
    → newest (record_key e.rec) lists ≡ some e.rec
unfolding heads
newest-front i n [] e rs at_e found sorted h = cc
newest-front i zero ([] ∷ lists) e rs at_e found sorted h = cc
newest-front i zero ((q ∷ qs) ∷ lists) e rs at_e found (_, sorted) (_, h) =
    let same : q ≡ e.rec = cc in
    let alone =
      newest-Above (record_key e.rec) lists
        (heads-Above e (record_key e.rec) (i + 1) lists (inr (refl, omega arith)) sorted h) in
    rw (alone, same) (find-eq (record_key e.rec) e.rec qs (strcmp_refl (record_key e.rec)))
newest-front i (suc n) ([] ∷ lists) e rs at_e found (_, sorted) h =
    rw (newest-front (i + 1) n lists e rs (omega arith) found sorted h)
newest-front i (suc n) ((q ∷ qs) ∷ lists) e rs at_e found (_, sorted) (_, h) =
    rw (newest-front (i + 1) n lists e rs (omega arith) found sorted h)
