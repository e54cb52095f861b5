-- ===== src/Merged/Entry.antt =====
-- merged_iter_next_entry: the records of the tables in order of their keys, of each key the newest.
use reftable.Base.{
  ℕ, zero, suc, ◌+◌, ◌<◌, ◌≤◌, ◌≡◌, refl, subst, sym, ◌∙◌, List, [], ◌∷◌, Bool, false, Option, some,
  none, Result, ok, length, get_elem?, set, All, arith,
}
use reftable.Basics.Bytes.{strcmp_refl}
use reftable.Record.Types.{Record}
use reftable.Record.Any.{record_key, record_type, new_record}
use reftable.Record.Any.RoundTrip.{IsRecord, record_copy_from_lem}
use reftable.Pq.{PqEntry, merged_iter_pqueue_is_empty}
use reftable.Pq.Order.{Precedes}
use reftable.Merged.{MergedIter, merged_iter_next_entry}
use reftable.Merged.Heads.{heads}
use reftable.Merged.Advance.{Holds, take_top}
use reftable.Merged.Skip.{
  skip, skip_all, total, skip_loop-Holds, is_empty-length, total-set, skip_all-set, skip-eq,
}
use reftable.Merged.Newest.{newest, Above, Ascending, skip-Above, skip-All, skip-Ascending}

module _ {M : Type 0} (step : M → Record → Result (Option (Record × M))) (typ : ℕ) where
  -- The records that a caller reads over records of the type, one after the other, up to the end.
  abbrev pub Gives : M → List Record → Type 0
  Gives m [] = (rec : Record) → record_type rec ≡ typ → step m rec ≡ ok none
  Gives m (r ∷ out) =
      (m' : M) × ((rec : Record) → record_type rec ≡ typ → step m rec ≡ ok (some (r, m')))
      × Gives m' out

-- The tables hold records of the type, and each is sorted.
abbrev pub Stored : ℕ → ℕ → Record → Type 0
Stored size typ r = IsRecord size r × (record_type r ≡ typ)

pub record Tables (size typ : ℕ) (lists : List (List Record)) : Type 0 where
  pub stored : All (All (Stored size typ)) lists
  pub sorted : All Ascending lists

pub get-All :
    (P : Record → Type 0) (lists : List (List Record)) (n : ℕ) (r : Record) (rs : List Record)
    → All (All P) lists
    → get_elem? lists n ≡ some (r ∷ rs)
    → P r
get-All P [] n r rs h e = cc
get-All P ([] ∷ lists) zero r rs h e = cc
get-All P ((q ∷ qs) ∷ lists) zero r rs ((a, _), h) e = let same : q ≡ r = cc in subst P same a
get-All P (l ∷ lists) (suc n) r rs (_, h) e = get-All P lists n r rs h e

pub skip_all-All :
    (P : Record → Type 0) (k : List ℕ) (lists : List (List Record))
    → All (All P) lists
    → All (All P) (skip_all k lists)
skip_all-All P k [] h = tt
skip_all-All P k (l ∷ lists) (a, h) = (skip-All P k l a, skip_all-All P k lists h)

pub skip_all-Above :
    (k : List ℕ) (lists : List (List Record))
    → All Ascending lists
    → All (All (Above k)) (skip_all k lists)
skip_all-Above k [] h = tt
skip_all-Above k (l ∷ lists) (a, h) = (skip-Above k l a, skip_all-Above k lists h)

skip_all-Ascending :
    (k : List ℕ) (lists : List (List Record))
    → All Ascending lists
    → All Ascending (skip_all k lists)
skip_all-Ascending k [] h = tt
skip_all-Ascending k (l ∷ lists) (a, h) = (skip-Ascending k l a, skip_all-Ascending k lists h)

pub Tables-skip :
    (size typ : ℕ) (k : List ℕ) (lists : List (List Record))
    → Tables size typ lists
    → Tables size typ (skip_all k lists)
Tables-skip size typ k lists t = record {
  stored = skip_all-All (Stored size typ) k lists t.stored;
  sorted = skip_all-Ascending k lists t.sorted;
}

pub heads_nil-newest :
    (k : List ℕ) (i : ℕ) (lists : List (List Record)) → heads i lists ≡ [] → newest k lists ≡ none
unfolding heads
heads_nil-newest k i [] h = refl
heads_nil-newest k i ([] ∷ lists) h = rw (heads_nil-newest k (i + 1) lists h)
heads_nil-newest k i ((r ∷ rs) ∷ lists) h = cc

skip-length : (k : List ℕ) (rs : List Record) → length (skip k rs) ≤ length rs
skip-length k [] = omega arith
skip-length k (r ∷ rs) = ground (arith, skip-length k rs)

total-skip_all : (k : List ℕ) (lists : List (List Record)) → total (skip_all k lists) ≤ total lists
total-skip_all k [] = omega arith
total-skip_all k (l ∷ lists) = omega (arith, skip-length k l, total-skip_all k lists)

pub total_less :
    (lists : List (List Record)) (n : ℕ) (r : Record) (rs : List Record)
    → get_elem? lists n ≡ some (r ∷ rs)
    → total (skip_all (record_key r) lists) < total lists
total_less lists n r rs at_n =
    let dropped =
      skip_all-set (record_key r) lists n r rs at_n
        (skip-eq (record_key r) r rs (strcmp_refl (record_key r))) in
    rw (sym dropped)
      (omega (arith, total-skip_all (record_key r) (set lists n rs), total-set lists n r rs at_n))

module _ {S : Type 0} (next : S → Record → Result (Option (Record × S))) (rec0 : Record)
    (size typ : ℕ) (suppress : Bool) (fresh : new_record typ ≡ ok rec0) where
  abbrev pub Holding : MergedIter S → List (List Record) → Type 0
  Holding = Holds next rec0 size typ suppress

  -- One call, at a queue that is not empty.
  pub entry_read :
      (fuel : ℕ) (mi : MergedIter S) (lists : List (List Record))
      → 0 < size
      → total lists ≤ fuel
      → Tables size typ lists
      → Holding mi lists
      → merged_iter_pqueue_is_empty mi.pq ≡ false
      → (e : PqEntry) × (rs : List Record) × (mi' : MergedIter S) × (get_elem? lists e.idx
          ≡ some (e.rec ∷ rs))
        × All (Precedes e) (heads 0 lists)
        × ((rec : Record)
            → record_type rec ≡ typ
            → merged_iter_next_entry next fuel mi rec ≡ ok (some (e.rec, mi')))
        × Holding mi' (skip_all (record_key e.rec) lists)
  unfolding merged_iter_next_entry
  entry_read fuel mi lists pos enough t h more =
      let (e, pq', rs, mi1, top, removed, at_e, least, run, holds) =
        take_top next rec0 size typ suppress mi lists fresh h (is_empty-length mi.pq more) in
      let dropped =
        skip_all-set (record_key e.rec) lists e.idx e.rec rs at_e
          (skip-eq (record_key e.rec) e.rec rs (strcmp_refl (record_key e.rec))) in
      let (mi', loop, holds') =
        skip_loop-Holds next rec0 size typ suppress fresh fuel mi1 (set lists e.idx rs)
          (record_key e.rec) (omega (arith, total-set lists e.idx e.rec rs at_e)) holds in
      let (stored, of_type) = get-All (Stored size typ) lists e.idx e.rec rs t.stored at_e in
      (
        e,
        rs,
        mi',
        at_e,
        least,
        (λ rec same.
            let copied = record_copy_from_lem size rec e.rec stored pos (of_type ∙ sym same) in
            rw (more, removed, run, loop, h.hashed, copied)),
        subst (Holding mi') dropped holds',
      )
