-- ===== src/Merged/Skip.antt =====
-- The loop of merged_iter_next_entry: from each table, the records up to a key are dropped.
use mathlib.Core.List.{Perm}
use mathlib.Core.List.Perm
use Prim.Native.Nat.Ordering.{lt, eq, gt}
use reftable.Base.{
  ℕ, zero, suc, ◌+◌, ◌<◌, ◌≡◌, refl, subst, sym, ap, ◌∙◌, List, [], ◌∷◌, Bool, true, false, Option,
  some, Result, ok, length, get_elem?, set, All, arith, Bool-cases, inl, inr, ◌>>=◌,
}
use reftable.Basics.Bytes.{
  strcmp, strbuf_cmp-strcmp, strcmp_trans, strcmp_swap_lt, strcmp_swap_gt, Ordering-cases,
}
use reftable.Record.Types.{Record}
use reftable.Record.Any.{record_key, new_record}
use reftable.Pq.{PqEntry, merged_iter_pqueue_is_empty}
use reftable.Pq.Order.{Precedes, Precedes-keys}
use reftable.Merged.{MergedIter, skip_loop}
use reftable.Merged.Heads.{heads}
use reftable.Merged.Advance.{Holds, take_top}

-- A table's records behind a key.
abbrev pub skip : List ℕ → List Record → List Record
skip k [] = []
skip k (r ∷ rs) = elim (strcmp (record_key r) k) [ gt ↦ r ∷ rs | _ ↦ skip k rs ]

pub skip-gt :
    (k : List ℕ) (r : Record) (rs : List Record)
    → strcmp (record_key r) k ≡ gt
    → skip k (r ∷ rs) ≡ r ∷ rs
skip-gt k r rs h = rw (skip, h)

pub skip-lt :
    (k : List ℕ) (r : Record) (rs : List Record)
    → strcmp (record_key r) k ≡ lt
    → skip k (r ∷ rs) ≡ skip k rs
skip-lt k r rs h = rw (skip, h)

pub skip-eq :
    (k : List ℕ) (r : Record) (rs : List Record)
    → strcmp (record_key r) k ≡ eq
    → skip k (r ∷ rs) ≡ skip k rs
skip-eq k r rs h = rw (skip, h)

abbrev pub skip_all : List ℕ → List (List Record) → List (List Record)
skip_all k [] = []
skip_all k (l ∷ lists) = skip k l ∷ skip_all k lists

-- How many records the tables have together.
abbrev pub total : List (List Record) → ℕ
total [] = 0
total (l ∷ lists) = length l + total lists

pub total-set :
    (lists : List (List Record)) (n : ℕ) (r : Record) (rs : List Record)
    → get_elem? lists n ≡ some (r ∷ rs)
    → suc (total (set lists n rs)) ≡ total lists
total-set [] n r rs h = cc
total-set (l ∷ lists) zero r rs h = let same : l ≡ (r ∷ rs) = cc in rw same (omega arith)
total-set (l ∷ lists) (suc n) r rs h = omega (arith, total-set lists n r rs h)

pub skip_all-set :
    (k : List ℕ) (lists : List (List Record)) (n : ℕ) (r : Record) (rs : List Record)
    → get_elem? lists n ≡ some (r ∷ rs)
    → skip k (r ∷ rs) ≡ skip k rs
    → skip_all k (set lists n rs) ≡ skip_all k lists
skip_all-set k [] n r rs h e = cc
skip_all-set k (l ∷ lists) zero r rs h e = let same : l ≡ (r ∷ rs) = cc in rw (same, e)
skip_all-set k (l ∷ lists) (suc n) r rs h e = ap (skip k l ∷◌) (skip_all-set k lists n r rs h e)

-- Where every first record is behind the key, nothing is dropped.
abbrev pub Behind : List ℕ → PqEntry → Type 0
Behind k e = strcmp (record_key e.rec) k ≡ gt

skip_all-Behind :
    (k : List ℕ) (i : ℕ) (lists : List (List Record))
    → All (Behind k) (heads i lists)
    → skip_all k lists ≡ lists
unfolding heads
skip_all-Behind k i [] h = refl
skip_all-Behind k i ([] ∷ lists) h = ap ([] ∷◌) (skip_all-Behind k (i + 1) lists h)
skip_all-Behind k i ((r ∷ rs) ∷ lists) (a, h) =
    rw (skip-gt k r rs a, skip_all-Behind k (i + 1) lists h)

Behind-Precedes : (k : List ℕ) (a b : PqEntry) → Behind k a → Precedes a b → Behind k b
Behind-Precedes k a b h p = elim (Precedes-keys a b p) [
  | inl less ↦ strcmp_swap_lt k (record_key b.rec) (
      strcmp_trans k (record_key a.rec) (record_key b.rec) (strcmp_swap_gt (record_key a.rec) k h)
        less)
  | inr (e, _) ↦ rw (sym e) h
]

All-map :
    (P Q : PqEntry → Type 0) (f : (e : PqEntry) → P e → Q e) (xs : List PqEntry)
    → All P xs
    → All Q xs
All-map P Q f [] h = h
All-map P Q f (x ∷ xs) (a, h) = (f x a, All-map P Q f xs h)

pub is_empty-length : (pq : List PqEntry) → merged_iter_pqueue_is_empty pq ≡ false → 0 < length pq
unfolding merged_iter_pqueue_is_empty
is_empty-length [] h = ground arith
is_empty-length (e ∷ pq) h = omega arith

pub is_empty-nil : (pq : List PqEntry) → merged_iter_pqueue_is_empty pq ≡ true → pq ≡ []
unfolding merged_iter_pqueue_is_empty
is_empty-nil [] h = refl
is_empty-nil (e ∷ pq) h = ground arith

module _ {S : Type 0} (next : S → Record → Result (Option (Record × S))) (rec0 : Record)
    (size typ : ℕ) (suppress : Bool) (fresh : new_record typ ≡ ok rec0) where
  abbrev Holding : MergedIter S → List (List Record) → Type 0
  Holding = Holds next rec0 size typ suppress

  -- A queue that has run out stands for tables that have.
  pub heads_nil :
      (mi : MergedIter S) (lists : List (List Record))
      → Holding mi lists
      → mi.pq ≡ []
      → heads 0 lists ≡ []
  heads_nil mi lists h e =
      Perm.eq-nil (Perm.symm (subst (λ pq. Perm pq (heads 0 lists)) e h.queued))

  -- One round of the loop at a top that is not behind the key.
  dropped :
      (fuel : ℕ) (mi mi1 : MergedIter S) (lists : List (List Record)) (k : List ℕ) (e : PqEntry)
      (rs : List Record)
      → get_elem? lists e.idx ≡ some (e.rec ∷ rs)
      → skip k (e.rec ∷ rs) ≡ skip k rs
      → skip_loop next (suc fuel) mi k ≡ skip_loop next fuel mi1 k
      → (mi' : MergedIter S) × (skip_loop next fuel mi1 k ≡ ok mi')
        × Holding mi' (skip_all k (set lists e.idx rs))
      → (mi' : MergedIter S) × (skip_loop next (suc fuel) mi k ≡ ok mi')
        × Holding mi' (skip_all k lists)
  dropped fuel mi mi1 lists k e rs at_e less step (mi', run, holds) =
      (mi', step ∙ run, subst (Holding mi') (skip_all-set k lists e.idx e.rec rs at_e less) holds)

  pub skip_loop-Holds :
      (fuel : ℕ) (mi : MergedIter S) (lists : List (List Record)) (k : List ℕ)
      → total lists < fuel
      → Holding mi lists
      → (mi' : MergedIter S) × (skip_loop next fuel mi k ≡ ok mi') × Holding mi' (skip_all k lists)
  unfolding skip_loop
  skip_loop-Holds zero mi lists k f h = absurd (omega arith)
  skip_loop-Holds (suc fuel) mi lists k f h =
      elim (Bool-cases (merged_iter_pqueue_is_empty mi.pq)) [
        | inl empty ↦
            let none_left =
              skip_all-Behind k 0 lists (rw (heads_nil mi lists h (is_empty-nil mi.pq empty)) tt) in
            (mi, rw empty, subst (Holding mi) (sym none_left) h)
        | inr more ↦
            let (e, pq', rs, mi1, top, removed, at_e, least, run, holds) =
              take_top next rec0 size typ suppress mi lists fresh h (is_empty-length mi.pq more) in
            let less = total-set lists e.idx e.rec rs at_e in
            let rest = skip_loop-Holds fuel mi1 (set lists e.idx rs) k (omega arith) holds in
            let cmp = strbuf_cmp-strcmp (record_key e.rec) k in
            elim (Ordering-cases (strcmp (record_key e.rec) k)) [
              | inl before ↦
                  dropped fuel mi mi1 lists k e rs at_e (skip-lt k e.rec rs before)
                    (rw (more, top, ◌>>=◌, cmp, before, removed, run)) rest
              | inr (inl same) ↦
                  dropped fuel mi mi1 lists k e rs at_e (skip-eq k e.rec rs same)
                    (rw (more, top, ◌>>=◌, cmp, same, removed, run)) rest
              | inr (inr behind) ↦
                  let none_less = skip_all-Behind k 0 lists (
                    All-map (Precedes e) (Behind k) (λ b p. Behind-Precedes k e b behind p)
                      (heads 0 lists) least) in
                  (mi, rw (more, top, ◌>>=◌, cmp, behind), subst (Holding mi) (sym none_less) h)
            ]
      ]
