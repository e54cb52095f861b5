-- ===== src/Pq/Order.antt =====
-- pq_less is a total order on the entries, up to entries with the same key and table.
use Prim.Native.Nat.Ordering.{lt, eq, gt}
use reftable.Base.{ℕ, ◌≡◌, ◌∙◌, sym, true, false, ltb, arith, inl, inr, List, ◌⊎◌, ◌≤◌}
use reftable.Basics.Bytes.{
  strcmp, strbuf_cmp-strcmp, strcmp_trans, strcmp-eq, strcmp_refl, strcmp_swap_lt, strcmp_swap_gt,
  Ordering-cases,
}
use reftable.Record.Any.{record_key}
use reftable.Pq.{PqEntry, pq_less}

-- `a` may stand in front of `b`.
abbrev pub Precedes : PqEntry → PqEntry → Type 0
Precedes a b = pq_less b a ≡ false

key_of : PqEntry → List ℕ
key_of a = record_key a.rec

pq_less_lem :
    (a b : PqEntry)
    → pq_less a b
      ≡ elim (strcmp (key_of a) (key_of b)) [ eq ↦ ltb b.idx a.idx | lt ↦ true | gt ↦ false ]
unfolding pq_less key_of
pq_less_lem a b = rw (pq_less, strbuf_cmp-strcmp (record_key a.rec) (record_key b.rec))

pub Precedes-refl : (a : PqEntry) → Precedes a a
Precedes-refl a = ground (arith, pq_less_lem a a, strcmp_refl (key_of a))

pub Precedes-total : (a b : PqEntry) → pq_less a b ≡ true → Precedes a b
Precedes-total a b h = ground (
  arith,
  pq_less_lem a b,
  pq_less_lem b a,
  strcmp_swap_lt (key_of a) (key_of b),
  strcmp-eq (key_of a) (key_of b),
  strcmp_refl (key_of a),
)

-- What it says of the keys and the tables.
pub Precedes-keys :
    (a b : PqEntry)
    → Precedes a b
    → (strcmp (record_key a.rec) (record_key b.rec) ≡ lt)
      ⊎ ((record_key a.rec ≡ record_key b.rec) × (b.idx ≤ a.idx))
unfolding key_of
Precedes-keys a b h = elim (Ordering-cases (strcmp (record_key b.rec) (record_key a.rec))) [
  | inl less ↦ absurd (ground (arith, pq_less_lem b a))
  | inr (inl same) ↦
      inr (
        sym (strcmp-eq (record_key b.rec) (record_key a.rec) same),
        ground (arith, pq_less_lem b a),
      )
  | inr (inr more) ↦ inl (strcmp_swap_gt (record_key b.rec) (record_key a.rec) more)
]

Precedes-lt : (a b : PqEntry) → strcmp (record_key a.rec) (record_key b.rec) ≡ lt → Precedes a b
unfolding key_of
Precedes-lt a b h = rw (pq_less_lem b a, strcmp_swap_lt (record_key a.rec) (record_key b.rec) h)

Precedes-eq : (a b : PqEntry) → record_key a.rec ≡ record_key b.rec → b.idx ≤ a.idx → Precedes a b
unfolding key_of
Precedes-eq a b e h = rw (pq_less_lem b a, e, strcmp_refl (record_key b.rec)) (ground arith)

pub Precedes-trans : (a b c : PqEntry) → Precedes a b → Precedes b c → Precedes a c
Precedes-trans a b c h k = elim (Precedes-keys a b h) [
  | inl less ↦ elim (Precedes-keys b c k) [
    | inl less' ↦
        Precedes-lt a c
          (strcmp_trans (record_key a.rec) (record_key b.rec) (record_key c.rec) less less')
    | inr (e, _) ↦ Precedes-lt a c (rw e at less)
  ]
  | inr (e, before) ↦ elim (Precedes-keys b c k) [
    | inl less' ↦ Precedes-lt a c (rw e less')
    | inr (e', before') ↦ Precedes-eq a c (e ∙ e') (omega arith)
  ]
]

pub Precedes-prop : (a b : PqEntry) → IsProp (Precedes a b)
Precedes-prop a b = hlevel
