-- ===== src/Stack/Segments.antt =====
-- struct segment of c/stack.h, and fastlog2, sizes_to_segments and suggest_compaction_segment of
-- c/stack.c. The array of sizes is a list; a uint64_t sum wraps around.
use reftable.Base.{
  ℕ, zero, suc, ◌+◌, ◌-◌, ◌*◌, ◌/◌, ◌%◌, ◌^◌, ◌≤◌, ◌<◌, ◌≡◌, refl, List, [], ◌∷◌, false, ltb, ◌==◌,
  if◌then◌else◌, ◌&&◌, not, length, get_or, arith, Bool-cases, inl, inr, ◌⊎◌, subst,
}
use native.Mathlib.Nat.{pow-suc}
use reftable.Record.View.{u64}

-- The `for`, which halves a uint64_t at most 64 times.
log_loop : ℕ → ℕ → ℕ
log_loop zero sz = 0
log_loop (suc fuel) sz = let rest = log_loop fuel (sz / 2) in if sz == 0 then 0 else suc rest

log_of : ℕ → ℕ → ℕ
log_of bits sz = if sz == 0 then 0 else log_loop bits sz - 1

unfoldable pub fastlog2 : ℕ → ℕ
unfolding log_loop log_of
fastlog2 sz = log_of 64 sz

log_loop-zero : (fuel : ℕ) → log_loop fuel 0 ≡ 0
unfolding log_loop
log_loop-zero zero = refl
log_loop-zero (suc fuel) = refl

halved :
    (r sz : ℕ)
    → 0 < r
    → 2 ^ (r - 1) ≤ sz / 2
    → sz / 2 < 2 ^ r
    → (2 ^ (suc r - 1) ≤ sz) × (sz < 2 ^ suc r)
halved zero sz pos low high = absurd (omega arith)
halved (suc k) sz pos low high =
    let e : 2 ^ suc k ≡ 2 ^ k * 2 = pow-suc 2 k in
    let f : 2 ^ suc (suc k) ≡ 2 ^ suc k * 2 = pow-suc 2 (suc k) in
    let back : suc k - 1 ≡ k = omega arith in
    let low' : 2 ^ k ≤ sz / 2 = rw back at low in
    let again : suc (suc k) - 1 ≡ suc k = omega arith in
    (rw again (omega (arith, e, low')), omega (arith, f))

log_loop-bounds :
    (fuel sz : ℕ)
    → 0 < sz
    → sz < 2 ^ fuel
    → (0 < log_loop fuel sz) × (2 ^ (log_loop fuel sz - 1) ≤ sz) × (sz < 2 ^ log_loop fuel sz)
unfolding log_loop
log_loop-bounds zero sz pos h = absurd (omega arith)
log_loop-bounds (suc fuel) sz pos h =
    let live : (sz == 0) ≡ false = ground arith in
    elim (Bool-cases (sz / 2 == 0)) [
      | inl one ↦
          let none' : sz / 2 ≡ 0 = ground arith in
          rw (live, none', log_loop-zero fuel) (omega arith, omega arith, omega arith)
      | inr more ↦
          let (r, low, high) =
            log_loop-bounds fuel (sz / 2) (ground arith) (omega (arith, pow-suc 2 fuel)) in
          let (low', high') = halved (log_loop fuel (sz / 2)) sz r low high in
          rw live (omega arith, low', high')
    ]

log_of-bounds :
    (bits sz : ℕ)
    → 0 < sz
    → sz < 2 ^ bits
    → (2 ^ log_of bits sz ≤ sz) × (sz < 2 ^ (log_of bits sz + 1))
unfolding log_of
log_of-bounds bits sz pos h =
    let live : (sz == 0) ≡ false = ground arith in
    let (r, low, high) = log_loop-bounds bits sz pos h in
    let back : log_loop bits sz - 1 + 1 ≡ log_loop bits sz = omega (arith, r) in
    rw live (low, rw back high)

-- For a size of 64 bits that is not 0, fastlog2 is the logarithm to base 2, rounded down.
pub fastlog2-bounds :
    (sz : ℕ) → 0 < sz → sz < u64 → (2 ^ fastlog2 sz ≤ sz) × (sz < 2 ^ (fastlog2 sz + 1))
unfolding fastlog2
fastlog2-bounds sz pos h = log_of-bounds 64 sz pos h

pub record Segment : Type 0 where
  pub start : ℕ
  pub end : ℕ
  pub log : ℕ
  pub bytes : ℕ

unfoldable pub segment_size : Segment → ℕ
segment_size s = s.end - s.start

-- The `for` from table i on; the segments before `cur` are already stored.
segments_from : ℕ → Segment → List ℕ → List Segment
segments_from i cur [] = cur ∷ []
segments_from i cur (sz ∷ sizes) =
    let log = fastlog2 sz in
    let fresh : Segment = record { start = i; end = 0; log = 0; bytes = 0 } in
    let split = not (cur.log == log) && ltb 0 cur.bytes in
    let grow : Segment → Segment =
      λ s. record s { log = log; end = i + 1; bytes = (s.bytes + sz) % u64 } in
    let apart = cur ∷ segments_from (i + 1) (grow fresh) sizes in
    let joined = segments_from (i + 1) (grow cur) sizes in if split then apart else joined

unfoldable pub sizes_to_segments : List ℕ → List Segment
unfolding segments_from
sizes_to_segments [] = []
sizes_to_segments (sz ∷ sizes) =
    segments_from 0 (record { start = 0; end = 0; log = 0; bytes = 0 }) (sz ∷ sizes)

-- The second `for`: the first segment of least logarithm that has other than one table.
least : Segment → List Segment → Segment
unfolding segment_size
least min_seg [] = min_seg
least min_seg (s ∷ segs) =
    if segment_size s == 1
    then least min_seg segs
    else least (if ltb s.log min_seg.log then s else min_seg) segs

-- The `while`: `start` tables stand before the segment, and the last of them is looked at.
extend : ℕ → Segment → List ℕ → Segment
extend zero s sizes = s
extend (suc prev) s sizes =
    let size = get_or sizes prev 0 in
    let longer = extend prev (record s { start = prev; bytes = (s.bytes + size) % u64 }) sizes in
    if ltb (fastlog2 s.bytes) (fastlog2 size) then s else longer

unfoldable pub suggest_compaction_segment : List ℕ → Segment
unfolding least extend
suggest_compaction_segment sizes =
    let found =
      least (record { start = 0; end = 0; log = 64; bytes = 0 }) (sizes_to_segments sizes) in
    extend found.start found sizes

-- One segment after the other, none of them empty, from table `from` up to table `to`.
abbrev pub Covers : ℕ → ℕ → List Segment → Type 0
Covers from to [] = from ≡ to
Covers from to (s ∷ segs) = (s.start ≡ from) × (s.start < s.end) × Covers s.end to segs

segments_from-Covers :
    (i : ℕ) (cur : Segment) (sizes : List ℕ)
    → cur.start < cur.end
    → cur.end ≡ i
    → Covers cur.start (i + length sizes) (segments_from i cur sizes)
unfolding segments_from
segments_from-Covers i cur [] h e = (refl, h, omega arith)
segments_from-Covers i cur (sz ∷ sizes) h e =
    let counted : i + 1 + length sizes ≡ i + suc (length sizes) = omega arith in
    let grown : (s : Segment)
        → s.start ≤ i
        → Covers s.start (i + suc (length sizes)) (
            segments_from (i + 1)
              (record s { log = fastlog2 sz; end = i + 1; bytes = (s.bytes + sz) % u64 }) sizes) =
      λ s b.
        subst
          (λ n. Covers s.start n (
            segments_from (i + 1)
              (record s { log = fastlog2 sz; end = i + 1; bytes = (s.bytes + sz) % u64 }) sizes))
          counted
          (segments_from-Covers (i + 1)
            (record s { log = fastlog2 sz; end = i + 1; bytes = (s.bytes + sz) % u64 }) sizes
            (omega arith) refl) in
    elim (Bool-cases (not (cur.log == fastlog2 sz) && ltb 0 cur.bytes)) [
      | inl apart ↦
          rw apart (
            refl,
            h,
            rw e (grown (record { start = i; end = 0; log = 0; bytes = 0 }) (omega arith)),
          )
      | inr joined ↦ rw joined (grown cur (omega arith))
    ]

-- The segments of sizes_to_segments follow one another without a gap from the first table to the last,
-- and none is empty.
pub sizes_to_segments-Covers : (sizes : List ℕ) → Covers 0 (length sizes) (sizes_to_segments sizes)
unfolding sizes_to_segments
sizes_to_segments-Covers [] = refl
sizes_to_segments-Covers (sz ∷ sizes) =
    let counted : 1 + length sizes ≡ suc (length sizes) = omega arith in
    let only : Segment = record { start = 0; end = 1; log = fastlog2 sz; bytes = (0 + sz) % u64 } in
    let rest : Covers 0 (suc (length sizes)) (segments_from 1 only sizes) =
      subst (λ n. Covers 0 n (segments_from 1 only sizes)) counted
        (segments_from-Covers 1 only sizes (omega arith) refl) in
    elim (Bool-cases (0 == fastlog2 sz)) [ inl e ↦ rw e rest | inr e ↦ rw e rest ]

Covers-≤ : (from to : ℕ) (segs : List Segment) → Covers from to segs → from ≤ to
Covers-≤ from to [] e = omega arith
Covers-≤ from to (s ∷ segs) (e, h, c) = omega (arith, Covers-≤ s.end to segs c)

-- Nothing, or two tables of the first `n` at least.
abbrev IsChoice : ℕ → Segment → Type 0
IsChoice n s = ((s.start ≡ 0) × (s.end ≡ 0)) ⊎ ((s.start + 2 ≤ s.end) × (s.end ≤ n))

least-IsChoice :
    (from to : ℕ) (m : Segment) (segs : List Segment)
    → Covers from to segs
    → IsChoice to m
    → IsChoice to (least m segs)
unfolding least
least-IsChoice from to m [] c h = h
least-IsChoice from to m (s ∷ segs) (e, pos, c) h = elim (Bool-cases (segment_size s == 1)) [
  | inl one ↦ rw one (least-IsChoice s.end to m segs c h)
  | inr other ↦ rw other (elim (Bool-cases (ltb s.log m.log)) [
    | inl less ↦ rw less (
        least-IsChoice s.end to s segs c
          (inr (unfold segment_size in ground arith, Covers-≤ s.end to segs c)))
    | inr kept ↦ rw kept (least-IsChoice s.end to m segs c h)
  ])
]

extend_lem :
    (k : ℕ) (s : Segment) (sizes : List ℕ)
    → s.start ≡ k
    → ((extend k s sizes).start ≤ s.start) × ((extend k s sizes).end ≡ s.end)
unfolding extend
extend_lem zero s sizes e = (omega arith, refl)
extend_lem (suc prev) s sizes e =
    elim (Bool-cases (ltb (fastlog2 s.bytes) (fastlog2 (get_or sizes prev 0)))) [
      | inl stop ↦ rw stop (omega arith, refl)
      | inr go ↦
          let (low, same) =
            extend_lem prev
              (record s { start = prev; bytes = (s.bytes + get_or sizes prev 0) % u64 }) sizes
              refl in
          rw go (omega (arith, low), same)
    ]

-- suggest_compaction_segment answers an empty segment, or a range of two tables at least that lies inside
-- the stack.
pub suggest_compaction_segment-inside :
    (sizes : List ℕ)
    → (segment_size (suggest_compaction_segment sizes) ≡ 0)
      ⊎ ((suggest_compaction_segment sizes).start + 2 ≤ (suggest_compaction_segment sizes).end
          × ((suggest_compaction_segment sizes).end ≤ length sizes))
unfolding suggest_compaction_segment
suggest_compaction_segment-inside sizes =
    let empty : Segment = record { start = 0; end = 0; log = 64; bytes = 0 } in
    let found = least empty (sizes_to_segments sizes) in
    let (low, same) = extend_lem found.start found sizes refl in
    elim (least-IsChoice 0 (length sizes) empty (sizes_to_segments sizes)
      (sizes_to_segments-Covers sizes) (inl (refl, refl))) [
        | inl (a, b) ↦ inl (unfold segment_size in omega (arith, same, b))
        | inr (a, b) ↦ inr (omega (arith, low, same, a), omega (arith, same, b))
      ]
