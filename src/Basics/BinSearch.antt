-- ===== src/Basics/BinSearch.antt =====
-- binsearch of c/basics.c. The callback takes the state behind its `void *args` and may fault.
use reftable.Base.{
  ℕ, zero, suc, ◌+◌, ◌-◌, ◌/◌, ◌≤◌, ◌<◌, ◌≡◌, refl, Bool, true, false, Result, ok, fault,
  out_of_fuel, ◌>>=◌, ltb, ◌==◌, if◌then◌else◌, ◌⊎◌, inl, inr, Bool-cases, arith,
}

abbrev pub Callback : Type 0 → Type 0
Callback S = ℕ → S → Result (Bool × S)

-- A callback that only computes.
abbrev pub pure : (ℕ → Bool) → Callback (Unit {0})
pure p k s = ok (p k, s)

module _ {S : Type 0} (f : Callback S) where
  -- The `while`; `sz` rounds are enough, since each makes the range smaller.
  unfoldable pub binsearch_loop : ℕ → ℕ → ℕ → S → Result ((ℕ × ℕ) × S)
  binsearch_loop zero lo hi s = fault out_of_fuel
  binsearch_loop (suc fuel) lo hi s =
      let mid = lo + (hi - lo) / 2 in
      let round : Result ((ℕ × ℕ) × S) = do
        (hit, s') ← f mid s
        elim hit [ true ↦ binsearch_loop fuel lo mid s' | false ↦ binsearch_loop fuel mid hi s' ]
      in if ltb 1 (hi - lo) then round else ok ((lo, hi), s)

  unfoldable pub binsearch : ℕ → S → Result (ℕ × S)
  unfolding binsearch_loop
  binsearch sz s = do
    ((lo, hi), s') ← binsearch_loop (sz + 1) 0 sz s
    let last : Result (ℕ × S) = do (hit, t) ← f 0 s'; ok (if hit then (0, t) else (1, t))
    if lo == 0 then last else ok (hi, s')

-- `f` is ascending below `sz`: once true, it stays true.
abbrev pub IsAscending : (ℕ → Bool) → ℕ → Type 0
IsAscending p sz = (i j : ℕ) → i ≤ j → j < sz → p i ≡ true → p j ≡ true

-- `r` is the least index below `sz` at which `p` holds, or `sz`.
pub record IsFirst (p : ℕ → Bool) (sz r : ℕ) : Type 0 where
  pub inside : r ≤ sz
  pub below : (i : ℕ) → i < r → p i ≡ false
  pub at : r < sz → p r ≡ true

module _ (p : ℕ → Bool) (sz : ℕ) (up : IsAscending p sz) where
  false_below : (i j : ℕ) → i ≤ j → j < sz → p j ≡ false → p i ≡ false
  false_below i j le lt e = elim (Bool-cases (p i)) [
    | inl t ↦ absurd (false_true (rw (up i j le lt t) at e))
    | inr f ↦ f
  ]
    where
      false_true : true ≡ false → ⊥
      false_true x = cc

  record Inv (lo hi : ℕ) : Type 0 where
    ordered : lo < hi
    inside : hi ≤ sz
    low : (lo ≡ 0) ⊎ (p lo ≡ false)
    high : (hi ≡ sz) ⊎ (p hi ≡ true)

  loop-Inv :
      (fuel lo hi : ℕ)
      → hi - lo < fuel
      → Inv lo hi
      → (r : ℕ) × (binsearch_loop (pure p) fuel lo hi tt ≡ ok ((r, r + 1), tt)) × Inv r (r + 1)
  unfolding binsearch_loop
  loop-Inv zero lo hi h v = absurd (omega arith)
  loop-Inv (suc fuel) lo hi h v =
      let mid = lo + (hi - lo) / 2 in
      elim (Bool-cases (ltb 1 (hi - lo))) [
        | inr stop ↦ let e : hi ≡ lo + 1 = ground arith in (lo, rw stop (rw e), rw e at v)
        | inl go ↦ elim (Bool-cases (p mid)) [
          | inl hit ↦
              rw (go, hit)
                (loop-Inv fuel lo mid (ground arith) (record {
                  ordered = ground arith;
                  inside = ground arith;
                  low = v.low;
                  high = inr hit;
                }))
          | inr miss ↦
              rw (go, miss)
                (loop-Inv fuel mid hi (ground arith) (record {
                  ordered = ground arith;
                  inside = v.inside;
                  low = inr miss;
                  high = v.high;
                }))
        ]
      ]

  -- What the two last lines of binsearch make of the range of width one.
  above_IsFirst : (r : ℕ) → Inv r (r + 1) → p r ≡ false → IsFirst p sz (r + 1)
  above_IsFirst r v e = record {
    inside = v.inside;
    below = λ i h. false_below i r (omega arith) (omega (arith, v.inside)) e;
    at = λ h. ground (arith, v.high);
  }

  -- On an ascending callback and a range that is not empty, binsearch returns the first index at which the
  -- callback holds, or the size if there is none.
  pub binsearch-IsFirst :
      0 < sz → (r : ℕ) × (binsearch (pure p) sz tt ≡ ok (r, tt)) × IsFirst p sz r
  unfolding binsearch
  binsearch-IsFirst pos =
      let start : Inv 0 sz = record {
        ordered = pos;
        inside = omega arith;
        low = inl refl;
        high = inl refl;
      } in
      let (r, e, v) = loop-Inv (sz + 1) 0 sz (omega arith) start in
      elim (Bool-cases (p r)) [
        | inl hit ↦
            let z : r ≡ 0 = ground (arith, v.low) in
            (
              0,
              rw (e, z, (rw z at hit)),
              record {
                inside = omega arith;
                below = λ i h. absurd (omega arith);
                at = λ h. rw z at hit;
              },
            )
        | inr miss ↦ (r + 1, rw e (ground arith), above_IsFirst r v miss)
      ]
