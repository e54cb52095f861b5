-- ===== src/Merged/Range.antt =====
-- reftable_new_merged_table: the hash of the tables, and the update indexes that they span.
use reftable.Base.{
  ℕ, zero, suc, ◌+◌, ◌≤◌, ◌<◌, ◌≡◌, ◌≢◌, ◌⊎◌, refl, ◌∙◌, List, [], ◌∷◌, Bool, true, false, ltb,
  ◌==◌, ◌||◌, Bool-cases, Result, ok, err, format_error, All, arith, inl, inr, if◌then◌else◌,
}
use reftable.Generic.{Table}
use reftable.Merged.Table.{MergedTable, range_loop, reftable_new_merged_table}

-- The bound of the next round is the one of before, behind the first table, or that of the table.
next_bound :
    (i : ℕ) (better : Bool) (index given : ℕ)
    → ((0 < i) × (given ≡ (if i == 0 || better then index else given)))
      ⊎ (index ≡ (if i == 0 || better then index else given))
next_bound zero better index given = inr refl
next_bound (suc i) true index given = inr (ground arith)
next_bound (suc i) false index given = inl (omega arith, ground arith)

module _ {S : Type 0} where
  abbrev pub Hashed : ℕ → Table S → Type 0
  Hashed hash_id tab = tab.hash_id ≡ hash_id

  abbrev pub Spans : ℕ → ℕ → Table S → Type 0
  Spans lo hi tab = (lo ≤ tab.min_update_index) × (tab.max_update_index ≤ hi)

  -- The number of some table is the bound.
  abbrev pub Attains : (Table S → ℕ) → ℕ → List (Table S) → Type 0
  Attains index bound [] = ⊥
  Attains index bound (tab ∷ stack) = (index tab ≡ bound) ⊎ Attains index bound stack

  -- A bound at the end of the loop is that of a table, or the one that the loop was given behind the first table.
  abbrev From : (Table S → ℕ) → ℕ → ℕ → ℕ → List (Table S) → Type 0
  From index i given bound stack =
      (((0 < i) ⊎ (stack ≡ [])) × (given ≡ bound)) ⊎ Attains index bound stack

  data Range (hash_id i : ℕ) (stack : List (Table S)) (first_min last_max : ℕ) (r : Result (ℕ × ℕ))
      : Type 0 where
    spanned :
        (lo hi : ℕ)
        → r ≡ ok (lo, hi)
        → All (Hashed hash_id) stack
        → All (Spans lo hi) stack
        → (0 < i → (lo ≤ first_min) × (last_max ≤ hi))
        → From (λ tab. tab.min_update_index) i first_min lo stack
        → From (λ tab. tab.max_update_index) i last_max hi stack
        → Range hash_id i stack first_min last_max r
    refused :
        r ≡ err format_error
        → ¬ (All (Hashed hash_id) stack)
        → Range hash_id i stack first_min last_max r

  further :
      (index : Table S → ℕ) (i given given' bound : ℕ) (tab : Table S) (stack : List (Table S))
      → ((0 < i) × (given ≡ given')) ⊎ (index tab ≡ given')
      → From index (i + 1) given' bound stack
      → From index i given bound (tab ∷ stack)
  further index i given given' bound tab stack step (inr others) = inr (inr others)
  further index i given given' bound tab stack (inl (p, same)) (inl (q, e)) = inl (inl p, same ∙ e)
  further index i given given' bound tab stack (inr same) (inl (q, e)) = inr (inl (same ∙ e))

  attained :
      (index : Table S → ℕ) (given bound : ℕ) (stack : List (Table S))
      → From index 0 given bound stack
      → stack ≢ []
      → Attains index bound stack
  attained index given bound stack (inr found) h = found
  attained index given bound stack (inl (inl p, e)) h = absurd (omega arith)
  attained index given bound stack (inl (inr empty, e)) h = absurd (h empty)

  range_loop-Range :
      (hash_id i : ℕ) (stack : List (Table S)) (first_min last_max : ℕ)
      → Range hash_id i stack first_min last_max (range_loop hash_id i stack first_min last_max)
  unfolding range_loop
  range_loop-Range hash_id i [] first_min last_max =
      spanned first_min last_max refl tt tt (λ p. (omega arith, omega arith)) (inl (inr refl, refl))
        (inl (inr refl, refl))
  range_loop-Range hash_id i (tab ∷ stack) first_min last_max =
      let first_min' =
        if i == 0 || ltb tab.min_update_index first_min then tab.min_update_index else first_min in
      let last_max' =
        if i == 0 || ltb last_max tab.max_update_index then tab.max_update_index else last_max in
      let low : first_min' ≤ tab.min_update_index = ground arith in
      let high : tab.max_update_index ≤ last_max' = ground arith in
      let low' : 0 < i → first_min' ≤ first_min = λ p. ground arith in
      let high' : 0 < i → last_max ≤ last_max' = λ p. ground arith in
      elim (Bool-cases (tab.hash_id == hash_id)) [
        | inl same ↦ elim (range_loop-Range hash_id (i + 1) stack first_min' last_max') [
          | spanned lo hi run hashed spans rest from_lo from_hi ↦
              let (below, above) = rest (omega arith) in
              spanned lo hi (rw (same, run)) (ground arith, hashed)
                ((omega arith, omega arith), spans)
                (λ p. (omega (arith, low' p), omega (arith, high' p)))
                (further (λ t. t.min_update_index) i first_min first_min' lo tab stack
                  (next_bound i (ltb tab.min_update_index first_min) _ _) from_lo)
                (further (λ t. t.max_update_index) i last_max last_max' hi tab stack
                  (next_bound i (ltb last_max tab.max_update_index) _ _) from_hi)
          | refused run other ↦ refused (rw (same, run)) (λ h. other h.1)
        ]
        | inr differs ↦ refused (rw differs) (λ h. absurd (ground (arith, h.0)))
      ]

  -- If all the tables have the hash, the merged table is over them and shows deletions, and its bounds are the
  -- least and the greatest update index of the tables, if there are tables: each table lies within them, and each
  -- of the two is that of a table. If a table has another hash, it is a format error.
  pub reftable_new_merged_table-Spans :
      (stack : List (Table S)) (hash_id : ℕ)
      → (All (Hashed hash_id) stack
          × ((mt : MergedTable S) × (reftable_new_merged_table stack hash_id ≡ ok mt)
              × (mt.stack ≡ stack)
              × (mt.hash_id ≡ hash_id)
              × (mt.suppress_deletions ≡ false)
              × All (Spans mt.min mt.max) stack
              × (stack ≢ []
                  → Attains (λ tab. tab.min_update_index) mt.min stack
                    × Attains (λ tab. tab.max_update_index) mt.max stack)))
        ⊎ ((¬ (All (Hashed hash_id) stack))
            × (reftable_new_merged_table stack hash_id ≡ err format_error))
  unfolding reftable_new_merged_table
  reftable_new_merged_table-Spans stack hash_id = elim (range_loop-Range hash_id 0 stack 0 0) [
    | spanned lo hi run hashed spans _ from_lo from_hi ↦ inl (
      hashed,
      (
        record { stack = stack; hash_id = hash_id; suppress_deletions = false; min = lo; max = hi },
        rw run,
        refl,
        refl,
        refl,
        spans,
        λ some_table. (
          attained (λ tab. tab.min_update_index) 0 lo stack from_lo some_table,
          attained (λ tab. tab.max_update_index) 0 hi stack from_hi some_table,
        ),
      ),
    )
    | refused run other ↦ inr (other, rw run)
  ]
