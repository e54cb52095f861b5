-- ===== src/Refname/Names.antt =====
-- find_name and modification_has_ref of c/refname.c: looking for a name among those that a transaction adds
-- and deletes, and then in the table.
use Prim.Native.Nat.Ordering.{lt, gt}
use reftable.Base.{
  ℕ, zero, suc, ◌+◌, ◌-◌, ◌/◌, ◌≤◌, ◌<◌, ◌≡◌, ◌≢◌, refl, sym, ◌∙◌, List, [], ◌∷◌, Bool, true, false,
  ltb, ◌==◌, if◌then◌else◌, Result, ok, ◌>>=◌, load, length, get_or, arith, Bool-cases, inl, inr,
  ◌↔◌,
}
use reftable.Basics.Bytes.{strcmp, strcmp_refl, strcmp-eq, strcmp_trans, is_eq, Ordering-cases}
use reftable.Basics.Names.{Name}
use reftable.Basics.BinSearch.{
  Callback, pure, binsearch, binsearch_loop, IsAscending, IsFirst, binsearch-IsFirst,
}

-- `strcmp(…) >= 0`
at_least : Name → Name → Bool
at_least name want = elim (strcmp name want) [ lt ↦ false | _ ↦ true ]

unfoldable pub find_name : List Name → Name → Callback (Unit {0})
unfolding at_least
find_name names want k s = do name ← load names k; ok (at_least name want, s)

-- `if (len > 0) { … idx < len && !strcmp(names[idx], name) }`
unfoldable pub search_names : List Name → Name → Result Bool
search_names names want =
    let found : Result Bool = do
      (idx, s) ← binsearch (find_name names want) (length names) tt
      if ltb idx (length names)
          then (do name ← load names idx; ok (is_eq (strcmp name want)))
          else ok false
    in if ltb 0 (length names) then found else ok false

-- A callback that answers `p` below `sz`, and may fault elsewhere, gives the search of `p`.
binsearch_loop-agree :
    (f : Callback (Unit {0})) (p : ℕ → Bool) (sz : ℕ)
    → ((k : ℕ) → k < sz → f k tt ≡ ok (p k, tt))
    → (fuel lo hi : ℕ) → lo < hi
    → hi ≤ sz
    → binsearch_loop f fuel lo hi tt ≡ binsearch_loop (pure p) fuel lo hi tt
unfolding binsearch_loop
binsearch_loop-agree f p sz agree zero lo hi h le = refl
binsearch_loop-agree f p sz agree (suc fuel) lo hi h le =
    let mid = lo + (hi - lo) / 2 in
    elim (Bool-cases (ltb 1 (hi - lo))) [
      | inr stop ↦ rw stop
      | inl go ↦
          rw (go, agree mid (ground arith))
            (elim (Bool-cases (p mid)) [
              | inl hit ↦
                  rw hit
                    (binsearch_loop-agree f p sz agree fuel lo mid (ground arith) (ground arith))
              | inr miss ↦ rw miss (binsearch_loop-agree f p sz agree fuel mid hi (ground arith) le)
            ])
    ]

binsearch-agree :
    (f : Callback (Unit {0})) (p : ℕ → Bool) (sz : ℕ)
    → ((k : ℕ) → k < sz → f k tt ≡ ok (p k, tt))
    → 0 < sz
    → binsearch f sz tt ≡ binsearch (pure p) sz tt
unfolding binsearch
binsearch-agree f p sz agree pos =
    rw (binsearch_loop-agree f p sz agree (sz + 1) 0 sz pos (omega arith), agree 0 pos)

load-get_or : (names : List Name) (k : ℕ) → k < length names → load names k ≡ ok (get_or names k [])
load-get_or [] k h = absurd (omega arith)
load-get_or (n ∷ names) zero h = refl
load-get_or (n ∷ names) (suc k) h = load-get_or names k (omega arith)

abbrev name_at : List Name → ℕ → Name
name_at names i = get_or names i []

-- The names stand in ascending order, each once.
abbrev pub IsSorted : List Name → Type 0
IsSorted names =
    (i j : ℕ) → i < j → j < length names → strcmp (get_or names i []) (get_or names j []) ≡ lt

-- The name stands at some place of the list.
abbrev pub Has : List Name → Name → Type 0
Has names name = (i : ℕ) × (i < length names) × (get_or names i [] ≡ name)

module _ (names : List Name) (want : Name) (sorted : IsSorted names) where
  abbrev p : ℕ → Bool
  p k = at_least (name_at names k) want

  at_least-lt : (name : Name) → strcmp name want ≡ lt → at_least name want ≡ false
  unfolding at_least
  at_least-lt name e = rw (at_least, e)

  at_least-true : (name : Name) → at_least name want ≡ true → strcmp name want ≢ lt
  at_least-true name e less = let f = at_least-lt name less in cc

  at_least-false : (name : Name) → at_least name want ≡ false → strcmp name want ≡ lt
  unfolding at_least
  at_least-false name e = elim (Ordering-cases (strcmp name want)) [
    | inl less ↦ less
    | inr (inl same) ↦ absurd (let t : at_least name want ≡ true = rw (at_least, same) in cc)
    | inr (inr more) ↦ absurd (let t : at_least name want ≡ true = rw (at_least, more) in cc)
  ]

  -- What stands before a name below `want` is below it too.
  lower :
      (i j : ℕ)
      → i ≤ j
      → j < length names
      → strcmp (name_at names j) want ≡ lt
      → strcmp (name_at names i) want ≡ lt
  lower i j le lt' e = elim (Bool-cases (i == j)) [
    | inl same ↦ let at : i ≡ j = ground arith in rw at e
    | inr other ↦
        strcmp_trans (name_at names i) (name_at names j) want (sorted i j (ground arith) lt') e
  ]

  p-IsAscending : IsAscending p (length names)
  p-IsAscending i j le lt' e = elim (Bool-cases (p j)) [
    | inl t ↦ t
    | inr f ↦
        absurd (
          at_least-true (name_at names i) e (lower i j le lt' (at_least-false (name_at names j) f)))
  ]

  find_name-p : (k : ℕ) → k < length names → find_name names want k tt ≡ ok (p k, tt)
  unfolding find_name
  find_name-p k h = rw (load-get_or names k h)

  equal : (name : Name) → is_eq (strcmp name want) ≡ true → name ≡ want
  equal name t = elim (Ordering-cases (strcmp name want)) [
    | inl less ↦ let never : is_eq lt ≡ true = rw less at t in cc
    | inr (inl same) ↦ strcmp-eq name want same
    | inr (inr more) ↦ let never : is_eq gt ≡ true = rw more at t in cc
  ]

  at_least_refl : at_least want want ≡ true
  unfolding at_least
  at_least_refl = rw (at_least, strcmp_refl want)

  after :
      {r : ℕ}
      → IsFirst p (length names) r
      → (j : ℕ) → j < length names
      → name_at names j ≡ want
      → r ≤ j
  after {r} first j h at = elim (Bool-cases (ltb j r)) [
    | inl early ↦
        let hit : p j ≡ true = rw at at_least_refl in
        let miss : p j ≡ false = first.below j (ground arith) in
        absurd (let never : true ≡ false = sym hit ∙ miss in cc)
    | inr late ↦ ground arith
  ]

  found :
      (r : ℕ)
      → IsFirst p (length names) r
      → r < length names
      → Has names want
      → is_eq (strcmp (name_at names r) want) ≡ true
  found r first h (j, l, at) = elim (Bool-cases (r == j)) [
    | inl same ↦
        let here : name_at names r ≡ want = let e : r ≡ j = ground arith in rw e at in
        rw (here, strcmp_refl want)
    | inr other ↦
        let le = after first j l at in
        let less : strcmp (name_at names r) want ≡ lt = rw at at (sorted r j (ground arith) l) in
        absurd (at_least-true (name_at names r) (first.at h) less)
  ]

  -- Looking a name up finds it exactly if it is there.
  search_names_iff : (b : Bool) × (search_names names want ≡ ok b) × ((b ≡ true) ↔ Has names want)
  unfolding search_names
  search_names_iff = elim (Bool-cases (ltb 0 (length names))) [
    | inr none' ↦ (false, rw none', (λ e. cc, λ (i, h, _). absurd (ground arith)))
    | inl some' ↦
        let pos : 0 < length names = ground arith in
        let (r, e, first) = binsearch-IsFirst p (length names) p-IsAscending pos in
        let run = binsearch-agree (find_name names want) p (length names) find_name-p pos ∙ e in
        elim (Bool-cases (ltb r (length names))) [
          | inr past ↦ (
            false,
            rw (some', run, past),
            (λ t. cc, λ (j, h, at). absurd (let le = after first j h at in ground arith)),
          )
          | inl inside ↦
              let h : r < length names = ground arith in
              (
                is_eq (strcmp (name_at names r) want),
                rw (some', run, inside, load-get_or names r h),
                (λ t. (r, h, equal (name_at names r) t), found r first h),
              )
        ]
  ]

-- modification_has_ref: `true` is the 0 of C, that the transaction leaves the ref in place. `read_ref` is
-- reftable_table_read_ref on the table of the modification, `true` for a ref that it finds.
unfoldable pub modification_has_ref :
    (Name → Result Bool) → List Name → List Name → Name → Result Bool
unfolding search_names
modification_has_ref read_ref add del name = do
  in_add ← search_names add name
  if in_add
      then ok true
      else (do in_del ← search_names del name; if in_del then ok false else read_ref name)

-- With the added and the deleted names in order, modification_has_ref finds a name that is added, does not
-- find one that is only deleted, and answers for any other what the table answers.
pub modification_has_ref_lem :
    (read_ref : Name → Result Bool) (add del : List Name) (name : Name)
    → IsSorted add
    → IsSorted del
    → (a : Bool) × (d : Bool) × (modification_has_ref read_ref add del name
        ≡ (if a then ok true else if d then ok false else read_ref name))
      × ((a ≡ true) ↔ Has add name)
      × ((d ≡ true) ↔ Has del name)
unfolding modification_has_ref
modification_has_ref_lem read_ref add del name ha hd =
    let (a, ea, ia) = search_names_iff add name ha in
    let (d, ed, id) = search_names_iff del name hd in (a, d, rw (ea, ed), ia, id)
