-- ===== src/Merged/Newest.antt =====
-- What a merged table promises: of the tables that have a key, the last one answers.
use Prim.Native.Nat.Ordering.{lt, eq, gt}
use reftable.Base.{
  ℕ, ◌≡◌, refl, ◌∙◌, List, [], ◌∷◌, Bool, true, false, ◌&&◌, Bool-cases, Option, some, none, All,
  inl, inr,
}
use reftable.Basics.Bytes.{
  strcmp, strcmp_trans, strcmp-eq, strcmp_swap_lt, strcmp_swap_gt, Ordering-cases,
}
use reftable.Record.Types.{Record}
use reftable.Record.Any.{record_key, record_is_deletion}
use reftable.Merged.Skip.{skip, skip_all, skip-gt, skip-lt, skip-eq}

-- The record of a table with the key.
abbrev pub find : List ℕ → List Record → Option Record
find k [] = none
find k (r ∷ rs) = elim (strcmp k (record_key r)) [ eq ↦ some r | _ ↦ find k rs ]

abbrev pub or_else : Option Record → Option Record → Option Record
or_else (some r) other = some r
or_else none other = other

pub or_else-none : (o : Option Record) → or_else o none ≡ o
or_else-none none = refl
or_else-none (some r) = refl

-- That of the last table with the key.
abbrev pub newest : List ℕ → List (List Record) → Option Record
newest k [] = none
newest k (l ∷ lists) = or_else (newest k lists) (find k l)

abbrev pub Above : List ℕ → Record → Type 0
Above k r = strcmp k (record_key r) ≡ lt

abbrev pub Ascending : List Record → Type 0
Ascending [] = Unit {0}
Ascending (r ∷ rs) = All (Above (record_key r)) rs × Ascending rs

pub find-eq :
    (k : List ℕ) (r : Record) (rs : List Record)
    → strcmp k (record_key r) ≡ eq
    → find k (r ∷ rs) ≡ some r
find-eq k r rs h = rw (find, h)

pub find-lt :
    (k : List ℕ) (r : Record) (rs : List Record)
    → strcmp k (record_key r) ≡ lt
    → find k (r ∷ rs) ≡ find k rs
find-lt k r rs h = rw (find, h)

pub find-gt :
    (k : List ℕ) (r : Record) (rs : List Record)
    → strcmp k (record_key r) ≡ gt
    → find k (r ∷ rs) ≡ find k rs
find-gt k r rs h = rw (find, h)

pub find-Above : (k : List ℕ) (rs : List Record) → All (Above k) rs → find k rs ≡ none
find-Above k [] h = refl
find-Above k (r ∷ rs) (a, h) = find-lt k r rs a ∙ find-Above k rs h

pub newest-Above :
    (k : List ℕ) (lists : List (List Record)) → All (All (Above k)) lists → newest k lists ≡ none
newest-Above k [] h = refl
newest-Above k (l ∷ lists) (a, h) = rw (newest-Above k lists h) (find-Above k l a)

pub Above-trans :
    (k : List ℕ) (r : Record) (rs : List Record)
    → Above k r
    → All (Above (record_key r)) rs
    → All (Above k) rs
Above-trans k r [] h all = tt
Above-trans k r (q ∷ rs) h (a, all) =
    (strcmp_trans k (record_key r) (record_key q) h a, Above-trans k r rs h all)

-- Dropping what is not behind `k` leaves what is, in an ascending table, and the rest is not found anyway.
pub skip-Above : (k : List ℕ) (rs : List Record) → Ascending rs → All (Above k) (skip k rs)
skip-Above k [] h = tt
skip-Above k (r ∷ rs) (a, h) = elim (Ordering-cases (strcmp (record_key r) k)) [
  | inl before ↦ rw (skip-lt k r rs before) (skip-Above k rs h)
  | inr (inl same) ↦ rw (skip-eq k r rs same) (skip-Above k rs h)
  | inr (inr behind) ↦
      let above = strcmp_swap_gt (record_key r) k behind in
      rw (skip-gt k r rs behind) (above, Above-trans k r rs above a)
]

pub skip-All : (P : Record → Type 0) (k : List ℕ) (rs : List Record) → All P rs → All P (skip k rs)
skip-All P k [] h = tt
skip-All P k (r ∷ rs) (a, h) = elim (Ordering-cases (strcmp (record_key r) k)) [
  | inl before ↦ rw (skip-lt k r rs before) (skip-All P k rs h)
  | inr (inl same) ↦ rw (skip-eq k r rs same) (skip-All P k rs h)
  | inr (inr behind) ↦ rw (skip-gt k r rs behind) (a, h)
]

pub skip-Ascending : (k : List ℕ) (rs : List Record) → Ascending rs → Ascending (skip k rs)
skip-Ascending k [] h = tt
skip-Ascending k (r ∷ rs) (a, h) = elim (Ordering-cases (strcmp (record_key r) k)) [
  | inl before ↦ rw (skip-lt k r rs before) (skip-Ascending k rs h)
  | inr (inl same) ↦ rw (skip-eq k r rs same) (skip-Ascending k rs h)
  | inr (inr behind) ↦ rw (skip-gt k r rs behind) (a, h)
]

find-skip : (k j : List ℕ) (rs : List Record) → strcmp j k ≡ lt → find k (skip j rs) ≡ find k rs
find-skip k j [] h = refl
find-skip k j (r ∷ rs) h = elim (Ordering-cases (strcmp (record_key r) j)) [
  | inl before ↦
      let apart = strcmp_swap_lt (record_key r) k (strcmp_trans (record_key r) j k before h) in
      rw (skip-lt j r rs before, find-gt k r rs apart) (find-skip k j rs h)
  | inr (inl same) ↦
      let apart = strcmp_swap_lt (record_key r) k (rw (strcmp-eq (record_key r) j same) h) in
      rw (skip-eq j r rs same, find-gt k r rs apart) (find-skip k j rs h)
  | inr (inr behind) ↦ rw (skip-gt j r rs behind)
]

pub newest-skip :
    (k j : List ℕ) (lists : List (List Record))
    → strcmp j k ≡ lt
    → newest k (skip_all j lists) ≡ newest k lists
newest-skip k j [] h = refl
newest-skip k j (l ∷ lists) h = rw (newest-skip k j lists h, find-skip k j l h)

-- What is left of a table when deletions are suppressed, and when they are not.
abbrev pub shown : Bool → List Record → List Record
shown suppress [] = []
shown suppress (r ∷ rs) = elim (suppress && record_is_deletion r) [
  | true ↦ shown suppress rs
  | false ↦ r ∷ shown suppress rs
]

abbrev pub shown_one : Bool → Option Record → Option Record
shown_one suppress none = none
shown_one suppress (some r) = elim (suppress && record_is_deletion r) [
  | true ↦ none
  | false ↦ some r
]

pub shown-All :
    (P : Record → Type 0) (suppress : Bool) (rs : List Record)
    → All P rs
    → All P (shown suppress rs)
shown-All P suppress [] h = tt
shown-All P suppress (r ∷ rs) (a, h) = elim (Bool-cases (suppress && record_is_deletion r)) [
  | inl hidden ↦ rw (shown, hidden) (shown-All P suppress rs h)
  | inr visible ↦ rw (shown, visible) (a, shown-All P suppress rs h)
]

pub shown-Ascending :
    (suppress : Bool) (rs : List Record) → Ascending rs → Ascending (shown suppress rs)
shown-Ascending suppress [] h = tt
shown-Ascending suppress (r ∷ rs) (a, h) = elim (Bool-cases (suppress && record_is_deletion r)) [
  | inl hidden ↦ rw (shown, hidden) (shown-Ascending suppress rs h)
  | inr visible ↦
      rw (shown, visible)
        (shown-All (Above (record_key r)) suppress rs a, shown-Ascending suppress rs h)
]

pub find-shown :
    (k : List ℕ) (suppress : Bool) (rs : List Record)
    → Ascending rs
    → find k (shown suppress rs) ≡ shown_one suppress (find k rs)
find-shown k suppress [] h = refl
find-shown k suppress (r ∷ rs) (a, h) = elim (Bool-cases (suppress && record_is_deletion r)) [
  | inl hidden ↦ elim (Ordering-cases (strcmp k (record_key r))) [
    | inl before ↦ rw (shown, hidden, find-lt k r rs before) (find-shown k suppress rs h)
    | inr (inl same) ↦
        let key = strcmp-eq k (record_key r) same in
        let absent =
          find-Above k (shown suppress rs) (shown-All (Above k) suppress rs (rw key a)) in
        rw (shown, hidden, find-eq k r rs same, shown_one, hidden) absent
    | inr (inr after) ↦ rw (shown, hidden, find-gt k r rs after) (find-shown k suppress rs h)
  ]
  | inr visible ↦ elim (Ordering-cases (strcmp k (record_key r))) [
    | inl before ↦
        rw (shown, visible, find-lt k r rs before, find-lt k r (shown suppress rs) before)
          (find-shown k suppress rs h)
    | inr (inl same) ↦ rw (
      shown,
      visible,
      find-eq k r rs same,
      find-eq k r (shown suppress rs) same,
      shown_one,
      visible,
    )
    | inr (inr after) ↦
        rw (shown, visible, find-gt k r rs after, find-gt k r (shown suppress rs) after)
          (find-shown k suppress rs h)
  ]
]
