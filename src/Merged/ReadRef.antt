-- ===== src/Merged/ReadRef.antt =====
-- reftable_table_read_ref over a merged table.
use Prim.Native.Nat.Ordering.{lt, eq}
use reftable.Base.{
  ℕ, ◌≤◌, ◌<◌, ◌≡◌, ◌⊎◌, refl, subst, sym, ◌∙◌, List, [], ◌∷◌, Bool, ◌&&◌, ◌||◌, not, Bool-cases,
  Option, some, none, Result, ok, All, arith, inl, inr, ◌>>=◌, if◌then◌else◌,
}
use reftable.Basics.Bytes.{strcmp, strcmp-eq, strcmp_refl, strcmp_swap_lt, Ordering-cases, is_eq}
use reftable.Record.Types.{Record, RefRecord, ref, obj, log, index}
use reftable.Record.Ref.{ref_record_key}
use reftable.Record.Any.{record_key, record_type, new_record, record_is_deletion, block_type_ref}
use reftable.Generic.{
  hash_size, wanted_ref, record_as_ref, reftable_table_seek_ref, reftable_iterator_next_ref,
  reftable_table_read_ref,
}
use reftable.Merged.{merged_iter_next_void}
use reftable.Merged.Table.{MergedTable, reftable_table_from_merged_table}
use reftable.Merged.Skip.{total}
use reftable.Merged.Newest.{
  find, newest, or_else, Ascending, Above-trans, shown_one, find-eq, find-lt, find-gt, find-Above,
}
use reftable.Merged.Entry.{Gives, Tables, Stored}
use reftable.Merged.Seek.{Sought, merged_table_seek_record-newest}

-- The ref that a record stands for, if it stands for one.
abbrev pub live : Option Record → Option RefRecord
live none = none
live (some (ref r)) = if record_is_deletion (ref r) then none else some r
live (some (obj r)) = none
live (some (log r)) = none
live (some (index r)) = none

-- The records from the name on.
abbrev pub From : List ℕ → Record → Type 0
From name r = (strcmp name (record_key r) ≡ lt) ⊎ (strcmp name (record_key r) ≡ eq)

or_else-some :
    (a b : Option Record) (r : Record) → or_else a b ≡ some r → (a ≡ some r) ⊎ (b ≡ some r)
or_else-some none b r e = inr e
or_else-some (some q) b r e = inl e

find_cons :
    (k : List ℕ) (q r : Record) (rs : List Record)
    → find k (q ∷ rs) ≡ some r
    → (q ≡ r) ⊎ (find k rs ≡ some r)
find_cons k q r rs e = elim (Ordering-cases (strcmp k (record_key q))) [
  | inl before ↦ inr (sym (find-lt k q rs before) ∙ e)
  | inr (inl same) ↦ inl (let here = sym (find-eq k q rs same) ∙ e in cc)
  | inr (inr after) ↦ inr (sym (find-gt k q rs after) ∙ e)
]

find-All :
    (P : Record → Type 0) (k : List ℕ) (rs : List Record) (r : Record)
    → All P rs
    → find k rs ≡ some r
    → P r
find-All P k [] r h e = cc
find-All P k (q ∷ rs) r (a, h) e = elim (find_cons k q r rs e) [
  | inl same ↦ subst P same a
  | inr later ↦ find-All P k rs r h later
]

newest-All :
    (P : Record → Type 0) (k : List ℕ) (lists : List (List Record)) (r : Record)
    → All (All P) lists
    → newest k lists ≡ some r
    → P r
newest-All P k [] r h e = cc
newest-All P k (l ∷ lists) r (a, h) e = elim (or_else-some (newest k lists) (find k l) r e) [
  | inl later ↦ newest-All P k lists r h later
  | inr here ↦ find-All P k l r a here
]

shown_one-some : (s : Bool) (o : Option Record) (r : Record) → shown_one s o ≡ some r → o ≡ some r
shown_one-some s none r e = cc
shown_one-some s (some q) r e = elim (Bool-cases (s && record_is_deletion q)) [
  | inl hidden ↦ cc
  | inr visible ↦ cc
]

shown_one-none : (s : Bool) (o : Option Record) → shown_one s o ≡ none → live o ≡ none
shown_one-none s none e = refl
shown_one-none s (some (ref r)) e = ground arith
shown_one-none s (some (obj r)) e = refl
shown_one-none s (some (log r)) e = refl
shown_one-none s (some (index r)) e = refl

-- What the test of reftable_table_read_ref makes of the record that is read.
abbrev accepted : List ℕ → RefRecord → Option RefRecord
accepted name x =
    if not (is_eq (strcmp x.refname name)) || record_is_deletion (ref x) then none else some x

module _ {M : Type 0} (step : M → Record → Result (Option (Record × M))) (name : List ℕ)
    (lists : List (List Record)) (suppress : Bool) where
  -- The first call finds nothing, and there is nothing, or it finds a record and the test decides.
  data FirstRef (m : M) (r : RefRecord) : Type 0 where
    nothing :
        reftable_iterator_next_ref step m r ≡ ok none
        → live (newest name lists) ≡ none
        → FirstRef m r
    one :
        (x : RefRecord) (m' : M)
        → reftable_iterator_next_ref step m r ≡ ok (some (x, m'))
        → accepted name x ≡ live (newest name lists)
        → FirstRef m r

  accepted-live :
      (x : RefRecord) (out : List Record)
      → From name (ref x)
      → Ascending (ref x ∷ out)
      → find name (ref x ∷ out) ≡ shown_one suppress (newest name lists)
      → accepted name x ≡ live (newest name lists)
  unfolding record_key ref_record_key
  accepted-live x out (inl before) (a, _) found =
      let absent = find-Above name (ref x ∷ out) (before, Above-trans name (ref x) out before a) in
      rw (
        shown_one-none suppress (newest name lists) (sym found ∙ absent),
        strcmp_swap_lt name x.refname before,
      )
  accepted-live x out (inr same) ascending found =
      let here = find-eq name (ref x) out same in
      let newest_here = shown_one-some suppress (newest name lists) (ref x) (sym found ∙ here) in
      rw (newest_here, sym (strcmp-eq name x.refname same), strcmp_refl name)

  typed_ref : (q : Record) → record_type q ≡ block_type_ref → (x : RefRecord) × (q ≡ ref x)
  unfolding record_type
  typed_ref (ref x) h = (x, refl)
  typed_ref (obj x) h = absurd (omega arith)
  typed_ref (log x) h = absurd (omega arith)
  typed_ref (index x) h = absurd (omega arith)

  first_ref :
      (size : ℕ) (m : M) (r : RefRecord) (out : List Record)
      → Tables size block_type_ref lists
      → All (All (From name)) lists
      → Gives step block_type_ref m out
      → Ascending out
      → ((k : List ℕ) → find k out ≡ shown_one suppress (newest k lists))
      → FirstRef m r
  unfolding reftable_iterator_next_ref record_as_ref record_type
  first_ref size m r [] t from read ascending found =
      nothing (rw (read (ref r) refl))
        (shown_one-none suppress (newest name lists) (sym (found name)))
  first_ref size m r (q ∷ out) t from (m', read, _) ascending found =
      let key = record_key q in
      let kept =
        shown_one-some suppress (newest key lists) q
          (sym (found key) ∙ find-eq key q out (strcmp_refl key)) in
      let (x, is_ref) =
        typed_ref q (newest-All (Stored size block_type_ref) key lists q t.stored kept).1 in
      let from_name = newest-All (From name) key lists q from kept in
      one x m' (rw (read (ref r) refl, is_ref)) (
        accepted-live x out (subst (From name) is_ref from_name)
          (subst (λ p. Ascending (p ∷ out)) is_ref ascending)
          (subst (λ p. find name (p ∷ out) ≡ shown_one suppress (newest name lists)) is_ref
            (found name)))

module _ {S : Type 0} (next : S → Record → Result (Option (Record × S))) (rec0 : Record) where
  -- A merged table over tables that give the refs from the name on answers the newest record of the name,
  -- and nothing where no table has one, or where the newest is a deletion.
  pub reftable_table_read_ref-newest :
      (size fuel : ℕ) (mt : MergedTable S) (name : List ℕ) (r : RefRecord)
      (lists : List (List Record))
      → hash_size mt.hash_id ≡ ok size
      → 0 < size
      → new_record block_type_ref ≡ ok rec0
      → Sought next rec0 (ref (wanted_ref name)) mt.stack lists
      → Tables size block_type_ref lists
      → All (All (From name)) lists
      → total lists ≤ fuel
      → reftable_table_read_ref
          (merged_iter_next_void next fuel)
          (reftable_table_from_merged_table next mt)
          name
          r
        ≡ ok (live (newest name lists))
  unfolding reftable_table_read_ref reftable_table_seek_ref reftable_table_from_merged_table
      record_type
  reftable_table_read_ref-newest size fuel mt name r lists sized pos fresh v t from enough =
      let (mi, out, sought, gives, ascending, found) =
        merged_table_seek_record-newest next rec0 size fuel mt (ref (wanted_ref name)) lists sized
          pos fresh v t enough in
      elim (first_ref (merged_iter_next_void next fuel) name lists mt.suppress_deletions size mi r
        out t from gives ascending found) [
          | nothing read none_left ↦ rw (sought, ◌>>=◌, read, none_left)
          | one x mi' read agrees ↦ rw (sought, ◌>>=◌, read, ◌>>=◌, agrees)
        ]
