-- ===== src/Merged/Refine.antt =====
-- The iterator as a client sees it: one sorted table, in which the newest record of each key stands.
use reftable.Base.{
  ℕ, zero, suc, ◌<◌, ◌≤◌, ◌≡◌, refl, sym, ap, ◌∙◌, List, [], ◌∷◌, Bool, ◌&&◌, Option, some, none,
  Result, ok, length, get_elem?, All, arith, Bool-cases, inl, inr, ◌>>=◌,
}
use reftable.Basics.Bytes.{strcmp, strcmp-eq, strcmp_swap_gt, Ordering-cases}
use reftable.Record.Types.{Record}
use reftable.Record.Any.{record_key, record_type, new_record, record_is_deletion}
use reftable.Pq.{PqEntry, merged_iter_pqueue_is_empty}
use reftable.Pq.Order.{Precedes}
use reftable.Merged.{
  MergedIter, merged_iter_next_entry, next_loop, merged_iter_next, merged_iter_next_void,
}
use reftable.Merged.Heads.{heads}
use reftable.Merged.Skip.{skip_all, total, heads_nil, is_empty-nil}
use reftable.Merged.Newest.{
  find, newest, Above, Ascending, find-eq, find-lt, find-gt, find-Above, newest-Above, newest-skip,
  shown, shown_one, shown-Ascending, find-shown,
}
use reftable.Merged.First.{heads-Above, newest-front}
use reftable.Merged.Entry.{
  Gives, Tables, Tables-skip, Stored, Holding, entry_read, get-All, skip_all-All, skip_all-Above,
  heads_nil-newest, total_less,
}

-- What the tables come to, read in one go.
pub record Merges (size typ : ℕ) (lists : List (List Record)) (out : List Record) : Type 0 where
  pub ascending : Ascending out
  pub stored : All (Stored size typ) out
  pub bounded : length out ≤ total lists
  pub above : (k : List ℕ) → All (All (Above k)) lists → All (Above k) out
  pub found : (k : List ℕ) → find k out ≡ newest k lists

module _ (size typ : ℕ) (lists : List (List Record)) (t : Tables size typ lists) where
  Merges-nil : heads 0 lists ≡ [] → Merges size typ lists []
  Merges-nil none_left = record {
    ascending = tt;
    stored = tt;
    bounded = omega arith;
    above = λ k h. tt;
    found = λ k. sym (heads_nil-newest k 0 lists none_left);
  }

  module _ (e : PqEntry) (rs out : List Record) (at_e : get_elem? lists e.idx ≡ some (e.rec ∷ rs))
      (least : All (Precedes e) (heads 0 lists))
      (rest : Merges size typ (skip_all (record_key e.rec) lists) out) where
    behind : All (Above (record_key e.rec)) out
    behind = rest.above (record_key e.rec) (skip_all-Above (record_key e.rec) lists t.sorted)

    found_cons : (k : List ℕ) → find k (e.rec ∷ out) ≡ newest k lists
    found_cons k = elim (Ordering-cases (strcmp k (record_key e.rec))) [
      | inl before ↦
          let above = heads-Above e k 0 lists (inl before) t.sorted least in
          find-lt k e.rec out before
          ∙ find-Above k out (rest.above k (skip_all-All (Above k) (record_key e.rec) lists above))
          ∙ sym (newest-Above k lists above)
      | inr (inl same) ↦
          let key = strcmp-eq k (record_key e.rec) same in
          find-eq k e.rec out same
          ∙ sym (
              ap (λ j. newest j lists) key
              ∙ newest-front 0 e.idx lists e rs (omega arith) at_e t.sorted least)
      | inr (inr after) ↦
          find-gt k e.rec out after
          ∙ rest.found k
          ∙ newest-skip k (record_key e.rec) lists (strcmp_swap_gt k (record_key e.rec) after)
    ]

    Merges-cons : Merges size typ lists (e.rec ∷ out)
    Merges-cons = record {
      ascending = (behind, rest.ascending);
      stored = (get-All (Stored size typ) lists e.idx e.rec rs t.stored at_e, rest.stored);
      bounded = omega (arith, total_less lists e.idx e.rec rs at_e, rest.bounded);
      above = λ k h. (
        get-All (Above k) lists e.idx e.rec rs h at_e,
        rest.above k (skip_all-All (Above k) (record_key e.rec) lists h),
      );
      found = found_cons;
    }

module _ {S : Type 0} (next : S → Record → Result (Option (Record × S))) (rec0 : Record)
    (size typ : ℕ) (suppress : Bool) (fresh : new_record typ ≡ ok rec0) (pos : 0 < size) where
  abbrev Held : MergedIter S → List (List Record) → Type 0
  Held = Holding next rec0 size typ suppress fresh

  -- The entries that the calls read, at iterators with the flag.
  abbrev Chain : ℕ → MergedIter S → List Record → Type 0
  Chain fuel mi [] =
      (mi.suppress_deletions ≡ suppress)
      × ((rec : Record) → record_type rec ≡ typ → merged_iter_next_entry next fuel mi rec ≡ ok none)
  Chain fuel mi (r ∷ out) =
      (mi.suppress_deletions ≡ suppress)
      × (mi' : MergedIter S) × ((rec : Record)
          → record_type rec ≡ typ
          → merged_iter_next_entry next fuel mi rec ≡ ok (some (r, mi')))
      × Chain fuel mi' out

  next_entry_within :
      (n fuel : ℕ) (mi : MergedIter S) (lists : List (List Record))
      → total lists < n
      → total lists ≤ fuel
      → Tables size typ lists
      → Held mi lists
      → (out : List Record) × Chain fuel mi out × Merges size typ lists out
  unfolding merged_iter_next_entry
  next_entry_within zero fuel mi lists f enough t h = absurd (omega arith)
  next_entry_within (suc n) fuel mi lists f enough t h =
      elim (Bool-cases (merged_iter_pqueue_is_empty mi.pq)) [
        | inl empty ↦ (
          [],
          (h.suppressed, (λ rec same. rw empty)),
          Merges-nil size typ lists t
              (heads_nil next rec0 size typ suppress fresh mi lists h (is_empty-nil mi.pq empty)),
        )
        | inr more ↦
            let (e, rs, mi', at_e, least, read, holds) =
              entry_read next rec0 size typ suppress fresh fuel mi lists pos enough t h more in
            let less = total_less lists e.idx e.rec rs at_e in
            let (out, gives, merges) =
              next_entry_within n fuel mi' (skip_all (record_key e.rec) lists) (omega arith)
                (omega arith) (Tables-skip size typ (record_key e.rec) lists t) holds in
            (
              e.rec ∷ out,
              (h.suppressed, mi', read, gives),
              Merges-cons size typ lists t e rs out at_e least merges,
            )
      ]

  -- A call reads the first entry that is to be shown.
  data Shows (fuel : ℕ) (mi : MergedIter S) (out : List Record) : Type 0 where
    ends :
        shown suppress out ≡ []
        → ((rounds : ℕ) (rec : Record)
            → length out < rounds
            → record_type rec ≡ typ
            → next_loop next rounds fuel mi rec ≡ ok none)
        → Shows fuel mi out
    shows :
        (r : Record) (mi' : MergedIter S) (out' : List Record)
        → shown suppress out ≡ r ∷ shown suppress out'
        → length out' < length out
        → Chain fuel mi' out'
        → All (Stored size typ) out'
        → ((rounds : ℕ) (rec : Record)
            → length out < rounds
            → record_type rec ≡ typ
            → next_loop next rounds fuel mi rec ≡ ok (some (r, mi')))
        → Shows fuel mi out

  next_loop-Shows :
      (fuel : ℕ) (mi : MergedIter S) (out : List Record)
      → Chain fuel mi out
      → All (Stored size typ) out
      → Shows fuel mi out
  unfolding next_loop
  next_loop-Shows fuel mi [] (flag, read) w = ends refl (elim [
    | zero ↦ λ rec f same. absurd (omega arith)
    | suc rounds ↦ λ rec f same. rw (read rec same)
  ])
  next_loop-Shows fuel mi (r ∷ out) (flag, mi', read, chain) ((_, of_type), w) =
      elim (Bool-cases (suppress && record_is_deletion r)) [
        | inl hidden ↦
            let passed : (answer : Result (Option (Record × MergedIter S)))
                → ((rounds : ℕ) (rec : Record)
                    → length out < rounds
                    → record_type rec ≡ typ
                    → next_loop next rounds fuel mi' rec ≡ answer)
                → (rounds : ℕ) (rec : Record) → length (r ∷ out) < rounds
                → record_type rec ≡ typ
                → next_loop next rounds fuel mi rec ≡ answer =
              λ answer rest. elim [
                | zero ↦ λ rec f same. absurd (omega arith)
                | suc rounds ↦ λ rec f same.
                    rw (read rec same, ◌>>=◌, flag, hidden) (rest rounds r (omega arith) of_type)
              ] in
            elim (next_loop-Shows fuel mi' out chain w) [
              | ends none_left rest ↦ ends (rw (shown, hidden) none_left) (passed (ok none) rest)
              | shows q mi2 out' one_left less chain' w' rest ↦
                  shows q mi2 out' (rw (shown, hidden) one_left) (omega arith) chain' w'
                    (passed (ok (some (q, mi2))) rest)
            ]
        | inr visible ↦ shows r mi' out (rw (shown, visible)) (omega arith) chain w (elim [
          | zero ↦ λ rec f same. absurd (omega arith)
          | suc rounds ↦ λ rec f same. rw (read rec same, ◌>>=◌, flag, visible)
        ])
      ]

  -- Over an iterator whose queue has run out, the two calls give the same.
  void-next :
      (fuel : ℕ) (mi : MergedIter S) (rec : Record)
      → merged_iter_next_void next fuel mi rec ≡ merged_iter_next next fuel mi rec
  unfolding merged_iter_next_void merged_iter_next next_loop merged_iter_next_entry
  void-next fuel mi rec = elim (Bool-cases (merged_iter_pqueue_is_empty mi.pq)) [
    | inl empty ↦ rw empty
    | inr more ↦ rw more
  ]

  next-Gives :
      (n fuel : ℕ) (mi : MergedIter S) (out : List Record)
      → length out < n
      → length out ≤ fuel
      → Chain fuel mi out
      → All (Stored size typ) out
      → Gives (merged_iter_next_void next fuel) typ mi (shown suppress out)
  unfolding merged_iter_next
  next-Gives zero fuel mi out f enough chain w = absurd (omega arith)
  next-Gives (suc n) fuel mi out f enough chain w = elim (next_loop-Shows fuel mi out chain w) [
    | ends none_left read ↦
        rw none_left (λ rec same. void-next fuel mi rec ∙ read (suc fuel) rec (omega arith) same)
    | shows r mi' out' one_left less chain' w' read ↦ rw one_left (
      mi',
      λ rec same. void-next fuel mi rec ∙ read (suc fuel) rec (omega arith) same,
      next-Gives n fuel mi' out' (omega arith) (omega arith) chain' w',
    )
  ]

  pub Holding-Gives :
      (fuel : ℕ) (mi : MergedIter S) (lists : List (List Record))
      → total lists ≤ fuel
      → Tables size typ lists
      → Held mi lists
      → (out : List Record) × Gives (merged_iter_next_void next fuel) typ mi out
        × Ascending out
        × ((k : List ℕ) → find k out ≡ shown_one suppress (newest k lists))
  Holding-Gives fuel mi lists enough t h =
      let (out, chain, merges) =
        next_entry_within (suc (total lists)) fuel mi lists (omega arith) enough t h in
      (
        shown suppress out,
        next-Gives (suc (length out)) fuel mi out (omega arith) (omega (arith, merges.bounded))
            chain merges.stored,
        shown-Ascending suppress out merges.ascending,
        (λ k.
            find-shown k suppress out merges.ascending ∙ ap (shown_one suppress) (merges.found k)),
      )
