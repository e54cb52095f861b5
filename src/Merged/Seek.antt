-- ===== src/Merged/Seek.antt =====
-- A seek in a merged table, from the seeks in its tables to the records that the iterator gives.
use reftable.Base.{
  ℕ, ◌≤◌, ◌<◌, ◌≡◌, refl, sym, ap, ◌∙◌, List, [], ◌∷◌, Option, some, none, Result, ok, arith,
}
use reftable.Record.Types.{Record}
use reftable.Record.Any.{record_type, new_record}
use reftable.Generic.{Table, hash_size}
use reftable.Merged.{MergedIter, merged_iter_next_void}
use reftable.Merged.Table.{MergedTable, seek_loop, merged_table_seek_record}
use reftable.Merged.Advance.{Drains}
use reftable.Merged.Skip.{total}
use reftable.Merged.Newest.{find, newest, or_else-none, Ascending, shown_one}
use reftable.Merged.Entry.{Gives, Tables}
use reftable.Merged.Init.{Sources, merged_iter_init-Holds}
use reftable.Merged.Refine.{Holding-Gives}

module _ {S : Type 0} (next : S → Record → Result (Option (Record × S))) (rec0 : Record) where
  -- A table finds no record, or it gives an iterator over these.
  pub data Yields (rec : Record) (tab : Table S) (l : List Record) : Type 0 where
    nothing : tab.seek_record rec ≡ ok none → l ≡ [] → Yields rec tab l
    iterator : (s : S) → tab.seek_record rec ≡ ok (some s) → Drains next rec0 s l → Yields rec tab l

  abbrev pub Sought : Record → List (Table S) → List (List Record) → Type 0
  Sought rec [] [] = Unit {0}
  Sought rec [] (l ∷ lists) = ⊥
  Sought rec (tab ∷ stack) [] = ⊥
  Sought rec (tab ∷ stack) (l ∷ lists) = Yields rec tab l × Sought rec stack lists

  -- The lists that are left come to the same.
  record Found (size typ : ℕ) (lists lists' : List (List Record)) : Type 0 where
    smaller : total lists' ≤ total lists
    tables : Tables size typ lists → Tables size typ lists'
    same : (k : List ℕ) → newest k lists' ≡ newest k lists

  seek_loop-Sources :
      (size : ℕ) (rec : Record) (stack : List (Table S)) (lists : List (List Record))
      → Sought rec stack lists
      → (subs : List S) × (lists' : List (List Record)) × (seek_loop stack rec ≡ ok subs)
        × Sources next rec0 subs lists'
        × Found size (record_type rec) lists lists'
  unfolding seek_loop
  seek_loop-Sources size rec [] [] v =
      ([], [], refl, tt, record { smaller = omega arith; tables = λ t. t; same = λ k. refl })
  seek_loop-Sources size rec [] (l ∷ lists) v = absurd v
  seek_loop-Sources size rec (tab ∷ stack) [] v = absurd v
  seek_loop-Sources size rec (tab ∷ stack) (l ∷ lists) (nothing found no_records, v) =
      let (subs, lists', run, sources, f) = seek_loop-Sources size rec stack lists v in
      (
        subs,
        lists',
        rw (found, run),
        sources,
        record {
          smaller = omega (arith, f.smaller);
          tables = λ t. f.tables (record { stored = t.stored.1; sorted = t.sorted.1 });
          same = λ k. f.same k ∙ rw no_records (sym (or_else-none (newest k lists)));
        },
      )
  seek_loop-Sources size rec (tab ∷ stack) (l ∷ lists) (iterator s found drains, v) =
      let (subs, lists', run, sources, f) = seek_loop-Sources size rec stack lists v in
      (
        s ∷ subs,
        l ∷ lists',
        rw (found, run),
        (drains, sources),
        record {
          smaller = omega (arith, f.smaller);
          tables = λ t.
              let rest = f.tables (record { stored = t.stored.1; sorted = t.sorted.1 }) in
              record { stored = (t.stored.0, rest.stored); sorted = (t.sorted.0, rest.sorted) };
          same = λ k. rw (f.same k);
        },
      )

  -- A seek in a merged table whose tables give sorted records of the type that is sought gives an iterator.
  -- It gives records in the strict order of their keys, and of each key the record of the last table that has
  -- it, or nothing where that is a deletion and deletions are suppressed.
  pub merged_table_seek_record-newest :
      (size fuel : ℕ) (mt : MergedTable S) (rec : Record) (lists : List (List Record))
      → hash_size mt.hash_id ≡ ok size
      → 0 < size
      → new_record (record_type rec) ≡ ok rec0
      → Sought rec mt.stack lists
      → Tables size (record_type rec) lists
      → total lists ≤ fuel
      → (mi : MergedIter S) × (out : List Record) × (merged_table_seek_record next mt rec
          ≡ ok (some mi))
        × Gives (merged_iter_next_void next fuel) (record_type rec) mi out
        × Ascending out
        × ((k : List ℕ) → find k out ≡ shown_one mt.suppress_deletions (newest k lists))
  unfolding merged_table_seek_record
  merged_table_seek_record-newest size fuel mt rec lists sized pos fresh v t enough =
      let (subs, lists', run, sources, f) = seek_loop-Sources size rec mt.stack lists v in
      let (mi, init, holds) =
        merged_iter_init-Holds next rec0 mt.hash_id size (record_type rec) mt.suppress_deletions
          sized fresh subs lists' sources in
      let (out, gives, ascending, found) =
        Holding-Gives next rec0 size (record_type rec) mt.suppress_deletions fresh pos fuel mi
          lists' (omega (arith, f.smaller)) (f.tables t) holds in
      (
        mi,
        out,
        rw (run, init),
        gives,
        ascending,
        (λ k. found k ∙ ap (shown_one mt.suppress_deletions) (f.same k)),
      )
