-- ===== src/Merged/Examples.antt =====
-- Tests of the merged tables, over two tables of which the second deletes a ref of the first.
use reftable.Base.{
  ◌≢◌, ℕ, ◌≡◌, refl, List, [], ◌∷◌, true, false, Option, some, none, Result, ok, err, format_error,
  replicate, All, ◌⊎◌, arith, inl, inr,
}
use reftable.Record.Types.{Record, RefRecord, RefValue, IsRef, ref, val1}
use reftable.Basics.Bytes.{strcmp}
use reftable.Record.Ref.{ref_record_key, ref_record_is_deletion}
use reftable.Record.Any.{new_record, record_is_deletion, record_type, record_key, block_type_ref}
use reftable.Generic.{Table, hash_size, wanted_ref, reftable_table_read_ref}
use reftable.Merged.{MergedIter, merged_iter_next_void}
use reftable.Merged.Table.{
  MergedTable, reftable_new_merged_table, merged_table_seek_record,
  reftable_table_from_merged_table,
}
use reftable.Merged.Newest.{find, newest, Ascending, shown_one}
use reftable.Merged.Entry.{Gives, Tables, Stored}
use reftable.Merged.Seek.{Sought, Yields.iterator, merged_table_seek_record-newest}
use reftable.Merged.ReadRef.{reftable_table_read_ref-newest, live}
use reftable.Merged.Range.{Hashed, Spans, Attains, reftable_new_merged_table-Spans}

abbrev next : List Record → Record → Result (Option (Record × List Record))
next [] rec = ok none
next (r ∷ rs) rec = ok (some (r, rs))

abbrev ref_a : RefRecord
ref_a = record { refname = b'a' ∷ []; update_index = 1; value = val1 (replicate 20 1) }

abbrev ref_b : RefRecord
ref_b = record { refname = b'b' ∷ []; update_index = 1; value = val1 (replicate 20 2) }

abbrev gone_a : RefRecord
gone_a = record { refname = b'a' ∷ []; update_index = 2; value = RefValue.deletion }

abbrev older : List Record
older = ref ref_a ∷ ref ref_b ∷ []

abbrev newer : List Record
newer = ref gone_a ∷ []

abbrev table : ℕ → List Record → Table (List Record)
table n rs = record {
  seek_record = λ rec. ok (some rs);
  hash_id = 0;
  min_update_index = n;
  max_update_index = n;
}

abbrev merged : MergedTable (List Record)
merged = record {
  stack = table 1 older ∷ table 2 newer ∷ [];
  hash_id = 0;
  suppress_deletions = true;
  min = 1;
  max = 2;
}

abbrev lists : List (List Record)
lists = older ∷ newer ∷ []

is_ref : (r : RefRecord) → IsRef 20 r → Stored 20 block_type_ref (ref r)
unfolding record_type
is_ref r w = (w, refl)

ref_a-IsRef : IsRef 20 ref_a
ref_a-IsRef = record {
  hash_pos = omega arith;
  hash_small = omega arith;
  named = ground arith;
  indexed = omega arith;
  valued = refl;
}

ref_b-IsRef : IsRef 20 ref_b
ref_b-IsRef = record {
  hash_pos = omega arith;
  hash_small = omega arith;
  named = ground arith;
  indexed = omega arith;
  valued = refl;
}

gone_a-IsRef : IsRef 20 gone_a
gone_a-IsRef = record {
  hash_pos = omega arith;
  hash_small = omega arith;
  named = ground arith;
  indexed = omega arith;
  valued = tt;
}

tables : Tables 20 block_type_ref lists
unfolding record_key ref_record_key strcmp
tables = record {
  stored = (
    (is_ref ref_a ref_a-IsRef, (is_ref ref_b ref_b-IsRef, tt)),
    ((is_ref gone_a gone_a-IsRef, tt), tt),
  );
  sorted = (((refl, tt), (tt, tt)), ((tt, tt), tt));
}

abbrev rec0 : Record
rec0 = ref (record { refname = []; update_index = 0; value = RefValue.deletion })

sought : Sought next rec0 (ref (wanted_ref (b'a' ∷ []))) merged.stack lists
sought = (
  iterator older refl (ref ref_b ∷ [], refl, ([], refl, refl)),
  (iterator newer refl ([], refl, refl), tt),
)

reftable_table_read_ref-newest_example :
    reftable_table_read_ref
      (merged_iter_next_void next 3)
      (reftable_table_from_merged_table next merged)
      (b'a' ∷ [])
      ref_b
    ≡ ok (live (newest (b'a' ∷ []) lists))
unfolding record_key ref_record_key strcmp hash_size new_record
reftable_table_read_ref-newest_example =
    reftable_table_read_ref-newest next rec0 20 3 merged (b'a' ∷ []) ref_b lists refl (omega arith)
      refl sought tables ((inr refl, (inl refl, tt)), ((inr refl, tt), tt)) (omega arith)

-- The ref that the second table deletes is not found.
read_deleted : live (newest (b'a' ∷ []) lists) ≡ none
unfolding record_key ref_record_key strcmp record_is_deletion ref_record_is_deletion
read_deleted = refl

merged_table_seek_record-newest_example :
    (mi : MergedIter (List Record)) × (out : List Record) × (merged_table_seek_record next merged
        (ref (wanted_ref (b'a' ∷ [])))
      ≡ ok (some mi))
    × Gives (merged_iter_next_void next 3) block_type_ref mi out
    × Ascending out
    × ((k : List ℕ) → find k out ≡ shown_one true (newest k lists))
unfolding hash_size new_record record_type
merged_table_seek_record-newest_example =
    merged_table_seek_record-newest next rec0 20 3 merged (ref (wanted_ref (b'a' ∷ []))) lists refl
      (omega arith) refl sought tables (omega arith)

reftable_new_merged_table-Spans_example :
    (All (Hashed 0) merged.stack
      × ((mt : MergedTable (List Record)) × (reftable_new_merged_table merged.stack 0 ≡ ok mt)
          × (mt.stack ≡ merged.stack)
          × (mt.hash_id ≡ 0)
          × (mt.suppress_deletions ≡ false)
          × All (Spans mt.min mt.max) merged.stack
          × (merged.stack ≢ []
              → Attains (λ tab. tab.min_update_index) mt.min merged.stack
                × Attains (λ tab. tab.max_update_index) mt.max merged.stack)))
    ⊎ ((¬ (All (Hashed 0) merged.stack))
        × (reftable_new_merged_table merged.stack 0 ≡ err format_error))
reftable_new_merged_table-Spans_example = reftable_new_merged_table-Spans merged.stack 0
