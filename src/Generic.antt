-- ===== src/Generic.antt =====
-- c/generic.c, c/reftable-generic.h and hash_size of c/publicbasics.c. A table stands for what the functions
-- of its vtable answer at its table_arg; `next` is that of the iterators' vtables. A result `none` is the 1 of C.

use reftable.Base.{
  ℕ, ◌-◌, List, Option, some, none, ◌==◌, ◌||◌, if◌then◌else◌, Result, ok, fault, aborted, ◌>>=◌,
  not,
}
use reftable.Basics.Bytes.{strcmp, is_eq}
use reftable.Record.Types.{Record, RefRecord, LogRecord, RefValue, ref, obj, log, index}
use reftable.Record.View.{u64}
use reftable.Record.Any.{no_update, record_is_deletion}

abbrev pub git_sha1_format_id : ℕ
git_sha1_format_id = 0x73686131

abbrev pub git_sha256_format_id : ℕ
git_sha256_format_id = 0x73323536

-- The sizes are those of the two hashes, GIT_SHA1_RAWSZ and GIT_SHA256_RAWSZ.
unfoldable pub hash_size : ℕ → Result ℕ
hash_size id =
    if id == 0 || id == git_sha1_format_id
    then ok 20
    else if id == git_sha256_format_id
    then ok 32
    else fault aborted

pub record Table (S : Type 0) : Type 0 where
  pub seek_record : Record → Result (Option S)
  pub hash_id : ℕ
  pub min_update_index : ℕ
  pub max_update_index : ℕ

abbrev pub wanted_ref : List ℕ → RefRecord
wanted_ref name = record { refname = name; update_index = 0; value = RefValue.deletion }

abbrev pub wanted_log : List ℕ → ℕ → LogRecord
wanted_log name update_index = record {
  refname = name;
  update_index = update_index;
  value_type = 0;
  update = no_update;
}

-- reftable_record_as_ref: the record has to be one.
unfoldable pub record_as_ref : Record → Result RefRecord
record_as_ref (ref r) = ok r
record_as_ref (obj r) = fault aborted
record_as_ref (log r) = fault aborted
record_as_ref (index r) = fault aborted

unfoldable pub record_as_log : Record → Result LogRecord
record_as_log (log r) = ok r
record_as_log (ref r) = fault aborted
record_as_log (obj r) = fault aborted
record_as_log (index r) = fault aborted

unfoldable pub empty_iterator_next : {S : Type 0} → S → Record → Result (Option (Record × S))
empty_iterator_next arg rec = ok none

module _ {S : Type 0} where
  unfoldable pub reftable_table_seek_ref : Table S → List ℕ → Result (Option S)
  reftable_table_seek_ref tab name = tab.seek_record (ref (wanted_ref name))

  unfoldable pub reftable_table_seek_log : Table S → List ℕ → Result (Option S)
  reftable_table_seek_log tab name = tab.seek_record (log (wanted_log name (u64 - 1)))

  module _ (next : S → Record → Result (Option (Record × S))) where
    -- The iterator writes into the ref record that it is given, so what it has read over is a ref record.
    unfoldable pub reftable_iterator_next_ref : S → RefRecord → Result (Option (RefRecord × S))
    unfolding record_as_ref
    reftable_iterator_next_ref it r = do
      step ← next it (ref r)
      elim step [
        | none ↦ ok none
        | some (rec, it') ↦ (do read ← record_as_ref rec; ok (some (read, it')))
      ]

    unfoldable pub reftable_iterator_next_log : S → LogRecord → Result (Option (LogRecord × S))
    unfolding record_as_log
    reftable_iterator_next_log it r = do
      step ← next it (log r)
      elim step [
        | none ↦ ok none
        | some (rec, it') ↦ (do read ← record_as_log rec; ok (some (read, it')))
      ]

    -- The record read over is `r`; a record of another name, and a deletion, are not what is looked for.
    unfoldable pub reftable_table_read_ref :
        Table S → List ℕ → RefRecord → Result (Option RefRecord)
    reftable_table_read_ref tab name r = do
      it ← reftable_table_seek_ref tab name
      elim it [
        | none ↦ ok none
        | some s ↦ (do
          step ← reftable_iterator_next_ref s r
          elim step [
            | none ↦ ok none
            | some (read, _) ↦ ok (
                if not (is_eq (strcmp read.refname name)) || record_is_deletion (ref read)
                then none
                else some read)
          ])
      ]
