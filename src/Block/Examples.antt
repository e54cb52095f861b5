-- ===== src/Block/Examples.antt =====
-- The theorems on blocks at a block of two refs.
use reftable.Base.{
  ℕ, ◌+◌, ◌-◌, ◌≤◌, ◌≡◌, refl, ◌∙◌, List, [], ◌∷◌, length, false, Option, none, ok, err, general,
  replicate, ltb, if◌then◌else◌, arith,
}
use reftable.Basics.Bytes.{common_prefix_size}
use reftable.Record.VarInt.{varint}
use reftable.Record.Key.{is_restart, encode_key}
use reftable.Record.Ref.{ref_record_key, ref_record_val_type}
use reftable.Record.Any.{record_key, record_val_type, record_encode}
use reftable.Record.Types.{RefRecord, val1, symref, Record, ref, IsRef}
use reftable.Record.Any.{is_block_type, block_type_ref, record_type}
use reftable.Block.Writer.{
  BlockWriter, ZResult, z_other, block_writer_add, block_writer_finish, space,
}
use reftable.Block.Reader.{BlockReader, block_reader_init, block_reader_start}
use reftable.Block.Fill.{
  IsValid, last_of, need, added, block_writer_add_lem, block_writer_add-added, key_of,
  block_writer_add-IsValid,
}
use reftable.Record.Any.RoundTrip.{record_bytes}
use reftable.Block.Body.{add_all, Holds, add_all-Holds}
use reftable.Block.Iterate.{read_all, stored_all}
use reftable.Block.RoundTrip.{fresh, block_writer_init-fresh, block-round_trip}

abbrev a_ref : RefRecord
a_ref = record { refname = b'a' ∷ []; update_index = 1; value = val1 (replicate 20 7) }

abbrev b_ref : RefRecord
b_ref = record { refname = b'b' ∷ []; update_index = 2; value = symref (b'a' ∷ []) }

abbrev refs : List Record
refs = ref a_ref ∷ ref b_ref ∷ []

abbrev buf : List ℕ
buf = replicate 64 0

a_ref-IsRef : IsRef 20 a_ref
a_ref-IsRef = record {
  hash_pos = omega arith;
  hash_small = omega arith;
  named = ground arith;
  indexed = omega arith;
  valued = refl;
}

b_ref-IsRef : IsRef 20 b_ref
b_ref-IsRef = record {
  hash_pos = omega arith;
  hash_small = omega arith;
  named = ground arith;
  indexed = omega arith;
  valued = ground arith;
}

-- An empty writer of a block of 60 bytes.
abbrev empty : BlockWriter
empty = fresh block_type_ref buf 60 0 20 (omega arith) (omega arith) (omega arith)

empty-IsValid : IsValid empty
empty-IsValid =
    (block_writer_init-fresh block_type_ref buf 60 0 20 (omega arith) (omega arith) (omega arith)).1

block_writer_add_lem_example :
    (block_writer_add empty (ref a_ref) ≡ (
      if ltb (space empty) (need empty (ref a_ref))
      then err general
      else ok (added empty (ref a_ref))))
    × (encode_key
          (last_of empty)
          (record_key (ref a_ref))
          (record_val_type (ref a_ref))
          (space empty)
        ≡ (if ltb (space empty) (length (key_of empty (ref a_ref)))
            then err general
            else ok (key_of empty (ref a_ref))))
    × (record_encode 20 (ref a_ref) (space empty - length (key_of empty (ref a_ref))) ≡ (
        if ltb
          (space empty - length (key_of empty (ref a_ref)))
          (length (record_bytes 20 (ref a_ref)))
        then err general
        else ok (record_bytes 20 (ref a_ref))))
    × (ltb (space empty) (need empty (ref a_ref)) ≡ false
        → empty.next + need empty (ref a_ref) ≤ empty.block_size)
block_writer_add_lem_example = block_writer_add_lem empty (ref a_ref) empty-IsValid a_ref-IsRef

with_a : BlockWriter
with_a = added empty (ref a_ref)

with_b : BlockWriter
unfolding with_a
with_b = added with_a (ref b_ref)

-- An encoder of zlib that always fails, which a block of refs does not call.
abbrev no_compress2 : ℕ → List ℕ → ZResult
no_compress2 room src = z_other

abbrev no_uncompress2 : ℕ → List ℕ → Option (List ℕ × ℕ)
no_uncompress2 room src = none

add_a : block_writer_add empty (ref a_ref) ≡ ok with_a
unfolding with_a is_restart varint common_prefix_size record_key record_val_type ref_record_key
    ref_record_val_type
add_a = block_writer_add-added empty (ref a_ref) empty-IsValid a_ref-IsRef ∙ refl

with_a-IsValid : IsValid with_a
with_a-IsValid =
    (block_writer_add-IsValid empty (ref a_ref) empty-IsValid a_ref-IsRef with_a add_a).0

add_b : block_writer_add with_a (ref b_ref) ≡ ok with_b
unfolding with_a with_b is_restart varint common_prefix_size record_key record_val_type
    ref_record_key ref_record_val_type
add_b = block_writer_add-added with_a (ref b_ref) with_a-IsValid b_ref-IsRef ∙ refl

add_refs : add_all empty refs ≡ ok with_b
unfolding add_all
add_refs = rw (add_a, add_b)

add_all-Holds_example : Holds empty with_b refs
add_all-Holds_example =
    add_all-Holds refs empty with_b empty-IsValid (a_ref-IsRef, (b_ref-IsRef, tt)) add_refs

block-round_trip_example :
    (done : BlockWriter) × (n : ℕ) × (br : BlockReader) × (block_writer_finish no_compress2
        (λ n. n + 12)
        with_b
      ≡ ok (done, n))
    × (block_reader_init no_uncompress2 done.buf 60 0 60 20 ≡ ok br)
    × (read_all br 3 (block_reader_start br) (ref a_ref) ≡ ok (stored_all 20 (ref a_ref) refs))
unfolding record_type is_block_type
block-round_trip_example =
    block-round_trip block_type_ref buf 60 0 20 (omega arith) (omega arith) (omega arith)
      no_compress2 (λ n. n + 12) no_uncompress2 60 (ref a_ref) refs empty with_b refl (omega arith)
      refl ((a_ref-IsRef, refl), ((b_ref-IsRef, refl), tt))
      (block_writer_init-fresh block_type_ref buf 60 0 20 (omega arith) (omega arith)
        (omega arith)).0
      add_refs
