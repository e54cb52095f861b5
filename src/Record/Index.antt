-- ===== src/Record/Index.antt =====
-- The index records of c/record.c: the last key of a block and the offset of the block.
use reftable.Base.{ℕ, ◌-◌, ◌<◌, refl, List, ◌++◌, Result, ok, ◌>>=◌, length, arith}
use reftable.Record.View.{View, u64, consume, consumed, consume-append, consumed_lem}
use reftable.Record.Codec.{Writes, Reads}
use reftable.Record.VarInt.{get_var_int, put_var_int, varint, put_var_int-Writes, varint-Reads}
use reftable.Record.Types.{IndexRecord}

unfoldable pub index_record_key : IndexRecord → List ℕ
index_record_key r = r.last_key

unfoldable pub index_record_val_type : IndexRecord → ℕ
index_record_val_type r = 0

unfoldable pub index_record_encode : ℕ → IndexRecord → ℕ → Result (List ℕ)
index_record_encode hash_size r room = put_var_int room r.offset

unfoldable pub index_record_decode : ℕ → List ℕ → ℕ → View → Result (IndexRecord × ℕ)
index_record_decode hash_size key val_type start = do
  (offset, n) ← get_var_int start
  ok (record { offset = offset; last_key = key }, consumed start (consume start n))

abbrev pub index_bytes : IndexRecord → List ℕ
index_bytes r = varint r.offset

pub index_record_encode-Writes :
    (hash_size : ℕ) (r : IndexRecord)
    → r.offset < u64
    → Writes (index_record_encode hash_size r) (index_bytes r)
unfolding index_record_encode
index_record_encode-Writes hash_size r small = put_var_int-Writes r.offset small

pub index-Reads :
    (hash_size : ℕ) (r : IndexRecord)
    → r.offset < u64
    → Reads
        (index_record_decode hash_size (index_record_key r) (index_record_val_type r))
        (index_bytes r)
        r
unfolding index_record_decode index_record_key
index-Reads hash_size r small len rest fits bound =
    let n = length (varint r.offset) in
    rw (
      varint-Reads r.offset small len rest fits bound,
      consume-append (varint r.offset) rest n len refl fits bound,
      consumed_lem (varint r.offset ++ rest) rest n len (len - n) (omega arith) bound,
    )
