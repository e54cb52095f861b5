-- ===== src/Record/Any.antt =====
-- struct reftable_record of c/record.c: the four vtables, and the calls that go through them.
pub mod RoundTrip
use reftable.Base.{
  ℕ, suc, ◌+◌, ◌*◌, ◌≤◌, ◌<◌, ◌≡◌, refl, List, [], ◌∷◌, ◌++◌, Result, ok, err, fault, aborted,
  ◌>>=◌, length, Bool, true, false, ◌==◌, ltb, ◌||◌, ◌&&◌, if◌then◌else◌, Option, some, none, take,
}
use Prim.Native.Nat.{Ordering}
use reftable.Basics.Bytes.{strcmp, memcmp, is_eq}
use reftable.Record.View.{View, copy}
use reftable.Record.Types.{
  RefValue, val1, val2, symref, RefRecord, LogUpdate, LogRecord, ObjRecord, IndexRecord, Record,
  ref, obj, log, index,
}
use reftable.Record.Ref.{
  assert, ref_record_key, ref_record_val_type, ref_record_encode, ref_record_decode,
  ref_record_is_deletion,
}
use reftable.Record.Obj.{obj_record_key, obj_record_val_type, obj_record_encode, obj_record_decode}
use reftable.Record.Index.{
  index_record_key, index_record_val_type, index_record_encode, index_record_decode,
}
use reftable.Record.Log.{
  log_record_key, log_record_val_type, log_record_encode, log_record_decode, log_record_is_deletion,
}

-- c/constants.h
abbrev pub block_type_log : ℕ
block_type_log = b'g'

abbrev pub block_type_index : ℕ
block_type_index = b'i'

abbrev pub block_type_ref : ℕ
block_type_ref = b'r'

abbrev pub block_type_obj : ℕ
block_type_obj = b'o'

unfoldable pub is_block_type : ℕ → Bool
is_block_type typ =
    typ == block_type_ref
    || (typ == block_type_log || (typ == block_type_obj || typ == block_type_index))

unfoldable pub record_type : Record → ℕ
record_type (ref r) = block_type_ref
record_type (obj r) = block_type_obj
record_type (log r) = block_type_log
record_type (index r) = block_type_index

unfoldable pub record_key : Record → List ℕ
record_key (ref r) = ref_record_key r
record_key (obj r) = obj_record_key r
record_key (log r) = log_record_key r
record_key (index r) = index_record_key r

unfoldable pub record_val_type : Record → ℕ
record_val_type (ref r) = ref_record_val_type r
record_val_type (obj r) = obj_record_val_type r
record_val_type (log r) = log_record_val_type r
record_val_type (index r) = index_record_val_type r

-- The answer is an int in C: encodings of 2^31 bytes and more are not modelled.
unfoldable pub record_encode : ℕ → Record → ℕ → Result (List ℕ)
record_encode hash_size (ref r) = ref_record_encode hash_size r
record_encode hash_size (obj r) = obj_record_encode hash_size r
record_encode hash_size (log r) = log_record_encode hash_size r
record_encode hash_size (index r) = index_record_encode hash_size r

-- The last field of an answer in the type of the vtable.
tagged : {A : Type 0} → (A → Record) → Result (A × ℕ) → Result (Record × ℕ)
tagged make m = do (r, n) ← m; ok (make r, n)

-- The first record is the one that is read over, and its vtable decides.
unfoldable pub record_decode : ℕ → Record → List ℕ → ℕ → View → Result (Record × ℕ)
unfolding tagged
record_decode hash_size (ref r) key extra src =
    tagged ref (ref_record_decode hash_size key extra src)
record_decode hash_size (obj r) key extra src =
    tagged obj (obj_record_decode hash_size key extra src)
record_decode hash_size (log r) key extra src =
    tagged log (log_record_decode hash_size r key extra src)
record_decode hash_size (index r) key extra src =
    tagged index (index_record_decode hash_size key extra src)

unfoldable pub record_is_deletion : Record → Bool
record_is_deletion (ref r) = ref_record_is_deletion r
record_is_deletion (obj r) = false
record_is_deletion (log r) = log_record_is_deletion r
record_is_deletion (index r) = false

-- What calloc leaves in a log record.
abbrev pub no_update : LogUpdate
no_update = record {
  new_hash = none;
  old_hash = none;
  name = none;
  email = none;
  time = 0;
  tz_offset = 0;
  message = none;
}

unfoldable pub new_record : ℕ → Result Record
new_record typ =
    if typ == block_type_ref
    then ok (ref (record { refname = []; update_index = 0; value = RefValue.deletion }))
    else if typ == block_type_obj
    then ok (obj (record { hash_prefix = []; hash_prefix_len = 0; offsets = [] }))
    else if typ == block_type_log
    then ok (log (record { refname = []; update_index = 0; value_type = 0; update = no_update }))
    else if typ == block_type_index
    then ok (index (record { offset = 0; last_key = [] }))
    else fault aborted

copy_value : ℕ → RefValue → Result RefValue
copy_value hash_size RefValue.deletion = ok RefValue.deletion
copy_value hash_size (val1 h) = do h' ← copy hash_size h; ok (val1 h')
copy_value hash_size (val2 h t) = do h' ← copy hash_size h; t' ← copy hash_size t; ok (val2 h' t')
copy_value hash_size (symref s) = ok (symref s)

copy_hash : ℕ → Option (List ℕ) → Result (Option (List ℕ))
copy_hash hash_size none = ok none
copy_hash hash_size (some h) = do h' ← copy hash_size h; ok (some h')

-- The texts and the number fields of a log record are copied whole.
copy_log : ℕ → LogRecord → Result LogRecord
copy_log hash_size r =
    if r.value_type == 1
    then (do
      new ← copy_hash hash_size r.update.new_hash
      old ← copy_hash hash_size r.update.old_hash
      ok (record r { update = record r.update { new_hash = new; old_hash = old } }))
    else ok r

-- The copy that replaces `dest`.
unfoldable pub record_copy_from : ℕ → Record → Record → Result Record
unfolding copy_value copy_log copy_hash record_type
record_copy_from hash_size dest src = assert (record_type src == record_type dest) (elim src [
  | ref r ↦
      assert (ltb 0 hash_size)
        (do v ← copy_value hash_size r.value; ok (ref (record r { value = v })))
  | obj r ↦ do
    prefix ← copy r.hash_prefix_len r.hash_prefix
    ok (obj (record r { hash_prefix = prefix }))
  | log r ↦ do l ← copy_log hash_size r; ok (log l)
  | index r ↦ ok (index r)
])

-- The pointers of a hash are no NULL for these value types.
hash_equal : List ℕ → List ℕ → ℕ → Bool
hash_equal a b hash_size = is_eq (memcmp a b hash_size)

value_equal : ℕ → RefValue → RefValue → Bool
value_equal hash_size (symref s) (symref t) = is_eq (strcmp s t)
value_equal hash_size (val2 h t) (val2 h' t') =
    hash_equal h h' hash_size && hash_equal t t' hash_size
value_equal hash_size (val1 h) (val1 h') = hash_equal h h' hash_size
value_equal hash_size RefValue.deletion RefValue.deletion = true
value_equal hash_size _ _ = false

unfoldable pub ref_record_equal : ℕ → RefRecord → RefRecord → Result Bool
unfolding value_equal hash_equal
ref_record_equal hash_size a b = assert (ltb 0 hash_size) (
    ok (
      is_eq (strcmp a.refname b.refname)
      && (a.update_index == b.update_index && value_equal hash_size a.value b.value)))

unfoldable pub ref_record_compare_name : RefRecord → RefRecord → Ordering
ref_record_compare_name a b = strcmp a.refname b.refname
