-- ===== src/Record/Types.antt =====
-- The record types of c/include/reftable-record.h and c/record.h. A refname, a symref target and the
-- texts of a log entry are the bytes before their NUL; a hash is a list of its bytes; `none` is NULL.
use reftable.Base.{ℕ, ◌<◌, ◌^◌, ◌≤◌, ◌≡◌, List, Option, some, none, length}
use reftable.Record.View.{u64, IsText}

pub data RefValue : Type 0 where
  deletion : RefValue
  val1 : List ℕ → RefValue
  val2 : List ℕ → List ℕ → RefValue
  symref : List ℕ → RefValue

pub record RefRecord : Type 0 where
  pub refname : List ℕ
  pub update_index : ℕ
  pub value : RefValue

-- `tz_offset` is the bit pattern of the int16_t.
pub record LogUpdate : Type 0 where
  pub new_hash : Option (List ℕ)
  pub old_hash : Option (List ℕ)
  pub name : Option (List ℕ)
  pub email : Option (List ℕ)
  pub time : ℕ
  pub tz_offset : ℕ
  pub message : Option (List ℕ)

-- `value_type` is 0 for a deletion and 1 for an update; the union has the one member `update`.
pub record LogRecord : Type 0 where
  pub refname : List ℕ
  pub update_index : ℕ
  pub value_type : ℕ
  pub update : LogUpdate

-- `hash_prefix` is memory of at least `hash_prefix_len` bytes.
pub record ObjRecord : Type 0 where
  pub hash_prefix : List ℕ
  pub hash_prefix_len : ℕ
  pub offsets : List ℕ

pub record IndexRecord : Type 0 where
  pub offset : ℕ
  pub last_key : List ℕ

-- struct reftable_record: its vtable is one of four, and `data` is what that vtable is about.
pub data Record : Type 0 where
  ref : RefRecord → Record
  obj : ObjRecord → Record
  log : LogRecord → Record
  index : IndexRecord → Record

-- What fits the machine: 64-bit numbers, texts without a NUL, hashes of `hash_size` bytes.
abbrev pub IsHash : ℕ → List ℕ → Type 0
IsHash hash_size h = length h ≡ hash_size

abbrev pub IsString : List ℕ → Type 0
IsString s = IsText s × (length s < 2 ^ 31)

abbrev pub IsRefValue : ℕ → RefValue → Type 0
IsRefValue hash_size RefValue.deletion = Unit {0}
IsRefValue hash_size (val1 h) = IsHash hash_size h
IsRefValue hash_size (val2 h t) = IsHash hash_size h × IsHash hash_size t
IsRefValue hash_size (symref s) = IsString s

pub record IsRef (hash_size : ℕ) (r : RefRecord) : Type 0 where
  pub hash_pos : 0 < hash_size
  pub hash_small : hash_size < 2 ^ 16
  pub named : IsString r.refname
  pub indexed : r.update_index < u64
  pub valued : IsRefValue hash_size r.value

abbrev pub IsField : Option (List ℕ) → Type 0
IsField none = Unit {0}
IsField (some s) = IsString s

abbrev pub IsHashField : ℕ → Option (List ℕ) → Type 0
IsHashField hash_size none = Unit {0}
IsHashField hash_size (some h) = IsHash hash_size h

pub record IsLogUpdate (hash_size : ℕ) (u : LogUpdate) : Type 0 where
  pub new_hashed : IsHashField hash_size u.new_hash
  pub old_hashed : IsHashField hash_size u.old_hash
  pub named : IsField u.name
  pub mailed : IsField u.email
  pub timed : u.time < u64
  pub zoned : u.tz_offset < 2 ^ 16
  pub told : IsField u.message

-- A hash is no longer than SHA-256's.
pub record IsLog (hash_size : ℕ) (r : LogRecord) : Type 0 where
  pub hash_small : hash_size ≤ 32
  pub named : IsString r.refname
  pub present : 0 < length r.refname
  pub indexed : r.update_index < u64
  pub typed : r.value_type ≤ 1
  pub updated : IsLogUpdate hash_size r.update
