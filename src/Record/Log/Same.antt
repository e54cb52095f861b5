-- ===== src/Record/Log/Same.antt =====
-- reftable_log_record_equal of c/record.c against what the file holds of the records.
use Prim.Native.Nat.Ordering.{eq}
use reftable.Base.{
  ℕ, zero, suc, ◌+◌, ◌≤◌, ◌<◌, ◌^◌, ◌≡◌, ◌↔◌, refl, sym, ap, ◌∙◌, List, [], ◌∷◌, ◌++◌, Bool, true,
  false, ltb, ◌==◌, ◌&&◌, ok, ok-injective, Option, none, some, take, length, length-append,
  length-take, arith, Bool-cases, inl, inr, ==_refl,
}
use reftable.Basics.Bytes.{strcmp, strcmp_refl, strcmp-eq, memcmp, is_eq, is_eq-eq}
use reftable.Basics.BigEndian.{put_be16}
use reftable.Record.View.{u64, view}
use reftable.Record.VarInt.{varint, length-varint}
use reftable.Record.Text.{text}
use reftable.Record.Types.{LogRecord, LogUpdate, IsLog, IsField, IsHashField}
use reftable.Record.Log.{
  log_record_key, log_record_val_type, log_record_is_deletion, log_record_encode, log_record_decode,
  or_empty, or_zero,
}
use reftable.Record.Log.RoundTrip.{stored_update, update_bytes, stored_hash}
use reftable.Record.Log.Whole.{log_bytes, stored_record, log_record_encode-Writes, log-Reads}
use reftable.Record.Log.Equal.{log_record_equal}

memcmp-same : (a b : List ℕ) (n : ℕ) → take n a ≡ take n b → memcmp a b n ≡ eq
unfolding memcmp
memcmp-same [] b n h = refl
memcmp-same (x ∷ a) [] n h = refl
memcmp-same (x ∷ a) (y ∷ b) zero h = refl
memcmp-same (x ∷ a) (y ∷ b) (suc n) h = ground (arith, memcmp-same a b n)

memcmp-eq :
    (a b : List ℕ) (n : ℕ) → n ≤ length a → n ≤ length b → memcmp a b n ≡ eq → take n a ≡ take n b
unfolding memcmp
memcmp-eq a b zero ha hb h = refl
memcmp-eq [] b (suc n) ha hb h = absurd (omega arith)
memcmp-eq (x ∷ a) [] (suc n) ha hb h = absurd (omega arith)
memcmp-eq (x ∷ a) (y ∷ b) (suc n) ha hb h = ground (arith, memcmp-eq a b n)

-- The same to a reader of the file: a NULL text is the empty one, a NULL hash is zeros.
record Alike (hash_size : ℕ) (u v : LogUpdate) : Type 0 where
  pub name : or_empty u.name ≡ or_empty v.name
  pub email : or_empty u.email ≡ or_empty v.email
  pub time : u.time ≡ v.time
  pub tz_offset : u.tz_offset ≡ v.tz_offset
  pub message : or_empty u.message ≡ or_empty v.message
  pub old_hash : stored_hash hash_size u.old_hash ≡ stored_hash hash_size v.old_hash
  pub new_hash : stored_hash hash_size u.new_hash ≡ stored_hash hash_size v.new_hash

record Same (hash_size : ℕ) (a b : LogRecord) : Type 0 where
  pub refname : a.refname ≡ b.refname
  pub update_index : a.update_index ≡ b.update_index
  pub value_type : a.value_type ≡ b.value_type
  pub update : (a.value_type == 0) ≡ false → Alike hash_size a.update b.update

and-true : (x y : Bool) → (x && y) ≡ true → (x ≡ true) × (y ≡ true)
and-true true y h = (refl, h)
and-true false y h = cc

strcmp-true : (a b : List ℕ) → is_eq (strcmp a b) ≡ true → a ≡ b
strcmp-true a b h = strcmp-eq a b (is_eq-eq (strcmp a b) h)

or_zero-long :
    (hash_size : ℕ) (h : Option (List ℕ))
    → hash_size ≤ 32
    → IsHashField hash_size h
    → hash_size ≤ length (or_zero h)
or_zero-long hash_size none small w = small
or_zero-long hash_size (some h) small w = omega (arith, w)

text-small : (s : Option (List ℕ)) → IsField s → length (text (or_empty s)) ≤ 2 ^ 31 + 10
text-small none w =
    let (_, short) = length-varint 0 (omega arith) in
    omega (arith, short, length-append (varint 0) [])
text-small (some s) w =
    let (_, short) = length-varint (length s) (omega (arith, w.1)) in
    omega (arith, short, length-append (varint (length s)) s, w.1)

length-update_bytes :
    (hash_size : ℕ) (u : LogUpdate)
    → length (update_bytes hash_size u)
      ≡ length (stored_hash hash_size u.old_hash)
        + length (stored_hash hash_size u.new_hash)
        + (length (text (or_empty u.name))
            + (length (text (or_empty u.email))
                + (length (varint u.time) + (2 + length (text (or_empty u.message))))))
unfolding put_be16
length-update_bytes hash_size u =
    let zone = put_be16 u.tz_offset in
    let told = text (or_empty u.message) in
    let name = text (or_empty u.name) in
    let email = text (or_empty u.email) in
    omega (
      arith,
      length-append (stored_hash hash_size u.old_hash ++ stored_hash hash_size u.new_hash)
          (name ++ (email ++ (varint u.time ++ (zone ++ told)))),
      length-append (stored_hash hash_size u.old_hash) (stored_hash hash_size u.new_hash),
      length-append name (email ++ (varint u.time ++ (zone ++ told))),
      length-append email (varint u.time ++ (zone ++ told)),
      length-append (varint u.time) (zone ++ told),
      length-append zone told,
    )

module _ (hash_size : ℕ) (a b : LogRecord) (wa : IsLog hash_size a) (wb : IsLog hash_size b) where
  hashes-true :
      (g h : Option (List ℕ))
      → IsHashField hash_size g
      → IsHashField hash_size h
      → is_eq (memcmp (or_zero g) (or_zero h) hash_size) ≡ true
      → stored_hash hash_size g ≡ stored_hash hash_size h
  hashes-true g h wg wh e =
      memcmp-eq (or_zero g) (or_zero h) hash_size (or_zero-long hash_size g wa.hash_small wg)
        (or_zero-long hash_size h wa.hash_small wh) (is_eq-eq _ e)

  abbrev front : Bool
  front =
      is_eq (strcmp a.refname b.refname)
      && (a.update_index == b.update_index && a.value_type == b.value_type)

  abbrev updates : LogUpdate → LogUpdate → Bool
  updates u v =
      is_eq (strcmp (or_empty u.name) (or_empty v.name))
      && (u.time == v.time
          && (u.tz_offset == v.tz_offset
              && (is_eq (strcmp (or_empty u.email) (or_empty v.email))
                  && (is_eq (strcmp (or_empty u.message) (or_empty v.message))
                      && (is_eq (memcmp (or_zero u.old_hash) (or_zero v.old_hash) hash_size)
                          && is_eq (memcmp (or_zero u.new_hash) (or_zero v.new_hash) hash_size))))))

  updates-Alike : updates a.update b.update ≡ true → Alike hash_size a.update b.update
  updates-Alike h =
      let (name, h1) = and-true _ _ h in
      let (time, h2) = and-true (a.update.time == b.update.time) _ h1 in
      let (zone, h3) = and-true (a.update.tz_offset == b.update.tz_offset) _ h2 in
      let (email, h4) = and-true _ _ h3 in
      let (message, h5) = and-true _ _ h4 in
      let (old, new) = and-true _ _ h5 in
      record {
        name = strcmp-true _ _ name;
        email = strcmp-true _ _ email;
        time = ground (arith, time);
        tz_offset = ground (arith, zone);
        message = strcmp-true _ _ message;
        old_hash = hashes-true _ _ wa.updated.old_hashed wb.updated.old_hashed old;
        new_hash = hashes-true _ _ wa.updated.new_hashed wb.updated.new_hashed new;
      }

  equal-front : log_record_equal hash_size a b ≡ ok true → front ≡ true
  unfolding log_record_equal
  equal-front e = elim (Bool-cases front) [
    | inl same ↦ same
    | inr differs ↦ let f : false ≡ true = ok-injective (rw differs at e) in absurd (cc f)
  ]

  update-Alike :
      log_record_equal hash_size a b ≡ ok true
      → (a.value_type == 0) ≡ false
      → Alike hash_size a.update b.update
  unfolding log_record_equal
  update-Alike e kept =
      let one : (a.value_type == 1) ≡ true = ground (arith, wa.typed) in
      updates-Alike (ok-injective (rw (equal-front e, kept, one) at e))

  equal-Same : log_record_equal hash_size a b ≡ ok true → Same hash_size a b
  equal-Same e =
      let (name, rest) = and-true _ _ (equal-front e) in
      let (index, typ) =
        and-true (a.update_index == b.update_index) (a.value_type == b.value_type) rest in
      record {
        refname = strcmp-true _ _ name;
        update_index = ground (arith, index);
        value_type = ground (arith, typ);
        update = update-Alike e;
      }

  Same-equal : Same hash_size a b → log_record_equal hash_size a b ≡ ok true
  unfolding log_record_equal
  Same-equal s = elim (Bool-cases (a.value_type == 0)) [
    | inl gone ↦ rw (
      sym s.refname,
      sym s.update_index,
      sym s.value_type,
      strcmp_refl,
      ==_refl a.update_index,
      ==_refl a.value_type,
      gone,
    )
    | inr kept ↦
        let l = s.update kept in
        let one : (a.value_type == 1) ≡ true = ground (arith, wa.typed) in
        rw (
          sym s.refname,
          sym s.update_index,
          sym s.value_type,
          strcmp_refl a.refname,
          ==_refl a.update_index,
          ==_refl a.value_type,
          kept,
          one,
          sym l.name,
          sym l.email,
          sym l.message,
          sym l.time,
          sym l.tz_offset,
          strcmp_refl (or_empty a.update.name),
          strcmp_refl (or_empty a.update.email),
          strcmp_refl (or_empty a.update.message),
          ==_refl a.update.time,
          ==_refl a.update.tz_offset,
          memcmp-same (or_zero a.update.old_hash) (or_zero b.update.old_hash) hash_size l.old_hash,
          memcmp-same (or_zero a.update.new_hash) (or_zero b.update.new_hash) hash_size l.new_hash,
        )
  ]

  -- The same for the file, by what encoding and decoding do.
  Same-key : Same hash_size a b → log_record_key a ≡ log_record_key b
  unfolding log_record_key
  Same-key s = rw (s.refname, s.update_index)

  Same-bytes : Same hash_size a b → log_bytes hash_size a ≡ log_bytes hash_size b
  Same-bytes s = elim (Bool-cases (a.value_type == 0)) [
    | inl gone ↦ rw (sym s.value_type, gone)
    | inr kept ↦
        let l = s.update kept in
        rw (
          sym s.value_type,
          kept,
          l.name,
          l.email,
          l.message,
          l.time,
          l.tz_offset,
          l.old_hash,
          l.new_hash,
        )
  ]

  stored-Same : stored_record hash_size a a ≡ stored_record hash_size a b → Same hash_size a b
  stored-Same e =
      let typ : a.value_type ≡ b.value_type = ap (λ r. r.value_type) e in
      record {
        refname = ap (λ r. r.refname) e;
        update_index = ap (λ r. r.update_index) e;
        value_type = typ;
        update = λ kept.
            let kept' : (b.value_type == 0) ≡ false = rw typ at kept in
            let u : stored_update hash_size a.update ≡ stored_update hash_size b.update =
              (rw (kept, kept') at (ap (λ r. r.update) e)) in
            record {
              name = ap (λ v. or_empty v.name) u;
              email = ap (λ v. or_empty v.email) u;
              time = ap (λ v. v.time) u;
              tz_offset = ap (λ v. v.tz_offset) u;
              message = ap (λ v. or_empty v.message) u;
              old_hash = ap (λ v. or_zero v.old_hash) u;
              new_hash = ap (λ v. or_zero v.new_hash) u;
            };
      }

  bytes-small : length (log_bytes hash_size a) < u64
  bytes-small =
      let u = a.update in
      let old = length-take hash_size (or_zero u.old_hash) in
      let new = length-take hash_size (or_zero u.new_hash) in
      let name = text-small u.name wa.updated.named in
      let email = text-small u.email wa.updated.mailed in
      let message = text-small u.message wa.updated.told in
      let (_, time) = length-varint u.time wa.updated.timed in
      elim (Bool-cases (a.value_type == 0)) [
        | inl gone ↦ rw gone (omega arith)
        | inr kept ↦
            rw (kept, length-update_bytes hash_size u)
              (omega (arith, old, new, name, email, message, time, wa.hash_small))
      ]

  bytes-stored :
      log_record_key a ≡ log_record_key b
      → log_record_val_type a ≡ log_record_val_type b
      → log_bytes hash_size a ≡ log_bytes hash_size b
      → stored_record hash_size a a ≡ stored_record hash_size a b
  bytes-stored key typ bytes =
      let len = length (log_bytes hash_size a) in
      let ra = log-Reads hash_size a a wa len [] (omega arith) bytes-small in
      let rb =
        log-Reads hash_size a b wb (length (log_bytes hash_size b)) [] (omega arith)
          (rw (sym bytes) bytes-small) in
      let same : log_record_decode hash_size a (log_record_key a) (log_record_val_type a)
            (view (log_bytes hash_size a ++ []) len)
          ≡ ok (stored_record hash_size a b, length (log_bytes hash_size b)) =
        rw (key, typ, bytes) rb in
      let pairs = ok-injective (sym ra ∙ same) in ap (λ p. p.0) pairs

  encode-bytes :
      ((room : ℕ) → log_record_encode hash_size a room ≡ log_record_encode hash_size b room)
      → log_bytes hash_size a ≡ log_bytes hash_size b
  encode-bytes h =
      let room = length (log_bytes hash_size a) + length (log_bytes hash_size b) in
      let roomy_a : ltb room (length (log_bytes hash_size a)) ≡ false = ground arith in
      let roomy_b : ltb room (length (log_bytes hash_size b)) ≡ false = ground arith in
      let wrote_a : log_record_encode hash_size a room ≡ ok (log_bytes hash_size a) =
        log_record_encode-Writes hash_size a wa room ∙ rw roomy_a in
      let wrote_b : log_record_encode hash_size b room ≡ ok (log_bytes hash_size b) =
        log_record_encode-Writes hash_size b wb room ∙ rw roomy_b in
      ok-injective (sym wrote_a ∙ (h room ∙ wrote_b))

  -- Two sound log records compare equal exactly where a file cannot tell them apart: they have the same key and
  -- the same value type, and log_record_encode answers the same for both, whatever room it has.
  pub log_record_equal_iff : (log_record_equal hash_size a b ≡ ok true) ↔ (
      (log_record_key a ≡ log_record_key b)
      × (log_record_val_type a ≡ log_record_val_type b)
      × ((room : ℕ) → log_record_encode hash_size a room ≡ log_record_encode hash_size b room))
  unfolding log_record_val_type log_record_is_deletion
  log_record_equal_iff = (
    λ e.
        let s = equal-Same e in
        (
          Same-key s,
          rw s.value_type,
          λ room.
              log_record_encode-Writes hash_size a wa room
              ∙ (rw (Same-bytes s) (sym (log_record_encode-Writes hash_size b wb room))),
        ),
    λ (key, typ, encoded). Same-equal (stored-Same (bytes-stored key typ (encode-bytes encoded))),
  )
