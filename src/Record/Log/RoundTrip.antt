-- ===== src/Record/Log/RoundTrip.antt =====
-- Decoding undoes encoding, up to what NULL stands for.
use mathlib.Core.List.{append_assoc}
use reftable.Base.{
  ℕ, ◌-◌, ◌*◌, ◌^◌, ◌≤◌, ◌<◌, ◌≡◌, refl, List, ◌++◌, ok, length, arith, take, replicate, Option,
  some, none, length-append, drop-append, length-take,
}
use reftable.Basics.BigEndian.{put_be16, get_be16-put_be16}
use reftable.Record.View.{
  view, u64, c_string-IsText, copy-append, copy-take, consume-append, IsText,
}
use reftable.Record.Codec.{Writes, Reads, Writes-in_turn, put_bytes-Writes, take_next-Reads}
use reftable.Record.VarInt.{get_var_int, varint, put_var_int-Writes, varint-Reads}
use reftable.Record.Text.{decode_string, text, encode_string-Writes, text-Reads}
use reftable.Record.Ref.{put_pair}
use reftable.Record.Types.{LogUpdate, IsLogUpdate, IsField, IsHashField}
use reftable.Record.Log.{
  or_empty, or_zero, log_update_encode, get_zone, get_hashes, log_update_decode,
}

-- What the file holds of an update: a NULL hash is stored as zeros, a NULL text as the empty one.
abbrev pub stored_hash : ℕ → Option (List ℕ) → List ℕ
stored_hash hash_size h = take hash_size (or_zero h)

abbrev pub stored_update : ℕ → LogUpdate → LogUpdate
stored_update hash_size u = record {
  new_hash = some (stored_hash hash_size u.new_hash);
  old_hash = some (stored_hash hash_size u.old_hash);
  name = some (or_empty u.name);
  email = some (or_empty u.email);
  time = u.time;
  tz_offset = u.tz_offset;
  message = some (or_empty u.message);
}

abbrev tail_bytes : LogUpdate → List ℕ
tail_bytes u =
    text (or_empty u.name)
    ++ (text (or_empty u.email)
        ++ (varint u.time ++ (put_be16 u.tz_offset ++ text (or_empty u.message))))

abbrev pub update_bytes : ℕ → LogUpdate → List ℕ
update_bytes hash_size u =
    (stored_hash hash_size u.old_hash ++ stored_hash hash_size u.new_hash) ++ tail_bytes u

length-stored_hash :
    (hash_size : ℕ) (h : Option (List ℕ))
    → hash_size ≤ 32
    → IsHashField hash_size h
    → length (stored_hash hash_size h) ≡ hash_size
length-stored_hash hash_size none small w =
    let zeros : List ℕ = replicate 32 0 in omega (arith, length-take hash_size zeros)
length-stored_hash hash_size (some h) small w = omega (arith, length-take hash_size h)

or_empty-IsText :
    (s : Option (List ℕ)) → IsField s → IsText (or_empty s) × (length (or_empty s) < u64)
or_empty-IsText none w = (tt, omega arith)
or_empty-IsText (some s) w = (w.0, omega arith)

get_zone-Reads : (tz : ℕ) → tz < 2 ^ 16 → Reads get_zone (put_be16 tz) tz
unfolding get_zone
get_zone-Reads tz small len rest fits bound =
    rw (get_be16-put_be16 tz rest small) (unfold put_be16 in ground arith)

get_hashes-bytes :
    (hash_size : ℕ) (old new : List ℕ) (len : ℕ) (rest : List ℕ)
    → length old ≡ hash_size
    → length new ≡ hash_size
    → length (old ++ new) ≤ len
    → len < u64
    → get_hashes hash_size (view ((old ++ new) ++ rest) len)
      ≡ ok ((old, new), view rest (len - length (old ++ new)))
unfolding get_hashes
get_hashes-bytes hash_size old new len rest ho hn fits bound =
    let size = length-append old new in
    let fit2 : 2 * hash_size ≤ len = omega arith in
    rw
      (
        consume-append (old ++ new) rest (2 * hash_size) len (omega arith) (omega arith) bound,
        append_assoc old new rest,
        copy-append hash_size old (new ++ rest) ho,
        drop-append hash_size old (new ++ rest) ho,
        copy-append hash_size new rest hn,
      )
      (ground arith)

zeroed :
    (hash_size : ℕ) (h : Option (List ℕ))
    → hash_size ≤ 32
    → IsHashField hash_size h
    → hash_size ≤ length (or_zero h)
zeroed hash_size none small w = small
zeroed hash_size (some h) small w = omega arith

put_hashes-Writes :
    (hash_size : ℕ) (h t : List ℕ)
    → hash_size ≤ length h
    → hash_size ≤ length t
    → Writes (put_pair hash_size h t) (take hash_size h ++ take hash_size t)
unfolding put_pair
put_hashes-Writes hash_size h t wh wt room =
    rw (copy-take hash_size h wh, copy-take hash_size t wt)
      (ground (
        arith,
        length-append (take hash_size h) (take hash_size t),
        length-take hash_size h,
        length-take hash_size t,
      ))

module _ (hash_size : ℕ) (small : hash_size ≤ 32) where
  pub log_update_encode-Writes :
      (u : LogUpdate)
      → IsLogUpdate hash_size u
      → Writes (log_update_encode hash_size u) (update_bytes hash_size u)
  unfolding log_update_encode
  log_update_encode-Writes u w =
      Writes-in_turn _ _ _ _
        (put_hashes-Writes hash_size (or_zero u.old_hash) (or_zero u.new_hash)
          (zeroed hash_size u.old_hash small w.old_hashed)
          (zeroed hash_size u.new_hash small w.new_hashed))
        (Writes-in_turn _ _ _ _ (encode_string-Writes _ (or_empty-IsText u.name w.named).1) (
          Writes-in_turn _ _ _ _ (encode_string-Writes _ (or_empty-IsText u.email w.mailed).1) (
            Writes-in_turn _ _ _ _ (put_var_int-Writes u.time w.timed) (
              Writes-in_turn _ _ _ _
                (put_bytes-Writes 2 (put_be16 u.tz_offset) (unfold put_be16 in refl))
                (encode_string-Writes _ (or_empty-IsText u.message w.told).1)))))

  pub log_update_decode-bytes :
      (u : LogUpdate) (len : ℕ) (rest : List ℕ)
      → IsLogUpdate hash_size u
      → length (update_bytes hash_size u) ≤ len
      → len < u64
      → log_update_decode hash_size (view (update_bytes hash_size u ++ rest) len)
        ≡ ok (stored_update hash_size u, view rest (len - length (update_bytes hash_size u)))
  unfolding log_update_decode
  log_update_decode-bytes u len rest w fits bound =
      let old = stored_hash hash_size u.old_hash in
      let new = stored_hash hash_size u.new_hash in
      let name = text (or_empty u.name) in
      let email = text (or_empty u.email) in
      let time = varint u.time in
      let zone = put_be16 u.tz_offset in
      let message = text (or_empty u.message) in
      let (name_text, name_short) = or_empty-IsText u.name w.named in
      let (email_text, email_short) = or_empty-IsText u.email w.mailed in
      let (message_text, message_short) = or_empty-IsText u.message w.told in
      let l0 = length-append (old ++ new) (tail_bytes u) in
      let l1 = length-append name (email ++ (time ++ (zone ++ message))) in
      let l2 = length-append email (time ++ (zone ++ message)) in
      let l3 = length-append time (zone ++ message) in
      let l4 = length-append zone message in
      let at1 = len - length (old ++ new) in
      let at2 = at1 - length name in
      let at3 = at2 - length email in
      let at4 = at3 - length time in
      let at5 = at4 - length zone in
      let left : at5 - length message ≡ len - length (update_bytes hash_size u) = omega arith in
      rw (
        append_assoc (old ++ new) (tail_bytes u) rest,
        append_assoc name (email ++ (time ++ (zone ++ message))) rest,
        append_assoc email (time ++ (zone ++ message)) rest,
        append_assoc time (zone ++ message) rest,
        append_assoc zone message rest,
        get_hashes-bytes hash_size old new len
            (name ++ (email ++ (time ++ (zone ++ (message ++ rest)))))
            (length-stored_hash hash_size u.old_hash small w.old_hashed)
            (length-stored_hash hash_size u.new_hash small w.new_hashed) (omega arith) bound,
        take_next-Reads decode_string name _ (text-Reads _ name_short) at1
            (email ++ (time ++ (zone ++ (message ++ rest)))) (omega arith) (omega arith),
        take_next-Reads decode_string email _ (text-Reads _ email_short) at2
            (time ++ (zone ++ (message ++ rest))) (omega arith) (omega arith),
        take_next-Reads get_var_int time _ (varint-Reads _ w.timed) at3 (zone ++ (message ++ rest))
            (omega arith) (omega arith),
        take_next-Reads get_zone zone _ (get_zone-Reads _ w.zoned) at4 (message ++ rest)
            (omega arith) (omega arith),
        take_next-Reads decode_string message _ (text-Reads _ message_short) at5 rest (omega arith)
            (omega arith),
        c_string-IsText _ name_text,
        c_string-IsText _ email_text,
        c_string-IsText _ message_text,
        left,
      )
