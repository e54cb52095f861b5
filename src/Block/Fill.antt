-- ===== src/Block/Fill.antt =====
-- What block_writer_add does to a valid writer.
use reftable.Base.{
  ℕ, ◌+◌, ◌-◌, ◌*◌, ◌^◌, ◌≤◌, ◌<◌, ◌≡◌, refl, sym, ◌∙◌, List, [], ◌∷◌, ◌++◌, ok, err, general,
  length, length-append, Bool, false, ltb, if◌then◌else◌, ◌&&◌, take, arith, Bool-cases, inl, inr,
  ok-injective,
}
use reftable.Record.Types.{Record}
use reftable.Record.Key.{is_restart, key_bytes, encode_key, encode_key-Writes}
use reftable.Record.Any.{record_key, record_val_type, record_encode}
use reftable.Record.Any.RoundTrip.{
  IsRecord, record_bytes, record_encode-Writes, record_val_type-lt, record_key_small,
}
use reftable.Block.Buffer.{splice, write_at-ok, length-splice, take-splice}
use reftable.Block.Writer.{
  BlockWriter, space, max_restarts, previous, block_writer_add, block_writer_register_restart,
}

-- The entries and their trailer stay inside the block, which stays inside the buffer.
pub record IsValid (w : BlockWriter) : Type 0 where
  pub room : w.next + 2 + 3 * length w.restarts ≤ w.block_size
  pub fits : w.block_size ≤ length w.buf
  pub small : w.block_size < 2 ^ 24
  pub started : w.header_off + 4 ≤ w.next
  pub few : length w.restarts ≤ max_restarts

abbrev pub last_of : BlockWriter → List ℕ
last_of w = previous w.restart_interval w.entries w.last_key

abbrev pub key_of : BlockWriter → Record → List ℕ
key_of w r = key_bytes (last_of w) (record_key r) (record_val_type r)

-- The bytes of an entry.
abbrev pub entry : BlockWriter → Record → List ℕ
entry w r = key_of w r ++ record_bytes w.hash_size r

abbrev pub is_new_restart : BlockWriter → Record → Bool
is_new_restart w r = is_restart (last_of w) (record_key r) && ltb (length w.restarts) max_restarts

abbrev pub restarts_after : BlockWriter → Record → ℕ
restarts_after w r = if is_new_restart w r then length w.restarts + 1 else length w.restarts

-- What the block needs for the entry and the trailer behind it.
abbrev pub need : BlockWriter → Record → ℕ
need w r = 2 + 3 * restarts_after w r + length (entry w r)

abbrev pub added : BlockWriter → Record → BlockWriter
added w r = record w {
  buf = splice w.buf w.next (entry w r);
  restarts = if is_new_restart w r then w.restarts ++ (w.next ∷ []) else w.restarts;
  next = w.next + length (entry w r);
  last_key = record_key r;
  entries = w.entries + 1;
}

module _ (w : BlockWriter) (r : Record) (valid : IsValid w) (sound : IsRecord w.hash_size r) where
  space_lem : space w ≡ w.block_size - w.next
  space_lem = omega (arith, valid.room, valid.small)

  pub block_writer_add-added :
      block_writer_add w r ≡ (if ltb (space w) (need w r) then err general else ok (added w r))
  unfolding block_writer_add block_writer_register_restart
  block_writer_add-added =
      let key = record_key r in
      let kb = key_bytes (last_of w) key (record_val_type r) in
      let rb = record_bytes w.hash_size r in
      let size = length-append kb rb in
      rw
        (encode_key-Writes (last_of w) key (record_val_type r)
          (record_key_small w.hash_size r sound) (record_val_type-lt w.hash_size r) (space w))
        (elim (Bool-cases (ltb (space w) (length kb))) [
          | inl full ↦ rw full (ground arith)
          | inr enough ↦
              rw (enough, record_encode-Writes w.hash_size r sound (space w - length kb))
                (elim (Bool-cases (ltb (space w - length kb) (length rb))) [
                  | inl full ↦ rw full (ground (arith, space_lem))
                  | inr rest ↦ rw rest (elim (Bool-cases (ltb (space w) (need w r))) [
                    | inl over ↦ rw over
                    | inr in' ↦ rw (in', write_at-ok w.buf w.next (entry w r) (written in'))
                  ])
                ])
        ])
    where
      written : ltb (space w) (need w r) ≡ false → w.next + length (entry w r) ≤ length w.buf
      written e = ground (arith, valid.fits, valid.room, space_lem)

  -- On a valid writer block_writer_add takes a sound record if the entry and the trailer fit the space left, and
  -- else fails with -1. The two encoders that it calls answer bytes only if these fit the room that they are given,
  -- the space left for the key and the rest of it for the record; and where the record is taken, the entry and the
  -- trailer end inside the block.
  pub block_writer_add_lem :
      (block_writer_add w r ≡ (if ltb (space w) (need w r) then err general else ok (added w r)))
      × (encode_key (last_of w) (record_key r) (record_val_type r) (space w)
          ≡ (if ltb (space w) (length (key_of w r)) then err general else ok (key_of w r)))
      × (record_encode w.hash_size r (space w - length (key_of w r)) ≡ (
          if ltb (space w - length (key_of w r)) (length (record_bytes w.hash_size r))
          then err general
          else ok (record_bytes w.hash_size r)))
      × (ltb (space w) (need w r) ≡ false → w.next + need w r ≤ w.block_size)
  block_writer_add_lem = (
    block_writer_add-added,
    encode_key-Writes (last_of w) (record_key r) (record_val_type r)
        (record_key_small w.hash_size r sound) (record_val_type-lt w.hash_size r) (space w),
    record_encode-Writes w.hash_size r sound (space w - length (key_of w r)),
    λ fits. ground (arith, space_lem, valid.room),
  )

  -- A record that is taken leaves a valid writer.
  pub added-IsValid : need w r ≤ w.block_size - w.next → IsValid (added w r)
  added-IsValid h = record {
    room = ground (arith, valid.room, length-append w.restarts (w.next ∷ []));
    fits =
        rw (length-splice w.buf w.next (entry w r) (omega (arith, valid.fits, valid.room)))
          valid.fits;
    small = valid.small;
    started = omega (arith, valid.started);
    few = ground (arith, valid.few, length-append w.restarts (w.next ∷ []));
  }

  -- What stands before `next` is kept, and the entry follows it.
  pub take-added :
      need w r ≤ w.block_size - w.next
      → take (added w r).next (added w r).buf ≡ take w.next w.buf ++ entry w r
  take-added h = take-splice w.buf w.next (entry w r) (omega (arith, valid.fits, valid.room)) _ refl

  -- A call that succeeds gives `added`, and there was room.
  pub block_writer_add-ok :
      (w' : BlockWriter)
      → block_writer_add w r ≡ ok w'
      → (w' ≡ added w r) × (need w r ≤ w.block_size - w.next)
  block_writer_add-ok w' e = elim (Bool-cases (ltb (space w) (need w r))) [
    | inl over ↦ cc (over, block_writer_add-added)
    | inr in' ↦
        let taken : block_writer_add w r ≡ ok (added w r) = block_writer_add-added ∙ rw in' in
        (ok-injective (sym e ∙ taken), ground (arith, space_lem))
  ]

  -- A call of block_writer_add with a sound record that succeeds keeps the writer valid, leaves the bytes
  -- that are in the block, and appends the entry to them.
  pub block_writer_add-IsValid :
      (w' : BlockWriter)
      → block_writer_add w r ≡ ok w'
      → IsValid w' × (take w'.next w'.buf ≡ take w.next w.buf ++ entry w r)
  block_writer_add-IsValid w' e =
      let (same, room) = block_writer_add-ok w' e in rw same (added-IsValid room, take-added room)
