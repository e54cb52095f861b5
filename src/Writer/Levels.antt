-- ===== src/Writer/Levels.antt =====
-- writer_finish_section: a level of an index has fewer entries than the one below.
use reftable.Base.{
  ℕ, ◌+◌, ◌-◌, ◌<◌, ◌≤◌, ◌≡◌, refl, List, [], ◌∷◌, ◌++◌, Bool, not, ◌&&◌, Option, none, some,
  Result, ok, err, fault, aborted, Ensures, Ensures->>=, Ensures-ok, Ensures-err, Ensures-fault,
  Ensures_any, ◌==◌, if◌then◌else◌, length, length-append, take, ◌%◌, ◌^◌, arith, Bool-cases, inl,
  inr, ◌>>=◌,
}
use reftable.Record.Types.{Record, IndexRecord, index}
use reftable.Record.Key.{encode_key, is_restart}
use reftable.Record.Any.{
  record_key, record_val_type, record_encode, block_type_index, block_type_log,
}
use reftable.Generic.{hash_size}
use reftable.Block.Buffer.{write_at}
use reftable.Block.Writer.{
  BlockWriter, ZResult, block_writer_type, block_writer_add, block_writer_register_restart,
  block_writer_init, block_writer_finish, header_size, previous, space,
}
use reftable.Writer.{
  Writer, deref, writer_version, writer_reinit_block_writer, writer_reftable_block_stats,
}
use reftable.Writer.Output.{
  padded_write, writer_flush_nonempty_block, writer_flush_block, writer_write_header,
}
use reftable.Writer.Section.{add_or_flush, flush_block, level_loop}
use reftable.Writer.Offsets.{if-Ensures}

-- Whether a block is begun that will have an entry in the index.
abbrev pending : Option BlockWriter → ℕ
pending none = 0
pending (some bw) = if bw.entries == 0 then 0 else 1

register-entries :
    (bw : BlockWriter) (n : ℕ) (restart : Bool) (key : List ℕ)
    → Ensures (λ bw'. 0 < bw'.entries) (block_writer_register_restart bw n restart key)
unfolding block_writer_register_restart
register-entries bw n restart key = if-Ensures _ Ensures-err (Ensures-ok (omega arith))

add-entries :
    (bw : BlockWriter) (rec : Record) → Ensures (λ bw'. 0 < bw'.entries) (block_writer_add bw rec)
unfolding block_writer_add
add-entries bw rec =
    let last = previous bw.restart_interval bw.entries bw.last_key in
    Ensures->>= (Ensures_any (encode_key last (record_key rec) (record_val_type rec) (space bw)))
      (λ key_bytes _.
        Ensures->>= (Ensures_any (record_encode bw.hash_size rec (space bw - length key_bytes)))
          (λ rec_bytes _.
            Ensures->>=
              (register-entries bw (length (key_bytes ++ rec_bytes))
                (is_restart last (record_key rec)) (record_key rec))
              (λ bw' h.
                Ensures->>= (Ensures_any (write_at bw.buf bw.next (key_bytes ++ rec_bytes)))
                  (λ buf' _. Ensures-ok h))))

module _ {W : Type 0} (write : W → List ℕ → Result W) (compress2 : ℕ → List ℕ → ZResult)
    (first_cap : ℕ → ℕ) where
  flush_nonempty-index :
      (w : Writer W) (bw : BlockWriter)
      → Ensures
          (λ w'. length w'.index ≡ length w.index + 1)
          (writer_flush_nonempty_block write compress2 first_cap w bw)
  unfolding writer_flush_nonempty_block
  flush_nonempty-index w bw =
      Ensures->>= (Ensures_any (writer_reftable_block_stats w.stats (block_writer_type bw)))
        (λ bstats _.
          Ensures->>= (Ensures_any (block_writer_finish compress2 first_cap bw)) (λ finished _.
            Ensures->>=
              (Ensures_any (
                if w.next == 0
                then write_at finished.0.buf 0 (writer_write_header w)
                else ok finished.0.buf))
              (λ block _.
                Ensures->>=
                  (Ensures_any (
                    padded_write write w (take finished.1 block) (
                      if not w.opts.unpadded && not (block_writer_type bw == block_type_log)
                      then (w.opts.block_size + 2 ^ 32 - finished.1) % 2 ^ 32
                      else 0)))
                  (λ w' _. Ensures-ok (
                    length-append w.index
                      (record { offset = w.next; last_key = finished.0.last_key } ∷ []))))))

  flush_block-index :
      (w : Writer W)
      → Ensures
          (λ w'. length w'.index ≤ length w.index + pending w.block_writer)
          (flush_block write compress2 first_cap w)
  unfolding writer_flush_block
  flush_block-index w = flushed w.block_writer
    where
      flushed :
          (o : Option BlockWriter)
          → Ensures
              (λ w'. length w'.index ≤ length w.index + pending o)
              (elim o [
                | none ↦ ok w
                | some bw ↦
                    if bw.entries == 0
                    then ok w
                    else writer_flush_nonempty_block write compress2 first_cap w bw
              ])
      flushed none = Ensures-ok (omega arith)
      flushed (some bw) = elim (Bool-cases (bw.entries == 0)) [
        | inl fresh ↦ rw fresh (Ensures-ok (omega arith))
        | inr begun ↦
            rw begun
              (record { value = λ w' e. omega (arith, (flush_nonempty-index w bw).value w' e) })
      ]

  reinit-index :
      (w : Writer W) (typ : ℕ)
      → Ensures
          (λ w'. (length w'.index ≡ length w.index) × (pending w'.block_writer ≡ 0))
          (writer_reinit_block_writer w typ)
  unfolding writer_reinit_block_writer block_writer_init
  reinit-index w typ =
      Ensures->>= (Ensures_any (if w.next == 0 then header_size (writer_version w.opts) else ok 0))
        (λ block_start _. Ensures->>= (Ensures_any (hash_size w.opts.hash_id)) (λ size _.
          Ensures->>=
            (Ensures->>=
              (Ensures_any (
                write_at
                  (elim w.block_writer as (λ _. List ℕ) [ none ↦ w.block | some bw ↦ bw.buf ])
                  block_start (typ ∷ [])))
              (λ buf' _. Ensures-ok {P = λ (bw : BlockWriter). bw.entries ≡ 0} refl))
            (λ bw h. Ensures-ok (refl, rw h))))

  -- An entry goes to the block that is begun, or ends that block and begins the next.
  abbrev Adds : Writer W → Writer W → Type 0
  Adds w w' =
      (length w'.index ≤ length w.index + pending w.block_writer) × (pending w'.block_writer ≡ 1)

  add_or_flush-Adds :
      (w : Writer W) (idx : IndexRecord)
      → Ensures (Adds w) (
          add_or_flush write compress2 first_cap w block_type_index
            (index idx)
            (λ code w1 bw. fault aborted))
  unfolding add_or_flush
  add_or_flush-Adds w idx =
      Ensures->>= (Ensures_any (deref w.block_writer))
        (λ bw _. first_try (block_writer_add bw (index idx)) (add-entries bw (index idx)))
    where
      second_try :
          (w1 : Writer W)
          → length w1.index ≤ length w.index + pending w.block_writer
          → (r : Result BlockWriter) → Ensures (λ bw'. 0 < bw'.entries) r
          → Ensures (Adds w) (elim r [
            | ok bw' ↦ ok (record w1 { block_writer = some bw' })
            | fault cause ↦ fault cause
            | err code ↦ fault aborted
          ])
      second_try w1 h (ok bw') e = let begun = e.value bw' refl in Ensures-ok (h, ground arith)
      second_try w1 h (err code) e = Ensures-fault
      second_try w1 h (fault cause) e = Ensures-fault

      first_try :
          (r : Result BlockWriter)
          → Ensures (λ bw'. 0 < bw'.entries) r
          → Ensures (Adds w) (elim r [
            | ok bw' ↦ ok (record w { block_writer = some bw' })
            | fault cause ↦ fault cause
            | err code ↦ (do
              flushed ← flush_block write compress2 first_cap w
              w' ← writer_reinit_block_writer flushed block_type_index
              fresh ← deref w'.block_writer
              elim (block_writer_add fresh (index idx)) [
                | ok bw' ↦ ok (record w' { block_writer = some bw' })
                | fault cause ↦ fault cause
                | err code' ↦ fault aborted
              ])
          ])
      first_try (ok bw') e = let begun = e.value bw' refl in Ensures-ok (omega arith, ground arith)
      first_try (fault cause) e = Ensures-fault
      first_try (err code) e = Ensures->>= (flush_block-index w) (λ flushed h.
          Ensures->>= (reinit-index flushed block_type_index) (λ w' h'.
            Ensures->>= (Ensures_any (deref w'.block_writer)) (λ fresh _.
              second_try w' (omega (arith, h'.0)) (block_writer_add fresh (index idx))
                (add-entries fresh (index idx)))))

  level_loop-index :
      (idxs : List IndexRecord) (w : Writer W)
      → Ensures
          (λ w'.
            length w'.index + 1
            ≤ length w.index + pending w.block_writer + length idxs + (1 - length idxs))
          (level_loop write compress2 first_cap idxs w)
  unfolding level_loop
  level_loop-index [] w = Ensures-ok (omega arith)
  level_loop-index (idx ∷ []) w =
      Ensures->>= (add_or_flush-Adds w idx) (λ w' h. Ensures-ok (omega (arith, h.0)))
  level_loop-index (idx ∷ idx' ∷ rest) w = Ensures->>= (add_or_flush-Adds w idx) (λ w' h. record {
    value = λ w'' e. omega (arith, h.0, h.1, (level_loop-index (idx' ∷ rest) w').value w'' e);
  })

  -- One level of the index.
  abbrev pub next_level : Writer W → Result (Writer W)
  next_level w = do
    w1 ← writer_reinit_block_writer w block_type_index
    level_loop write compress2 first_cap w.index (record w1 { index = [] })

  pub next_level-shorter :
      (w : Writer W)
      → 0 < length w.index
      → Ensures (λ w'. length w'.index < length w.index) (next_level w)
  next_level-shorter w some_entries = Ensures->>= (reinit-index w block_type_index) (λ w1 h.
      record {
        value = λ w' e.
            omega (arith, h.1, (level_loop-index w.index (record w1 { index = [] })).value w' e);
      })
