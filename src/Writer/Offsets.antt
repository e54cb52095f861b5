-- ===== src/Writer/Offsets.antt =====
-- The offsets that the writer keeps are those of the file: what has been written, with the padding that is due,
-- ends where the next block starts.
use reftable.Base.{
  ℕ, ◌+◌, ◌≤◌, ◌≡◌, refl, ap, ◌∙◌, List, ◌++◌, Bool, true, false, Option, none, some, Result, Error,
  ok, err, fault, Ensures, Ensures->>=, Ensures-ok, Ensures_any, Ensures-fault, ◌==◌, ltb,
  if◌then◌else◌, replicate, take, length, length-append, length-take, length-replicate, arith,
  Bool-cases, inl, inr, ◌>>=◌,
}
use reftable.Basics.BigEndian.{put_be24}
use reftable.Record.Types.{Record}
use reftable.Record.Any.{block_type_log}
use reftable.Block.Buffer.{write_at, length-splice}
use reftable.Block.Writer.{
  header_size, block_writer_init, BlockWriter, ZResult, block_writer_finish, block_writer_type,
  trailer, compress_loop, block_writer_add,
}
use reftable.Generic.{hash_size}
use reftable.Writer.Section.{add_or_flush, flush_block}
use reftable.Writer.{
  deref, writer_version, Writer, writer_reftable_block_stats, writer_reinit_block_writer,
}
use reftable.Writer.Output.{
  writer_write_header, padded_write, writer_flush_nonempty_block, writer_flush_block,
}

write_at-Ensures :
    (buf : List ℕ) (off : ℕ) (bytes : List ℕ)
    → Ensures
        (λ buf'. (length buf' ≡ length buf) × (off + length bytes ≤ length buf))
        (write_at buf off bytes)
unfolding write_at
write_at-Ensures buf off bytes = elim (Bool-cases (ltb (length buf) (off + length bytes))) [
  | inl outside ↦ rw outside Ensures-fault
  | inr inside ↦ rw inside (Ensures-ok (length-splice buf off bytes (ground arith), ground arith))
]

pub if-Ensures :
    {A : Type 0} {P : A → Type 0} (b : Bool) {x y : Result A}
    → Ensures P x
    → Ensures P y
    → Ensures P (if b then x else y)
if-Ensures true h k = h
if-Ensures false h k = k

module _ (compress2 : ℕ → List ℕ → ZResult) (first_cap : ℕ → ℕ) where
  logged :
      (bw : BlockWriter) (buf src : List ℕ) (skip : ℕ)
      → Ensures {A = BlockWriter × ℕ}
          (λ r. r.1 ≤ length r.0.buf)
          (do
            out ← compress_loop compress2 first_cap 64 (first_cap (length src)) src
            buf3 ← write_at buf skip out
            ok (record bw { buf = buf3; next = length out + skip }, length out + skip))
  logged bw buf src skip =
      Ensures->>= (Ensures_any (compress_loop compress2 first_cap 64 (first_cap (length src)) src))
        (λ out _.
          Ensures->>= (write_at-Ensures buf skip out)
            (λ buf3 h3. Ensures-ok (omega (arith, h3.0, h3.1))))

  -- The length that block_writer_finish answers lies inside the block's memory.
  block_writer_finish-Ensures :
      (bw : BlockWriter)
      → Ensures (λ r. r.1 ≤ length r.0.buf) (block_writer_finish compress2 first_cap bw)
  unfolding block_writer_finish
  block_writer_finish-Ensures bw =
      Ensures->>= (write_at-Ensures bw.buf bw.next (trailer bw)) (λ buf1 h1.
        Ensures->>=
          (write_at-Ensures buf1 (bw.header_off + 1) (put_be24 (bw.next + length (trailer bw))))
          (λ buf2 h2.
            if-Ensures (block_writer_type bw == block_type_log)
              (logged bw buf2 _ (4 + bw.header_off))
              (Ensures-ok
                {a = (
                  record bw { buf = buf2; next = bw.next + length (trailer bw) },
                  bw.next + length (trailer bw),
                )}
                (omega (arith, h1.0, h1.1, h2.0)))))

module _ {W : Type 0} (write : W → List ℕ → Result W) (content : W → List ℕ)
    (appends : (s : W) (bytes : List ℕ)
      → Ensures (λ s'. content s' ≡ content s ++ bytes) (write s bytes)) where
  -- The file and the padding that is due end where the next block starts.
  abbrev pub Tracks : Writer W → Type 0
  Tracks w = length (content w.sink) + w.pending_padding ≡ w.next

  padded :
      (w : Writer W)
      → Ensures
          (λ sink. length (content sink) ≡ length (content w.sink) + w.pending_padding)
          (if ltb 0 w.pending_padding
            then write w.sink (replicate w.pending_padding 0)
            else ok w.sink)
  padded w = elim (Bool-cases (ltb 0 w.pending_padding)) [
    | inl due ↦ rw due (record {
      value = λ s e.
          ap length ((appends w.sink (replicate w.pending_padding 0)).value s e)
          ∙ omega (
            arith,
            length-append (content w.sink) (replicate w.pending_padding 0),
            length-replicate {A = ℕ} w.pending_padding 0,
          );
    })
    | inr none_due ↦ rw none_due (Ensures-ok (ground arith))
  ]

  pub padded_write-Ensures :
      (w : Writer W) (bytes : List ℕ) (padding : ℕ)
      → Ensures
          (λ w'.
            (length (content w'.sink) ≡ length (content w.sink) + w.pending_padding + length bytes)
            × (w'.pending_padding ≡ padding)
            × (w'.next ≡ w.next))
          (padded_write write w bytes padding)
  unfolding padded_write
  padded_write-Ensures w bytes padding = Ensures->>= (padded w) (λ sink h.
      Ensures->>= (appends sink bytes) (λ sink' h'.
        Ensures-ok {a = record w { sink = sink'; pending_padding = padding }}
          (ap length h' ∙ omega (arith, length-append (content sink) bytes, h), refl, refl)))

  headed :
      (w : Writer W) (buf : List ℕ)
      → Ensures
          (λ block. length block ≡ length buf)
          (if w.next == 0 then write_at buf 0 (writer_write_header w) else ok buf)
  headed w buf =
      if-Ensures (w.next == 0)
        (record { value = λ b e. ((write_at-Ensures buf 0 (writer_write_header w)).value b e).0 })
        (Ensures-ok refl)

  module _ (compress2 : ℕ → List ℕ → ZResult) (first_cap : ℕ → ℕ) where
    flush_nonempty-Tracks :
        (w : Writer W) (bw : BlockWriter)
        → Tracks w
        → Ensures Tracks (writer_flush_nonempty_block write compress2 first_cap w bw)
    unfolding writer_flush_nonempty_block
    flush_nonempty-Tracks w bw t =
        Ensures->>= (Ensures_any (writer_reftable_block_stats w.stats (block_writer_type bw)))
          (λ bstats _.
            Ensures->>= (block_writer_finish-Ensures compress2 first_cap bw) (λ finished h.
              Ensures->>= (headed w finished.0.buf) (λ block h1.
                Ensures->>= (padded_write-Ensures w (take finished.1 block) _) (λ w' h2.
                  Ensures-ok (omega (arith, h, h1, h2.0, h2.1, t, length-take finished.1 block))))))

    pub writer_flush_block-Tracks :
        (w : Writer W) → Tracks w → Ensures Tracks (writer_flush_block write compress2 first_cap w)
    unfolding writer_flush_block
    writer_flush_block-Tracks w t = flushed w.block_writer
      where
        flushed :
            (o : Option BlockWriter)
            → Ensures Tracks (elim o [
              | none ↦ ok w
              | some bw ↦
                  if bw.entries == 0
                  then ok w
                  else writer_flush_nonempty_block write compress2 first_cap w bw
            ])
        flushed none = Ensures-ok t
        flushed (some bw) =
            if-Ensures (bw.entries == 0) (Ensures-ok t) (flush_nonempty-Tracks w bw t)

  pub reinit-Tracks :
      (w : Writer W) (typ : ℕ) → Tracks w → Ensures Tracks (writer_reinit_block_writer w typ)
  unfolding writer_reinit_block_writer
  reinit-Tracks w typ t =
      Ensures->>= (Ensures_any (if w.next == 0 then header_size (writer_version w.opts) else ok 0))
        (λ block_start _. Ensures->>= (Ensures_any (hash_size w.opts.hash_id)) (λ size _.
          Ensures->>=
            (Ensures_any (
              block_writer_init typ
                (elim w.block_writer as (λ _. List ℕ) [ none ↦ w.block | some bw ↦ bw.buf ])
                w.opts.block_size block_start size))
            (λ bw _. Ensures-ok t)))

  module _ (compress2 : ℕ → List ℕ → ZResult) (first_cap : ℕ → ℕ) where
    pub add_or_flush-Tracks :
        (w : Writer W) (typ : ℕ) (rec : Record)
        (full : Error → Writer W → BlockWriter → Result (Writer W))
        → Tracks w
        → ((code : Error) (w' : Writer W) (fresh : BlockWriter)
            → Tracks w'
            → Ensures Tracks (full code w' fresh))
        → Ensures Tracks (add_or_flush write compress2 first_cap w typ rec full)
    unfolding add_or_flush
    add_or_flush-Tracks w typ rec full t f =
        Ensures->>= (Ensures_any (deref w.block_writer))
          (λ bw _. first_try (block_writer_add bw rec))
      where
        second_try :
            (w' : Writer W) (fresh : BlockWriter)
            → Tracks w'
            → (r : Result BlockWriter)
            → Ensures Tracks (elim r [
              | ok bw' ↦ ok (record w' { block_writer = some bw' })
              | fault cause ↦ fault cause
              | err code' ↦ full code' w' fresh
            ])
        second_try w' fresh t' (ok bw') = Ensures-ok t'
        second_try w' fresh t' (err code) = f code w' fresh t'
        second_try w' fresh t' (fault cause) = Ensures-fault

        first_try :
            (r : Result BlockWriter)
            → Ensures Tracks (elim r [
              | ok bw' ↦ ok (record w { block_writer = some bw' })
              | fault cause ↦ fault cause
              | err code ↦ (do
                flushed ← flush_block write compress2 first_cap w
                w' ← writer_reinit_block_writer flushed typ
                fresh ← deref w'.block_writer
                elim (block_writer_add fresh rec) [
                  | ok bw' ↦ ok (record w' { block_writer = some bw' })
                  | fault cause ↦ fault cause
                  | err code' ↦ full code' w' fresh
                ])
            ])
        first_try (ok bw') = Ensures-ok t
        first_try (fault cause) = Ensures-fault
        first_try (err code) =
            Ensures->>= (writer_flush_block-Tracks compress2 first_cap w t) (λ flushed t1.
              Ensures->>= (reinit-Tracks flushed typ t1) (λ w' t2.
                Ensures->>= (Ensures_any (deref w'.block_writer))
                  (λ fresh _. second_try w' fresh t2 (block_writer_add fresh rec))))
