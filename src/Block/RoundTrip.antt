-- ===== src/Block/RoundTrip.antt =====
-- A block from its first byte to the records that are read from it: block_writer_init,
-- block_writer_add, block_writer_finish, block_reader_init, block_reader_start and block_iter_next.
use mathlib.Core.List.{append_assoc}
use reftable.Base.{
  ℕ, ◌+◌, ◌*◌, ◌^◌, ◌≤◌, ◌<◌, ◌≡◌, ◌≢◌, refl, sym, ◌∙◌, List, [], ◌∷◌, ◌++◌, ok, length,
  length-append, length-take, length-drop, true, take, drop, take-append-drop, arith, All, Option,
  ok-injective, subst,
}
use reftable.Basics.BigEndian.{put_be24}
use reftable.Record.Types.{Record}
use reftable.Record.Any.{is_block_type, block_type_log, record_type}
use reftable.Record.Any.RoundTrip.{IsRecord}
use reftable.Block.Buffer.{splice, write_at-ok, length-splice, take-append_more}
use reftable.Block.Writer.{BlockWriter, ZResult, block_writer_init, block_writer_finish, trailer}
use reftable.Block.Reader.{BlockReader, block_reader_init, block_reader_start}
use reftable.Block.Fill.{IsValid}
use reftable.Block.Body.{body, add_all, Holds, add_all-Holds}
use reftable.Block.Iterate.{Spans, read_all, stored_all, read_all-body}
use reftable.Block.Image.{
  image, Shaped, block_writer_finish-image, length-trailer, length-put_be24, end,
}
use reftable.Block.Open.{block, size, block_reader_init-image}

-- Reading from the start of a block that holds the entries of `rs`.
read_all-start :
    (typ header_off hash_size : ℕ) (br : BlockReader) (rec : Record) (rs : List Record)
    → br.header_off ≡ header_off
    → br.hash_size ≡ hash_size
    → record_type rec ≡ typ
    → All (λ r. IsRecord hash_size r × (record_type r ≡ typ)) rs
    → Spans br (header_off + 4) (body hash_size 16 0 [] rs)
    → read_all br (length rs + 1) (block_reader_start br) rec ≡ ok (stored_all hash_size rec rs)
unfolding block_reader_start
read_all-start typ header_off hash_size br rec rs off sized own sorts spans =
    subst (λ n. read_all br (length rs + 1) (block_reader_start br) rec ≡ ok (stored_all n rec rs))
      sized
      (read_all-body br 16 typ (length rs + 1) 0 (block_reader_start br) rec rs (omega arith) own
        (subst (λ n. All (λ r. IsRecord n r × (record_type r ≡ typ)) rs) (sym sized) sorts)
        (subst (λ n. Spans br (n + 4) (body br.hash_size 16 0 [] rs)) (sym off)
          (subst (λ n. Spans br (header_off + 4) (body n 16 0 [] rs)) (sym sized) spans)))

module _ (typ : ℕ) (buf : List ℕ) (block_size header_off hash_size : ℕ)
    (room : header_off + 6 ≤ block_size) (fits : block_size ≤ length buf)
    (small : block_size < 2 ^ 24) where
  -- The writer that block_writer_init makes.
  abbrev pub fresh : BlockWriter
  fresh = record {
    buf = splice buf header_off (typ ∷ []);
    block_size = block_size;
    header_off = header_off;
    restart_interval = 16;
    hash_size = hash_size;
    next = header_off + 4;
    restarts = [];
    last_key = [];
    entries = 0;
  }

  -- A new block writer with room for the header and an empty trailer is valid, and holds the type.
  pub block_writer_init-fresh :
      (block_writer_init typ buf block_size header_off hash_size ≡ ok fresh) × IsValid fresh
  unfolding block_writer_init
  block_writer_init-fresh = (
    rw (write_at-ok buf header_off (typ ∷ []) (omega arith)),
    record {
      room = omega arith;
      fits = rw (length-splice buf header_off (typ ∷ []) (omega arith)) fits;
      small = small;
      started = omega arith;
      few = omega arith;
    },
  )

  front : List ℕ
  front = take header_off buf

  length-front : length front ≡ header_off
  unfolding front
  length-front = omega (arith, length-take header_off buf)

  size_bytes : List ℕ
  size_bytes = take 3 (drop (header_off + 1) buf)

  start-shape :
      take (header_off + 4) (splice buf header_off (typ ∷ [])) ≡ (front ++ (typ ∷ [])) ++ size_bytes
  unfolding front size_bytes
  start-shape =
      take-append_more header_off 4 (header_off + 4) (take header_off buf) _ length-front refl
      ∙ sym (append_assoc (take header_off buf) (typ ∷ []) _)

  module _ (rs : List Record) (w : BlockWriter) (holds : Holds fresh w rs) where
    abbrev entries : List ℕ
    entries = body hash_size 16 0 [] rs

    shaped : Shaped w front typ entries
    shaped = record {
      size = size_bytes;
      rest = drop w.next w.buf;
      shape =
          sym (take-append-drop w.next w.buf) ∙ (rw (holds.front, start-shape) (simp append_assoc));
      three =
          unfold size_bytes in
          omega
            (arith, length-take 3 (drop (header_off + 1) buf), length-drop (header_off + 1) buf);
      header = holds.header ∙ sym length-front;
      next = omega (arith, holds.next, length-front);
    }

  All-fst :
      (rs : List Record)
      → All (λ r. IsRecord hash_size r × (record_type r ≡ typ)) rs
      → All (IsRecord hash_size) rs
  All-fst [] h = h
  All-fst (r ∷ rs) ((a, b), h) = (a, All-fst rs h)

  -- A block of one type, not a log block, of less than 2^24 bytes and with room for its header, that takes
  -- all the sound records of its type, is finished, opened and read back from its start: the records come
  -- back in order, and then the end of the block.
  pub block-round_trip :
      (compress2 : ℕ → List ℕ → ZResult) (first_cap : ℕ → ℕ)
      (uncompress2 : ℕ → List ℕ → Option (List ℕ × ℕ)) (table_block_size : ℕ) (rec : Record)
      (rs : List Record) (new w : BlockWriter)
      → is_block_type typ ≡ true
      → typ ≢ block_type_log
      → record_type rec ≡ typ
      → All (λ r. IsRecord hash_size r × (record_type r ≡ typ)) rs
      → block_writer_init typ buf block_size header_off hash_size ≡ ok new
      → add_all new rs ≡ ok w
      → (done : BlockWriter) × (n : ℕ) × (br : BlockReader) × (block_writer_finish compress2
            first_cap w
          ≡ ok (done, n))
        × (block_reader_init uncompress2 done.buf block_size header_off table_block_size hash_size
            ≡ ok br)
        × (read_all br (length rs + 1) (block_reader_start br) rec
            ≡ ok (stored_all hash_size rec rs))
  block-round_trip compress2 first_cap uncompress2 tbs rec rs new w known plain own sorts begun
        run =
      let (made, valid) = block_writer_init-fresh in
      let same : new ≡ fresh = ok-injective (sym begun ∙ made) in
      let h = add_all-Holds rs fresh w valid (All-fst rs sorts) (rw same at run) in
      let s = shaped rs w h in
      let more = drop (w.next + length (trailer w)) w.buf in
      let finished =
        block_writer_finish-image w front typ (entries rs w h) h.valid s compress2 first_cap
          plain in
      let ends : end w front typ (entries rs w h) h.valid s
          ≡ length front + 4 + length (entries rs w h) + (3 * length w.restarts + 2) =
        omega (arith, s.next, length-trailer w) in
      let within : block_size ≤ length (block front (entries rs w h) more typ w.restarts) = omega (
        arith,
        length-append front (
            typ
            ∷ (put_be24 (size front (entries rs w h) more typ w.restarts)
                ++ (entries rs w h ++ (trailer w ++ more)))),
        length-append (put_be24 (size front (entries rs w h) more typ w.restarts))
            (entries rs w h ++ (trailer w ++ more)),
        length-append (entries rs w h) (trailer w ++ more),
        length-append (trailer w) more,
        length-put_be24 (size front (entries rs w h) more typ w.restarts),
        length-drop (w.next + length (trailer w)) w.buf,
        h.valid.room,
        h.valid.fits,
        h.sized,
        s.next,
        length-trailer w,
      ) in
      let (br, init, spans, off, sized) =
        block_reader_init-image front (entries rs w h) more typ w.restarts uncompress2 block_size
          tbs hash_size (end w front typ (entries rs w h) h.valid s) header_off ends
          (sym length-front) known plain
          (omega (arith, length-trailer w, h.valid.room, h.valid.small))
          (omega (arith, h.valid.few)) within in
      (
        record w {
          buf =
              image front typ (w.next + length (trailer w)) (entries rs w h ++ (trailer w ++ more));
          next = w.next + length (trailer w);
        },
        w.next + length (trailer w),
        br,
        finished,
        init,
        read_all-start typ header_off hash_size br rec rs off sized own sorts spans,
      )
