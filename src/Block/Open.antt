-- ===== src/Block/Open.antt =====
-- Opening the bytes of a finished block.
use mathlib.Core.List.{append_assoc}
use reftable.Base.{
  ℕ, zero, suc, ◌+◌, ◌-◌, ◌*◌, ◌^◌, ◌≤◌, ◌<◌, ◌≡◌, ◌≢◌, refl, sym, ap, ◌∙◌, List, [], ◌∷◌, ◌++◌, ok,
  length, length-append, true, false, ltb, ◌==◌, if◌then◌else◌, ◌&&◌, drop, drop-append, load,
  arith, Bool-cases, inl, inr, Option,
}
use reftable.Basics.BigEndian.{put_be24, put_be16, get_be24-put_be24, get_be16-put_be16}
use reftable.Record.Any.{is_block_type, block_type_log}
use reftable.Block.Writer.{restart_bytes}
use reftable.Block.Reader.{BlockReader, block_reader_init, open_plain, sub32}
use reftable.Block.Iterate.{Spans}
use reftable.Block.Image.{image, at_length, length-put_be24, length-restart_bytes}

load-below : (xs : List ℕ) (i : ℕ) → i < length xs → (x : ℕ) × (load xs i ≡ ok x)
load-below [] i h = absurd (omega arith)
load-below (x ∷ xs) zero h = (x, refl)
load-below (x ∷ xs) (suc i) h = load-below xs i (omega arith)

-- Whatever the size of the block in the file is, a plain block's memory is taken as it is.
open_plain_lem :
    (bytes : List ℕ) (len tbs sz : ℕ)
    → len ≤ length bytes
    → (full : ℕ) × (open_plain bytes len tbs sz
        ≡ ok (record { bytes = bytes; len = len; full_block_size = full }))
unfolding open_plain
open_plain_lem bytes len tbs sz h = elim (Bool-cases (tbs == 0)) [
  | inl whole ↦ (sz, rw whole)
  | inr aligned ↦ elim (Bool-cases (ltb sz tbs && ltb sz len)) [
    | inl inside ↦
        let (b, e) = load-below bytes sz (ground arith) in
        ((if b == 0 then tbs else sz), rw (aligned, inside, e))
    | inr past ↦ (tbs, rw (aligned, past))
  ]
]

module _ (front entries more : List ℕ) (typ : ℕ) (restarts : List ℕ) where
  abbrev tail : List ℕ
  tail = entries ++ ((restart_bytes restarts ++ put_be16 (length restarts)) ++ more)

  abbrev pub size : ℕ
  size = length front + 4 + length entries + (3 * length restarts + 2)

  abbrev pub block : List ℕ
  block = image front typ size tail

  -- What stands in front of the restart count.
  abbrev before : List ℕ
  before = front ++ (typ ∷ (put_be24 size ++ (entries ++ restart_bytes restarts)))

  length-before : length before ≡ size - 2
  length-before = omega (
    arith,
    length-append front (typ ∷ (put_be24 size ++ (entries ++ restart_bytes restarts))),
    length-append (put_be24 size) (entries ++ restart_bytes restarts),
    length-append entries (restart_bytes restarts),
    length-put_be24 size,
    length-restart_bytes restarts,
  )

  split : block ≡ before ++ (put_be16 (length restarts) ++ more)
  split = simp append_assoc

  drop-before : drop (size - 2) block ≡ put_be16 (length restarts) ++ more
  drop-before = ap (drop (size - 2)) split ∙ drop-append (size - 2) before _ length-before

  -- A block that is not compressed opens with its entries where the writer put them.
  pub block_reader_init-block :
      (uncompress2 : ℕ → List ℕ → Option (List ℕ × ℕ)) (len table_block_size hash_size : ℕ)
      → is_block_type typ ≡ true
      → typ ≢ block_type_log
      → size < 2 ^ 24
      → length restarts < 2 ^ 16
      → len ≤ length block
      → (br : BlockReader) × (block_reader_init uncompress2 block len
            (length front)
            table_block_size
            hash_size
          ≡ ok br)
        × Spans br (length front + 4) entries
        × (br.header_off ≡ length front)
        × (br.hash_size ≡ hash_size)
  unfolding block_reader_init
  block_reader_init-block uncompress2 len tbs hash_size known plain small few within =
      let (full, opened) = open_plain_lem block len tbs size within in
      let br : BlockReader = record {
        header_off = length front;
        bytes = block;
        len = len;
        hash_size = hash_size;
        block_len = length front + 4 + length entries;
        restart_start = length front + 4 + length entries;
        restart_count = length restarts;
        full_block_size = full;
      } in
      let other : (typ == block_type_log) ≡ false = ground arith in
      let two : ltb size 2 ≡ false = ground arith in
      let start : sub32 size (2 + 3 * length restarts) ≡ length front + 4 + length entries =
        omega arith in
      (
        br,
        rw (
          load-typ,
          drop-size,
          get_be24-put_be24 size tail small,
          known,
          other,
          opened,
          two,
          drop-before,
          get_be16-put_be16 (length restarts) more few,
          start,
        ),
        spans br refl refl,
        refl,
        refl,
      )
    where
      load-typ : load block (length front) ≡ ok typ
      load-typ = rw (at_length front (put_be24 size ++ tail) typ, load)

      split-body : block ≡ (front ++ (typ ∷ put_be24 size)) ++ tail
      split-body = simp append_assoc

      drop-size : drop (length front + 1) block ≡ put_be24 size ++ tail
      drop-size =
          ap (drop (length front + 1)) (sym (append_assoc front (typ ∷ []) (put_be24 size ++ tail)))
          ∙ drop-append (length front + 1) (front ++ (typ ∷ [])) _ (length-append front (typ ∷ []))

      spans :
          (br : BlockReader)
          → br.bytes ≡ block
          → br.block_len ≡ length front + 4 + length entries
          → Spans br (length front + 4) entries
      spans br e n = record {
        rest = (restart_bytes restarts ++ put_be16 (length restarts)) ++ more;
        memory =
            ap (drop (length front + 4)) (e ∙ split-body)
            ∙ drop-append (length front + 4) (front ++ (typ ∷ put_be24 size))
                (entries ++ ((restart_bytes restarts ++ put_be16 (length restarts)) ++ more))
                (omega (arith, length-append front (typ ∷ put_be24 size), length-put_be24 size));
        ends = omega (arith, n);
        small = omega (arith, n);
      }

-- The same, for an image whose size and offset are known by other terms.
pub block_reader_init-image :
    (front entries more : List ℕ) (typ : ℕ) (restarts : List ℕ)
    (uncompress2 : ℕ → List ℕ → Option (List ℕ × ℕ)) (len table_block_size hash_size n off : ℕ)
    → n ≡ size front entries more typ restarts
    → off ≡ length front
    → is_block_type typ ≡ true
    → typ ≢ block_type_log
    → n < 2 ^ 24
    → length restarts < 2 ^ 16
    → len ≤ length (block front entries more typ restarts)
    → (br : BlockReader) × (block_reader_init uncompress2
          (image front typ n
            (entries ++ ((restart_bytes restarts ++ put_be16 (length restarts)) ++ more)))
          len
          off
          table_block_size
          hash_size
        ≡ ok br)
      × Spans br (off + 4) entries
      × (br.header_off ≡ off)
      × (br.hash_size ≡ hash_size)
block_reader_init-image front entries more typ restarts uncompress2 len tbs hash_size n off same at
      known plain small few within =
    rw (same, at)
      (block_reader_init-block front entries more typ restarts uncompress2 len tbs hash_size known
        plain (rw same at small) few within)
