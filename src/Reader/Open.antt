-- ===== src/Reader/Open.antt =====
-- init_reader over a file that the writer has closed.
use Prim.Native.Nat.Ordering.{eq}
use mathlib.Core.List.{append_assoc}
use reftable.Base.{
  ℕ, zero, suc, ◌+◌, ◌-◌, ◌^◌, ◌<◌, ◌≤◌, ◌≡◌, ◌⊎◌, refl, sym, ap, ◌∙◌, List, [], ◌∷◌, ◌++◌, true,
  leb, ltb, false, ◌==◌, ==_refl, ◌||◌, ok, ok-injective, Bool-cases, load, length, length-append,
  length-take, take, drop, take_all, drop-append, arith, inl, inr,
}
use reftable.Basics.Bytes.{memcmp}
use reftable.Basics.BigEndian.{put_be24, put_be32, put_be64}
use reftable.Generic.{git_sha1_format_id}
use reftable.Block.Writer.{header_size, footer_size}
use reftable.Writer.{Writer, writer_version}
use reftable.Writer.Output.{writer_write_header}
use reftable.Writer.Close.{footer, footer_fields}
use reftable.Reader.{block_source_from_strbuf, strbuf_read_block, magic, init_reader}
use reftable.Reader.Footer.{Fits, reader_of, parse_footer-footer, length-header}

take-past :
    {A : Type 0} (h y : List A) (m n : ℕ) → length h + n ≡ m → take m (h ++ y) ≡ h ++ take n y
take-past [] y m n e = let same : n ≡ m = omega arith in rw same
take-past (x ∷ h) y zero n e = absurd (omega arith)
take-past (x ∷ h) y (suc m) n e = ap (x ∷◌) (take-past h y m n (omega arith))

strbuf_read_block-ok :
    (b : List ℕ) (off size : ℕ)
    → off + size ≤ length b
    → strbuf_read_block b off size ≡ ok (take size (drop off b))
unfolding strbuf_read_block
strbuf_read_block-ok b off size h = ground arith

module _ {W : Type 0} (w : Writer W) (crc32 : ℕ → List ℕ → ℕ) where
  length-footer : footer_size (writer_version w.opts) ≡ ok (length (footer crc32 w))
  unfolding footer_size footer_fields writer_version writer_write_header put_be24 put_be32 put_be64
  length-footer = ground arith

  version_known : (writer_version w.opts ≡ 1) ⊎ (writer_version w.opts ≡ 2)
  unfolding writer_version
  version_known = elim (Bool-cases (w.opts.hash_id == 0 || w.opts.hash_id == git_sha1_format_id)) [
    | inl one ↦ inl (rw one)
    | inr two ↦ inr (rw two)
  ]

  abbrev head_len : ℕ
  head_len = length (writer_write_header w)

  abbrev foot_len : ℕ
  foot_len = length (footer crc32 w)

  sizes :
      ((writer_version w.opts ≡ 1) × (head_len ≡ 24) × (foot_len ≡ 68))
      ⊎ ((writer_version w.opts ≡ 2) × (head_len ≡ 28) × (foot_len ≡ 72))
  unfolding header_size footer_size
  sizes = elim version_known [
    | inl one ↦ inl (
      one,
      sym (ok-injective (ap header_size (sym one) ∙ length-header w)),
      sym (ok-injective (ap footer_size (sym one) ∙ length-footer)),
    )
    | inr two ↦ inr (
      two,
      sym (ok-injective (ap header_size (sym two) ∙ length-header w)),
      sym (ok-injective (ap footer_size (sym two) ∙ length-footer)),
    )
  ]

  header_front :
      (x : List ℕ)
      → (memcmp (writer_write_header w ++ x) magic 4 ≡ eq)
        × (load (writer_write_header w ++ x) 4 ≡ ok (writer_version w.opts))
  unfolding memcmp writer_write_header
  header_front x = (refl, refl)

  module _ (blocks : List ℕ) where
    abbrev file : List ℕ
    file = writer_write_header w ++ (blocks ++ footer crc32 w)

    front : List ℕ
    front = writer_write_header w ++ blocks

    length-front : length front ≡ head_len + length blocks
    unfolding front
    length-front = length-append (writer_write_header w) blocks

    length-file : length file ≡ head_len + length blocks + foot_len
    length-file = omega (
      arith,
      length-append (writer_write_header w) (blocks ++ footer crc32 w),
      length-append blocks (footer crc32 w),
    )

    read_footer : strbuf_read_block file (head_len + length blocks) foot_len ≡ ok (footer crc32 w)
    unfolding front
    read_footer =
        strbuf_read_block-ok file (head_len + length blocks) foot_len (omega (arith, length-file))
        ∙ ap (λ b. ok (take foot_len (drop (head_len + length blocks) b)))
            (sym (append_assoc (writer_write_header w) blocks (footer crc32 w)))
        ∙ ap (λ b. ok (take foot_len b))
            (drop-append (head_len + length blocks) front (footer crc32 w) length-front)
        ∙ ap ok (take_all foot_len (footer crc32 w) (omega arith))

    read_header :
        (typ : ℕ) (more : List ℕ)
        → blocks ++ footer crc32 w ≡ typ ∷ more
        → (rest : List ℕ) × (strbuf_read_block file 0 29
            ≡ ok (writer_write_header w ++ (typ ∷ rest)))
          × (length (writer_write_header w ++ (typ ∷ rest)) ≡ 29)
    read_header typ more e =
        let rest = take (28 - head_len) more in
        let long = ap length e ∙ refl in
        let size = length-append blocks (footer crc32 w) in
        (
          rest,
          strbuf_read_block-ok file 0 29 (ground (arith, length-file, sizes))
              ∙ ap (λ b. ok (take 29 (writer_write_header w ++ b))) e
              ∙ ap ok (
                  take-past (writer_write_header w) (typ ∷ more) 29 (suc (28 - head_len))
                    (ground (arith, sizes))),
          ground (
            arith,
            sizes,
            size,
            long,
            length-append (writer_write_header w) (typ ∷ rest),
            length-take (28 - head_len) more,
          ),
        )

    -- A file that consists of the header, blocks and the footer of a writer is opened: the reader has the limits,
    -- the block size, the hash and the section offsets of the writer, the size without the footer, and the
    -- sections that the type of the first block and the offsets say. If there are no blocks, that type is the
    -- first byte of the footer.
    pub init_reader-footer :
        (typ : ℕ) (more : List ℕ)
        → Fits w
        → crc32 0 (footer_fields w) < 2 ^ 32
        → blocks ++ footer crc32 w ≡ typ ∷ more
        → init_reader crc32 (block_source_from_strbuf file)
          ≡ ok (reader_of w (head_len + length blocks) typ)
    unfolding init_reader header_size
    init_reader-footer typ more f sound e =
        let (rest, header_read, header_long) = read_header typ more e in
        let (is_magic, version_at) = header_front (typ ∷ rest) in
        let large : leb 29 (length file) ≡ true = ground (arith, length-file, sizes) in
        let known : (writer_version w.opts == 1 || writer_version w.opts == 2) ≡ true =
          ground (arith, sizes) in
        let long : ltb (length file) foot_len ≡ false = ground (arith, length-file) in
        let size : length file - foot_len ≡ head_len + length blocks = omega (arith, length-file) in
        rw
          (
            large,
            header_read,
            header_long,
            is_magic,
            version_at,
            known,
            length-footer,
            long,
            size,
            read_footer,
            ==_refl foot_len,
          )
          (parse_footer-footer w crc32 (head_len + length blocks) typ rest f sound)
