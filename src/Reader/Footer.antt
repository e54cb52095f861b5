-- ===== src/Reader/Footer.antt =====
-- The reader finds in the footer what the writer put there.
use Prim.Native.Nat.Ordering.{eq}
use mathlib.Core.List.{append_assoc}
use reftable.Base.{
  ℕ, ◌+◌, ◌-◌, ◌*◌, ◌/◌, ◌%◌, ◌^◌, ◌<◌, ◌≡◌, ◌⊎◌, refl, List, [], ◌∷◌, ◌++◌, ltb, ◌==◌, ==_refl,
  ◌||◌, if◌then◌else◌, ok, load, length, length-append, take, drop, take-append, drop-append, arith,
  inl, inr,
}
use reftable.Basics.Bytes.{memcmp}
use reftable.Basics.BigEndian.{
  put_be24, put_be32, put_be64, get_be32, get_be24-put_be24, get_be32-put_be32, get_be64-put_be64,
  length-put_be64,
}
use reftable.Record.Any.{block_type_ref, block_type_log}
use reftable.Generic.{git_sha1_format_id, git_sha256_format_id}
use reftable.Block.Writer.{header_size}
use reftable.Writer.{Writer, writer_version}
use reftable.Writer.Output.{writer_write_header}
use reftable.Writer.Close.{footer, footer_fields, pack_obj}
use reftable.Reader.{Reader, read_be64, read_hash_id, magic, parse_footer}

-- What the writer has to store fits its fields.
pub record Fits {W : Type 0} (w : Writer W) : Type 0 where
  pub hashed : (w.opts.hash_id ≡ git_sha1_format_id) ⊎ (w.opts.hash_id ≡ git_sha256_format_id)
  pub sized : w.opts.block_size < 2 ^ 24
  pub min_small : w.min_update_index < 2 ^ 64
  pub max_small : w.max_update_index < 2 ^ 64
  pub ref_small : w.stats.ref_stats.index_offset < 2 ^ 64
  pub obj_small : w.stats.obj_stats.offset < 2 ^ 59
  pub id_small : w.stats.object_id_len < 32
  pub obj_index_small : w.stats.obj_stats.index_offset < 2 ^ 64
  pub log_small : w.stats.log_stats.offset < 2 ^ 64
  pub log_index_small : w.stats.log_stats.index_offset < 2 ^ 64

-- The reader of a table of the writer, of this size, whose first block has the type.
abbrev pub reader_of : {W : Type 0} → Writer W → ℕ → ℕ → Reader
reader_of w size typ = record {
  size = size;
  hash_id = w.opts.hash_id;
  block_size = w.opts.block_size;
  min_update_index = w.min_update_index;
  max_update_index = w.max_update_index;
  object_id_len = w.stats.object_id_len;
  version = writer_version w.opts;
  ref_offsets = record {
    is_present = typ == block_type_ref;
    offset = 0;
    index_offset = w.stats.ref_stats.index_offset;
  };
  obj_offsets = record {
    is_present = ltb 0 w.stats.obj_stats.offset;
    offset = w.stats.obj_stats.offset;
    index_offset = w.stats.obj_stats.index_offset;
  };
  log_offsets = record {
    is_present = typ == block_type_log || ltb 0 w.stats.log_stats.offset;
    offset = w.stats.log_stats.offset;
    index_offset = w.stats.log_stats.index_offset;
  };
}

read_be64-put_be64 :
    (v : ℕ) (rest : List ℕ) → v < 2 ^ 64 → read_be64 (put_be64 v ++ rest) ≡ ok (v, rest)
unfolding read_be64
read_be64-put_be64 v rest h =
    rw (get_be64-put_be64 v rest h, drop-append 8 (put_be64 v) rest (length-put_be64 v))

pack_obj_lem :
    (offset len : ℕ) → offset < 2 ^ 59 → len < 32 → pack_obj offset len ≡ offset * 32 + len
unfolding pack_obj
pack_obj_lem offset len h k = ground arith

memcmp-append : (h x y : List ℕ) → memcmp (h ++ x) (h ++ y) (length h) ≡ eq
unfolding memcmp
memcmp-append [] [] y = refl
memcmp-append [] (a ∷ x) [] = refl
memcmp-append [] (a ∷ x) (b ∷ y) = refl
memcmp-append (a ∷ h) x y = ground (arith, memcmp-append h x y)

load-append : (h rest : List ℕ) (t : ℕ) → load (h ++ (t ∷ rest)) (length h) ≡ ok t
load-append [] rest t = refl
load-append (x ∷ h) rest t = load-append h rest t

read_hash_id_lem :
    {W : Type 0} (w : Writer W) (rest : List ℕ)
    → (w.opts.hash_id ≡ git_sha1_format_id) ⊎ (w.opts.hash_id ≡ git_sha256_format_id)
    → read_hash_id
        (writer_version w.opts)
        ((if writer_version w.opts == 2 then put_be32 w.opts.hash_id else []) ++ rest)
      ≡ ok (w.opts.hash_id, rest)
unfolding read_hash_id writer_version put_be32
read_hash_id_lem w rest (inl sha1) = rw sha1
read_hash_id_lem w rest (inr sha256) =
    rw (sha256, get_be32-put_be32 git_sha256_format_id rest (omega arith))

pub length-header :
    {W : Type 0} (w : Writer W)
    → header_size (writer_version w.opts) ≡ ok (length (writer_write_header w))
unfolding header_size writer_version writer_write_header put_be24 put_be32 put_be64
length-header w = ground arith

drop-put_be24 : (i : ℕ) (rest : List ℕ) → drop 3 (put_be24 i ++ rest) ≡ rest
unfolding put_be24
drop-put_be24 i rest = refl

get_be32_alone : (i : ℕ) → i < 2 ^ 32 → get_be32 (put_be32 i) ≡ ok i
unfolding put_be32
get_be32_alone i h = get_be32-put_be32 i [] h

module _ {W : Type 0} (w : Writer W) (crc32 : ℕ → List ℕ → ℕ) where
  crc : List ℕ
  crc = put_be32 (crc32 0 (footer_fields w))

  -- The numbers behind the header.
  tail : List ℕ
  tail =
      put_be64 w.stats.ref_stats.index_offset
      ++ (put_be64 (pack_obj w.stats.obj_stats.offset w.stats.object_id_len)
          ++ (put_be64 w.stats.obj_stats.index_offset
              ++ (put_be64 w.stats.log_stats.offset
                  ++ (put_be64 w.stats.log_stats.index_offset ++ crc))))

  hash_bytes : List ℕ
  hash_bytes = if writer_version w.opts == 2 then put_be32 w.opts.hash_id else []

  footer-shape :
      (writer_write_header w ++ tail ≡ footer crc32 w)
      × (footer crc32 w
          ≡ magic
            ++ (writer_version w.opts
                ∷ (put_be24 w.opts.block_size
                    ++ (put_be64 w.min_update_index
                        ++ (put_be64 w.max_update_index ++ (hash_bytes ++ tail))))))
  unfolding tail crc footer_fields writer_write_header hash_bytes
  footer-shape = (simp append_assoc, simp append_assoc)

  behind_version : List ℕ
  behind_version =
      put_be24 w.opts.block_size
      ++ (put_be64 w.min_update_index ++ (put_be64 w.max_update_index ++ (hash_bytes ++ tail)))

  magic-footer : memcmp (footer crc32 w) magic 4 ≡ eq
  unfolding memcmp
  magic-footer = rw (footer-shape.1)

  header-footer :
      (rest : List ℕ)
      → memcmp (footer crc32 w) (writer_write_header w ++ rest) (length (writer_write_header w))
        ≡ eq
  header-footer rest = rw (← footer-shape.0) (memcmp-append (writer_write_header w) tail rest)

  drop-footer : drop 1 (drop 4 (footer crc32 w)) ≡ behind_version
  unfolding behind_version
  drop-footer = rw (footer-shape.1)

  take-footer : take (length (footer crc32 w) - length crc) (footer crc32 w) ≡ footer_fields w
  unfolding crc
  take-footer =
      take-append (length (footer crc32 w) - length crc) (footer_fields w) crc
        (omega (arith, length-append (footer_fields w) crc))

  obj_parts :
      Fits w
      → (pack_obj w.stats.obj_stats.offset w.stats.object_id_len < 2 ^ 64)
        × (pack_obj w.stats.obj_stats.offset w.stats.object_id_len / 32 ≡ w.stats.obj_stats.offset)
        × (pack_obj w.stats.obj_stats.offset w.stats.object_id_len % 32 ≡ w.stats.object_id_len)
  obj_parts f =
      let packed =
        pack_obj_lem w.stats.obj_stats.offset w.stats.object_id_len f.obj_small f.id_small in
      let small = f.obj_small in
      let id = f.id_small in rw packed (omega arith, omega arith, omega arith)

  pub parse_footer-footer :
      (size typ : ℕ) (rest : List ℕ)
      → Fits w
      → crc32 0 (footer_fields w) < 2 ^ 32
      → parse_footer crc32
          (writer_version w.opts)
          size
          (footer crc32 w)
          (writer_write_header w ++ (typ ∷ rest))
        ≡ ok (reader_of w size typ)
  unfolding parse_footer behind_version hash_bytes tail crc
  parse_footer-footer size typ rest f sound =
      let (obj_small, obj_off, obj_id) = obj_parts f in
      rw (
        magic-footer,
        length-header w,
        header-footer (typ ∷ rest),
        drop-footer,
        get_be24-put_be24 w.opts.block_size _ f.sized,
        drop-put_be24 w.opts.block_size _,
        read_be64-put_be64 w.min_update_index _ f.min_small,
        read_be64-put_be64 w.max_update_index _ f.max_small,
        read_hash_id_lem w _ f.hashed,
        read_be64-put_be64 w.stats.ref_stats.index_offset _ f.ref_small,
        read_be64-put_be64 (pack_obj w.stats.obj_stats.offset w.stats.object_id_len) _ obj_small,
        read_be64-put_be64 w.stats.obj_stats.index_offset _ f.obj_index_small,
        read_be64-put_be64 w.stats.log_stats.offset _ f.log_small,
        read_be64-put_be64 w.stats.log_stats.index_offset _ f.log_index_small,
        get_be32_alone (crc32 0 (footer_fields w)) sound,
        take-footer,
        ==_refl (crc32 0 (footer_fields w)),
        load-append (writer_write_header w) rest typ,
        obj_off,
        obj_id,
      )
