-- ===== src/Block/Image.antt =====
-- A finished block as bytes, and the reader that opens it.
use mathlib.Core.List.{append_assoc}
use reftable.Base.{
  ℕ, ◌+◌, ◌*◌, ◌≤◌, ◌≡◌, ◌≢◌, refl, sym, ap, ◌∙◌, List, [], ◌∷◌, ◌++◌, ok, length, length-append,
  false, ◌==◌, take, drop, take-append, get_elem?, get_or, arith, some,
}
use reftable.Basics.BigEndian.{put_be24, put_be16}
use reftable.Record.Any.{block_type_log}
use reftable.Block.Buffer.{splice, write_at-ok, length-splice, splice_middle}
use reftable.Block.Writer.{
  BlockWriter, ZResult, trailer, restart_bytes, block_writer_type, block_writer_finish,
}
use reftable.Block.Fill.{IsValid}

-- The block header and what follows it: `front` is the file header of a first block.
abbrev pub image : List ℕ → ℕ → ℕ → List ℕ → List ℕ
image front typ end tail = front ++ (typ ∷ (put_be24 end ++ tail))

pub length-restart_bytes : (rs : List ℕ) → length (restart_bytes rs) ≡ 3 * length rs
unfolding restart_bytes put_be24
length-restart_bytes [] = refl
length-restart_bytes (r ∷ rs) = omega (arith, length-restart_bytes rs)

pub length-trailer : (w : BlockWriter) → length (trailer w) ≡ 3 * length w.restarts + 2
length-trailer w = omega (
  arith,
  length-append (restart_bytes w.restarts) (put_be16 (length w.restarts)),
  length-restart_bytes w.restarts,
  two,
)
  where
    two : length (put_be16 (length w.restarts)) ≡ 2
    two = unfold put_be16 in refl

pub length-put_be24 : (n : ℕ) → length (put_be24 n) ≡ 3
unfolding put_be24
length-put_be24 n = refl

get_or-length : (xs ys : List ℕ) (y : ℕ) → get_or (xs ++ (y ∷ ys)) (length xs) 0 ≡ y
get_or-length [] ys y = refl
get_or-length (x ∷ xs) ys y = get_or-length xs ys y

pub at_length {ℓ} :
    {A : Type ℓ} (xs ys : List A) (y : A) → get_elem? (xs ++ (y ∷ ys)) (length xs) ≡ some y
at_length [] ys y = refl
at_length (x ∷ xs) ys y = at_length xs ys y

-- A writer with `front`, the type and `entries` in its block.
pub record Shaped (w : BlockWriter) (front : List ℕ) (typ : ℕ) (entries : List ℕ) : Type 0 where
  pub size : List ℕ
  pub rest : List ℕ
  pub shape : w.buf ≡ (front ++ (typ ∷ [])) ++ (size ++ (entries ++ rest))
  pub three : length size ≡ 3
  pub header : w.header_off ≡ length front
  pub next : w.next ≡ length front + 4 + length entries

module _ (w : BlockWriter) (front : List ℕ) (typ : ℕ) (entries : List ℕ) (v : IsValid w)
    (s : Shaped w front typ entries) where
  abbrev pub end : ℕ
  end = w.next + length (trailer w)

  abbrev head : List ℕ
  head = (front ++ (typ ∷ [])) ++ (s.size ++ entries)

  length-head : length head ≡ w.next
  length-head = omega (
    arith,
    length-append (front ++ (typ ∷ [])) (s.size ++ entries),
    length-append front (typ ∷ []),
    length-append s.size entries,
    s.three,
    s.next,
  )

  split : w.buf ≡ head ++ s.rest
  split = s.shape ∙ simp append_assoc

  abbrev more : List ℕ
  more = drop (w.next + length (trailer w)) w.buf

  abbrev stored_trailer : List ℕ
  stored_trailer = (front ++ (typ ∷ [])) ++ (s.size ++ (entries ++ (trailer w ++ more)))

  front_lem : take w.next w.buf ≡ head
  front_lem = ap (take w.next) split ∙ take-append w.next head s.rest length-head

  splice-trailer : splice w.buf w.next (trailer w) ≡ stored_trailer
  splice-trailer = ap (λ x. x ++ (trailer w ++ more)) front_lem ∙ simp append_assoc

  trailer_fits : end ≤ length w.buf
  trailer_fits = omega (arith, length-trailer w, v.room, v.fits)

  at_one : length (front ++ (typ ∷ [])) ≡ w.header_off + 1
  at_one = omega (arith, length-append front (typ ∷ []), s.header)

  size_fits : w.header_off + 1 + length (put_be24 end) ≤ length stored_trailer
  size_fits = omega (
    arith,
    ap length splice-trailer,
    length-splice w.buf w.next (trailer w) trailer_fits,
    length-put_be24 end,
    v.started,
    v.room,
    v.fits,
  )

  splice-size :
      splice stored_trailer (w.header_off + 1) (put_be24 end)
      ≡ image front typ end (entries ++ (trailer w ++ more))
  splice-size = rw (← at_one) (
      splice_middle (front ++ (typ ∷ [])) s.size (entries ++ (trailer w ++ more)) (put_be24 end)
        (s.three ∙ sym (length-put_be24 end))
      ∙ simp append_assoc)

  own_type : block_writer_type w ≡ typ
  unfolding block_writer_type
  own_type =
      rw (s.shape, s.header, append_assoc front (typ ∷ []) (s.size ++ (entries ++ s.rest)))
        (get_or-length front _ typ)

  -- Finishing a block that is not compressed gives its image; what is behind the image is not used.
  pub block_writer_finish-image :
      (compress2 : ℕ → List ℕ → ZResult) (first_cap : ℕ → ℕ)
      → typ ≢ block_type_log
      → block_writer_finish compress2 first_cap w
        ≡ ok (
          record w { buf = image front typ end (entries ++ (trailer w ++ more)); next = end },
          end,
        )
  unfolding block_writer_finish
  block_writer_finish-image compress2 first_cap plain =
      let other : (typ == block_type_log) ≡ false = ground arith in
      rw (
        write_at-ok w.buf w.next (trailer w) trailer_fits,
        splice-trailer,
        write_at-ok stored_trailer (w.header_off + 1) (put_be24 end) size_fits,
        splice-size,
        own_type,
        other,
      )
