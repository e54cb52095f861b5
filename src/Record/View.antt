-- ===== src/Record/View.antt =====
-- struct string_view of c/record.h and string_view_consume of c/record.c. `buf` is the memory from the
-- pointer on, which may go on past the `len` bytes of the view; a read past `buf` is a fault. An
-- encoder is given the `len` of its destination as `room`, and returns the bytes that it writes there.
use mathlib.Core.List.{append-nil}
use reftable.Base.{
  ℕ, ◌+◌, ◌-◌, ◌%◌, ◌^◌, ◌≤◌, ◌<◌, ◌≡◌, refl, List, [], ◌∷◌, ◌++◌, Result, ok, fault, out_of_bounds,
  length, length-append, take, drop, drop-append, take-append, All, ltb, ◌==◌, if◌then◌else◌, ◌≢◌,
  arith,
}

pub record View : Type 0 where
  pub buf : List ℕ
  pub len : ℕ

abbrev pub u64 : ℕ
u64 = 2 ^ 64

abbrev pub view : List ℕ → ℕ → View
view buf len = record { buf = buf; len = len }

-- `s->buf += n; s->len -= n`, where `len` is a size_t.
unfoldable pub consume : View → ℕ → View
consume s n = view (drop n s.buf) ((s.len + u64 - n) % u64)

-- `start.len - in.len`
unfoldable pub consumed : View → View → ℕ
consumed start in' = (start.len + u64 - in'.len) % u64

-- memcpy of n bytes from memory.
unfoldable pub copy : ℕ → List ℕ → Result (List ℕ)
copy n src = if ltb (length src) n then fault out_of_bounds else ok (take n src)

-- The C string that starts at `bytes`, whose end is followed by a NUL.
unfoldable pub c_string : List ℕ → List ℕ
c_string [] = []
c_string (c ∷ cs) = if c == 0 then [] else (c ∷ c_string cs)

abbrev pub IsText : List ℕ → Type 0
IsText = All (λ c. c ≢ 0)

pub c_string-IsText : (s : List ℕ) → IsText s → c_string s ≡ s
unfolding c_string
c_string-IsText [] h = refl
c_string-IsText (c ∷ cs) h = ground (arith, c_string-IsText cs h.1)

pub consume-append :
    (bs rest : List ℕ) (n len : ℕ)
    → length bs ≡ n
    → n ≤ len
    → len < u64
    → consume (view (bs ++ rest) len) n ≡ view rest (len - n)
unfolding consume
consume-append bs rest n len e h small =
    let shorter : (len + u64 - n) % u64 ≡ len - n = omega arith in
    λ i. view (drop-append n bs rest e i) (shorter i)

pub consumed_lem :
    (a b : List ℕ) (n len rest : ℕ)
    → rest + n ≡ len
    → len < u64
    → consumed (view a len) (view b rest) ≡ n
unfolding consumed
consumed_lem a b n len rest e small = omega arith

pub copy-append : (n : ℕ) (bs rest : List ℕ) → length bs ≡ n → copy n (bs ++ rest) ≡ ok bs
unfolding copy
copy-append n bs rest e = rw (take-append n bs rest e) (ground (arith, length-append bs rest))

pub copy_self : (n : ℕ) (bs : List ℕ) → length bs ≡ n → copy n bs ≡ ok bs
copy_self n bs e = rw append-nil at (copy-append n bs [] e)

pub copy-take : (n : ℕ) (src : List ℕ) → n ≤ length src → copy n src ≡ ok (take n src)
unfolding copy
copy-take n src h = ground arith
