-- ===== src/Stack/Names.antt =====
-- The names of tables that c/stack.c makes: they can stand in the list of tables, and are names of tables.
use reftable.Base.{
  ℕ, zero, suc, ◌/◌, ◌%◌, ◌≡◌, ◌≢◌, refl, List, [], ◌∷◌, ◌++◌, true, ltb, some, length-append,
  replicate, Bool-cases, inl, inr, arith,
}
use reftable.Basics.Bytes.{strcmp_refl}
use reftable.Basics.Names.{Name, IsPlain, IsTableName}
use reftable.Stack.Text.{
  dot_ref, hex_digit, hex_digits, format_hex, format_name, last_dot, is_table_name,
}

IsPlain-append : (a b : List ℕ) → IsPlain a → IsPlain b → IsPlain (a ++ b)
IsPlain-append [] b h k = k
IsPlain-append (x ∷ a) b (p, h) k = (p, IsPlain-append a b h k)

hex_digit-plain : (n : ℕ) → (hex_digit n ≢ 0) × (hex_digit n ≢ b'\n')
unfolding hex_digit
hex_digit-plain n = ground arith

hex_digits-IsPlain : (fuel n : ℕ) (rest : List ℕ) → IsPlain rest → IsPlain (hex_digits fuel n rest)
unfolding hex_digits
hex_digits-IsPlain zero n rest h = h
hex_digits-IsPlain (suc fuel) n rest h = elim (Bool-cases (ltb n 16)) [
  | inl last ↦ rw last (hex_digit-plain n, h)
  | inr more ↦
      rw more
        (hex_digits-IsPlain fuel (n / 16) (hex_digit (n % 16) ∷ rest) (hex_digit-plain (n % 16), h))
]

zeros-IsPlain : (n : ℕ) → IsPlain (replicate n b'0')
zeros-IsPlain zero = tt
zeros-IsPlain (suc n) = (ground arith, zeros-IsPlain n)

format_hex-IsPlain : (width n : ℕ) → IsPlain (format_hex width n)
unfolding format_hex
format_hex-IsPlain width n = IsPlain-append _ _ (zeros-IsPlain _) (hex_digits-IsPlain 16 n [] tt)

format_name-IsPlain : (min max rnd : ℕ) → IsPlain (format_name min max rnd)
unfolding format_name
format_name-IsPlain min max rnd = (
  ground arith,
  (
    ground arith,
    IsPlain-append (format_hex 12 min) _ (format_hex-IsPlain 12 min) (
      ground arith,
      (
        ground arith,
        (
          ground arith,
          IsPlain-append (format_hex 12 max) _ (format_hex-IsPlain 12 max)
              (ground arith, format_hex-IsPlain 8 rnd),
        ),
      ),
    ),
  ),
)

last_dot-append : (a : Name) → last_dot (a ++ dot_ref) ≡ some dot_ref
unfolding last_dot
last_dot-append [] = refl
last_dot-append (c ∷ a) = rw (last_dot-append a) refl

-- Whatever the update indexes and the random number are, the name of a new table can stand in the list of tables,
-- and reftable_stack_clean takes it for the name of a table.
pub format_name-IsTableName :
    (min max rnd : ℕ)
    → IsTableName (format_name min max rnd ++ dot_ref)
      × (is_table_name (format_name min max rnd ++ dot_ref) ≡ true)
unfolding is_table_name
format_name-IsTableName min max rnd = (
  (
    omega (arith, length-append (format_name min max rnd) dot_ref),
    IsPlain-append (format_name min max rnd) dot_ref (format_name-IsPlain min max rnd)
        (ground arith),
  ),
  rw (is_table_name, last_dot-append (format_name min max rnd), strcmp_refl dot_ref) refl,
)
