-- ===== src/Stack/Text.antt =====
-- The names of files in c/stack.c: format_name and is_table_name, and the suffixes that the functions append.
use reftable.Base.{
  ℕ, zero, suc, ◌+◌, ◌-◌, ◌/◌, ◌%◌, List, [], ◌∷◌, ◌++◌, Bool, false, ltb, ◌==◌, if◌then◌else◌,
  Option, none, some, length, replicate,
}
use reftable.Basics.Bytes.{strcmp, is_eq}
use reftable.Basics.Names.{Name}

-- ".ref", ".lock" and ".temp.XXXXXX"
abbrev pub dot_ref : List ℕ
dot_ref = b'.' ∷ b'r' ∷ b'e' ∷ b'f' ∷ []

abbrev pub dot_lock : List ℕ
dot_lock = b'.' ∷ b'l' ∷ b'o' ∷ b'c' ∷ b'k' ∷ []

abbrev pub dot_temp : List ℕ
dot_temp = b'.' ∷ b't' ∷ b'e' ∷ b'm' ∷ b'p' ∷ b'.' ∷ b'X' ∷ b'X' ∷ b'X' ∷ b'X' ∷ b'X' ∷ b'X' ∷ []

unfoldable pub hex_digit : ℕ → ℕ
hex_digit n = if ltb n 10 then b'0' + n else b'a' + (n - 10)

-- The digits of a number below 16 ^ fuel, the last one last, in front of `rest`.
unfoldable pub hex_digits : ℕ → ℕ → List ℕ → List ℕ
unfolding hex_digit
hex_digits zero n rest = rest
hex_digits (suc fuel) n rest =
    let more = hex_digits fuel (n / 16) (hex_digit (n % 16) ∷ rest) in
    if ltb n 16 then hex_digit n ∷ rest else more

-- "%0*x": the digits with zeros in front, up to the width. The numbers have 64 bits, or 16 digits.
unfoldable pub format_hex : ℕ → ℕ → List ℕ
unfolding hex_digits
format_hex width n =
    let digits = hex_digits 16 n [] in replicate (width - length digits) b'0' ++ digits

-- `rnd` is what rand() answers.
unfoldable pub format_name : ℕ → ℕ → ℕ → Name
unfolding format_hex
format_name min max rnd =
    b'0'
    ∷ b'x'
    ∷ (format_hex 12 min ++ (b'-' ∷ b'0' ∷ b'x' ∷ (format_hex 12 max ++ (b'-' ∷ format_hex 8 rnd))))

-- What strrchr(s, '.') points at.
unfoldable pub last_dot : Name → Option Name
last_dot [] = none
last_dot (c ∷ s) =
    let rest = last_dot s in
    elim rest [ some dot ↦ some dot | none ↦ if c == b'.' then some (c ∷ s) else none ]

unfoldable pub is_table_name : Name → Bool
unfolding last_dot
is_table_name s = elim (last_dot s) [ none ↦ false | some dot ↦ is_eq (strcmp dot dot_ref) ]
