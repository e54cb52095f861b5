-- ===== src/Basics/Names.antt =====
-- Lists of names: parse_names, names_equal and names_length of c/basics.c, has_name of c/stack.c. A
-- name is the list of its bytes before the NUL, and a NULL-terminated array is the list of its names.
use Prim.Native.Nat.Ordering.{eq}
use mathlib.Core.List.{append_assoc, append-nil, Mem, mem-cons}
use mathlib.Core.Logic.Or
use reftable.Base.{
  ℕ, zero, suc, ◌+◌, ◌≤◌, ◌<◌, ◌≡◌, ◌≢◌, refl, ap, ◌∙◌, Bool, true, false, List, [], ◌∷◌, ◌++◌,
  Option, none, some, Result, ok, fault, out_of_fuel, length, length-append, All, ◌==◌,
  if◌then◌else◌, arith, ◌↔◌, Option-cases, inl, inr,
}
use reftable.Basics.Bytes.{strcmp, strcmp_refl, strcmp-eq, Ordering-cases}

abbrev pub Name : Type 0
Name = List ℕ

abbrev pub newline : ℕ
newline = b'\n'

-- The bytes up to where strchr(p, '\n') stops, and what follows the newline, if it found one.
split_line : List ℕ → List ℕ × Option (List ℕ)
split_line [] = ([], none)
split_line (c ∷ cs) =
    let (line, rest) = split_line cs in
    if c == newline then ([], some cs) else if c == 0 then ([], none) else (c ∷ line, rest)

-- `if (p < next)`: an empty line is dropped. The names go to the end of the array.
abbrev add_line : List Name → Name → List Name
add_line names [] = names
add_line names (c ∷ line) = names ++ ((c ∷ line) ∷ [])

-- The `while`; each round takes a byte at least. With no newline before the NUL, `next` is `end`.
parse_loop : ℕ → List ℕ → List Name → Result (List Name)
parse_loop fuel [] names = ok names
parse_loop zero (c ∷ cs) names = fault out_of_fuel
parse_loop (suc fuel) (c ∷ cs) names =
    let (line, rest) = split_line (c ∷ cs) in
    elim rest [
      | none ↦ ok (names ++ (line ∷ []))
      | some r ↦ parse_loop fuel r (add_line names line)
    ]

unfoldable pub parse_names : List ℕ → Result (List Name)
unfolding parse_loop split_line
parse_names buf = parse_loop (length buf) buf []

unfoldable pub names_length : List Name → ℕ
names_length [] = 0
names_length (a ∷ names) = names_length names + 1

unfoldable pub names_equal : List Name → List Name → Bool
names_equal [] [] = true
names_equal (a ∷ as') (b ∷ bs) = elim (strcmp a b) [ eq ↦ names_equal as' bs | _ ↦ false ]
names_equal _ _ = false

unfoldable pub has_name : List Name → Name → Bool
has_name [] name = false
has_name (a ∷ names) name = elim (strcmp a name) [ eq ↦ true | _ ↦ has_name names name ]

-- The loops of reftable_addition_commit and stack_compact_range that append each name and a newline.
unfoldable pub format_names : List Name → List ℕ
format_names [] = []
format_names (a ∷ names) = a ++ (newline ∷ format_names names)

-- The bytes of a name that can stand in the list file.
abbrev pub IsPlain : List ℕ → Type 0
IsPlain = All (λ c. (c ≢ 0) × (c ≢ newline))

abbrev pub IsTableName : Name → Type 0
IsTableName name = (0 < length name) × IsPlain name

split_line-append :
    (line rest : List ℕ) → IsPlain line → split_line (line ++ (newline ∷ rest)) ≡ (line, some rest)
unfolding split_line
split_line-append [] rest h = refl
split_line-append (c ∷ line) rest h = ground (arith, split_line-append line rest h.1)

parse_loop_step :
    (fuel c : ℕ) (cs line rest : List ℕ) (seen : List Name)
    → split_line (c ∷ cs) ≡ (line, some rest)
    → parse_loop (suc fuel) (c ∷ cs) seen ≡ parse_loop fuel rest (add_line seen line)
unfolding parse_loop
parse_loop_step fuel c cs line rest seen e = ground arith

parse_loop-format :
    (names : List Name) (fuel : ℕ) (seen : List Name)
    → All IsTableName names
    → length (format_names names) ≤ fuel
    → parse_loop fuel (format_names names) seen ≡ ok (seen ++ names)
unfolding format_names parse_loop
parse_loop-format [] fuel seen h f = rw append-nil (unfold parse_loop in refl)
parse_loop-format ([] ∷ names) fuel seen h f = absurd (omega arith)
parse_loop-format ((c ∷ a) ∷ names) zero seen h f = absurd (omega arith)
parse_loop-format ((c ∷ a) ∷ names) (suc fuel) seen h f =
    parse_loop_step fuel c _ _ _ seen (split_line-append (c ∷ a) (format_names names) h.0.1)
    ∙ (parse_loop-format names fuel (seen ++ ((c ∷ a) ∷ [])) h.1
          (omega (arith, length-append a (newline ∷ format_names names)))
        ∙ ap ok (append_assoc seen ((c ∷ a) ∷ []) names))

-- parse_names reads back the list that a commit or a compaction writes, for names that are not empty and
-- hold neither a NUL nor a newline.
pub parse_names-format_names :
    (names : List Name) → All IsTableName names → parse_names (format_names names) ≡ ok names
unfolding parse_names
parse_names-format_names names h = parse_loop-format names _ [] h (omega arith)

split_line-shorter :
    (bytes rest : List ℕ) → (split_line bytes).1 ≡ some rest → length rest < length bytes
unfolding split_line
split_line-shorter [] rest e = ground arith
split_line-shorter (c ∷ cs) rest e = ground (arith, split_line-shorter cs rest)

parse_loop-total :
    (fuel : ℕ) (bytes : List ℕ) (seen : List Name)
    → length bytes ≤ fuel
    → (names : List Name) × (parse_loop fuel bytes seen ≡ ok names)
unfolding parse_loop
parse_loop-total zero [] seen h = (seen, refl)
parse_loop-total (suc fuel) [] seen h = (seen, refl)
parse_loop-total zero (c ∷ cs) seen h = absurd (omega arith)
parse_loop-total (suc fuel) (c ∷ cs) seen h = elim (Option-cases (split_line (c ∷ cs)).1) [
  | inl e ↦ (seen ++ ((split_line (c ∷ cs)).0 ∷ []), rw (parse_loop, e))
  | inr (rest, e) ↦
      rw (parse_loop, e)
        (parse_loop-total fuel rest _ (omega (arith, split_line-shorter (c ∷ cs) rest e)))
]

-- Whatever the file holds, parse_names ends with a list of names.
pub parse_names-total : (buf : List ℕ) → (names : List Name) × (parse_names buf ≡ ok names)
unfolding parse_names
parse_names-total buf = parse_loop-total (length buf) buf [] (omega arith)

names_equal-eq : (as' bs : List Name) → names_equal as' bs ≡ true → as' ≡ bs
unfolding names_equal
names_equal-eq [] [] e = refl
names_equal-eq [] (b ∷ bs) e = cc
names_equal-eq (a ∷ as') [] e = cc
names_equal-eq (a ∷ as') (b ∷ bs) e = ground (arith, strcmp-eq a b, names_equal-eq as' bs)

names_equal_refl : (bs : List Name) → names_equal bs bs ≡ true
unfolding names_equal
names_equal_refl [] = refl
names_equal_refl (b ∷ bs) = ground (arith, strcmp_refl b, names_equal_refl bs)

-- names_equal answers true exactly on equal lists of names.
pub names_equal_iff : (as' bs : List Name) → (names_equal as' bs ≡ true) ↔ (as' ≡ bs)
names_equal_iff as' bs = (names_equal-eq as' bs, λ e. rw e (names_equal_refl bs))

pub has_name-true : (names : List Name) (name : Name) → has_name names name ≡ true → Mem name names
unfolding has_name
has_name-true [] name e = cc
has_name-true (a ∷ names) name e = elim (Ordering-cases (strcmp a name)) [
  | inr (inl same) ↦ rw (strcmp-eq a name same) (mem-cons.1 (Or.inl refl))
  | inl less ↦ mem-cons.1 (Or.inr (has_name-true names name (rw (has_name, less) at e)))
  | inr (inr more) ↦ mem-cons.1 (Or.inr (has_name-true names name (rw (has_name, more) at e)))
]
