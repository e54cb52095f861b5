-- ===== src/Refname/Validate.antt =====
-- validate_refname of c/refname.c. A name is the list of its bytes before the NUL.
use reftable.Base.{
  ℕ, zero, suc, ◌≤◌, ◌≡◌, ◌≢◌, refl, ap, ◌∙◌, List, [], ◌∷◌, ◌++◌, Bool, true, false, ◌==◌,
  if◌then◌else◌, ◌&&◌, Result, ok, err, fault, refname_error, out_of_fuel, Option, some, none,
  length, length-append, All, arith, Bool-cases, inl, inr, ◌↔◌,
}

abbrev pub slash : ℕ
slash = b'/'

abbrev pub dot : ℕ
dot = b'.'

-- The bytes up to where strchr(name, '/') stops, and what follows the slash, if it found one.
unfoldable pub split_slash : List ℕ → List ℕ × Option (List ℕ)
split_slash [] = ([], none)
split_slash (c ∷ cs) =
    let (part, rest) = split_slash cs in if c == slash then ([], some cs) else (c ∷ part, rest)

-- The test of a component that ends at a slash.
is_special : List ℕ → Bool
is_special [] = true
is_special (a ∷ []) = a == dot
is_special (a ∷ b ∷ []) = a == dot && b == dot
is_special (a ∷ b ∷ c ∷ cs) = false

-- The `while (1)`; each round takes a byte at least.
validate_loop : ℕ → List ℕ → Result (Unit {0})
unfolding split_slash is_special
validate_loop fuel [] = err refname_error
validate_loop zero (c ∷ cs) = fault out_of_fuel
validate_loop (suc fuel) (c ∷ cs) =
    let (part, rest) = split_slash (c ∷ cs) in
    elim rest [
      | none ↦ ok tt
      | some r ↦
          let next = validate_loop fuel r in if is_special part then err refname_error else next
    ]

unfoldable pub validate_refname : List ℕ → Result (Unit {0})
unfolding validate_loop
validate_refname name = validate_loop (length name) name

-- The name that components make when slashes join them.
unfoldable pub join : List (List ℕ) → List ℕ → List ℕ
join [] last = last
join (part ∷ parts) last = part ++ (slash ∷ join parts last)

abbrev pub IsComponent : List ℕ → Type 0
IsComponent = All (λ c. c ≢ slash)

-- A component that may stand before a slash: not empty, and neither `.` nor `..`.
abbrev pub IsNormal : List ℕ → Type 0
IsNormal part = (part ≢ []) × (part ≢ (dot ∷ [])) × (part ≢ (dot ∷ dot ∷ []))

split_slash-append :
    (part rest : List ℕ)
    → IsComponent part
    → split_slash (part ++ (slash ∷ rest)) ≡ (part, some rest)
unfolding split_slash
split_slash-append [] rest h = refl
split_slash-append (c ∷ part) rest h = ground (arith, split_slash-append part rest h.1)

split_slash-last : (last : List ℕ) → IsComponent last → split_slash last ≡ (last, none)
unfolding split_slash
split_slash-last [] h = refl
split_slash-last (c ∷ last) h = ground (arith, split_slash-last last h.1)

validate_loop-part :
    (fuel : ℕ) (name part rest : List ℕ)
    → split_slash name ≡ (part, some rest)
    → validate_loop (suc fuel) name
      ≡ (if is_special part then err refname_error else validate_loop fuel rest)
unfolding validate_loop
validate_loop-part fuel [] part rest e = absurd (ground (arith, e))
validate_loop-part fuel (c ∷ cs) part rest e =
    let part_lem : (split_slash (c ∷ cs)).0 ≡ part = ap (λ x. x.0) e in
    rw (validate_loop, e, part_lem)

accepts : List (List ℕ) → List ℕ → Bool
accepts [] [] = false
accepts [] (c ∷ last) = true
accepts (part ∷ parts) last = if is_special part then false else accepts parts last

validate_loop-join :
    (fuel : ℕ) (parts : List (List ℕ)) (last : List ℕ)
    → All IsComponent parts
    → IsComponent last
    → length (join parts last) ≤ fuel
    → validate_loop fuel (join parts last)
      ≡ (if accepts parts last then ok tt else err refname_error)
unfolding join accepts validate_loop
validate_loop-join fuel [] [] hp hl h = refl
validate_loop-join zero [] (c ∷ last) hp hl h = absurd (omega arith)
validate_loop-join (suc fuel) [] (c ∷ last) hp hl h =
    rw (validate_loop, split_slash-last (c ∷ last) hl)
validate_loop-join zero (part ∷ parts) last hp hl h =
    absurd (omega (arith, length-append part (slash ∷ join parts last)))
validate_loop-join (suc fuel) (part ∷ parts) last (hc, hp) hl h =
    validate_loop-part fuel (part ++ (slash ∷ join parts last)) part (join parts last)
      (split_slash-append part (join parts last) hc)
    ∙ elim (Bool-cases (is_special part)) [
      | inl e ↦ rw e
      | inr e ↦ rw e (
          validate_loop-join fuel parts last hp hl
            (omega (arith, length-append part (slash ∷ join parts last))))
    ]

is_special-IsNormal : (part : List ℕ) → (is_special part ≡ false) ↔ IsNormal part
unfolding is_special
is_special-IsNormal [] = (λ h. cc, λ (e, _, _). absurd (e refl))
is_special-IsNormal (a ∷ []) =
    (λ h. (λ e. cc, λ e. ground (arith, e), λ e. cc), λ (_, one, _). ground (arith, one))
is_special-IsNormal (a ∷ b ∷ []) =
    (λ h. (λ e. cc, λ e. cc, λ e. ground (arith, e)), λ (_, _, two). ground (arith, two))
is_special-IsNormal (a ∷ b ∷ c ∷ cs) = (λ h. (λ e. cc, λ e. cc, λ e. cc), λ h. refl)

accepts-IsNormal :
    (parts : List (List ℕ)) (last : List ℕ)
    → (accepts parts last ≡ true) ↔ (All IsNormal parts × (last ≢ []))
unfolding accepts
accepts-IsNormal [] [] = (λ h. cc, λ (_, e). absurd (e refl))
accepts-IsNormal [] (c ∷ last) = (λ h. (tt, λ e. cc), λ h. refl)
accepts-IsNormal (part ∷ parts) last =
    let (there, back) = accepts-IsNormal parts last in
    let (there', back') = is_special-IsNormal part in
    elim (Bool-cases (is_special part)) [
      | inl e ↦ rw e (λ h. cc, λ ((n, _), _). let f = back' n in cc)
      | inr e ↦
          rw e (λ h. let (ns, l) = there h in ((there' e, ns), l), λ ((_, ns), l). back (ns, l))
    ]

-- A name of components joined by slashes is judged, and it is valid exactly if the last component is not
-- empty and each one before it is neither empty nor `.` nor `..`; the last one may be `.` or `..`.
pub validate_refname-join :
    (parts : List (List ℕ)) (last : List ℕ)
    → All IsComponent parts
    → IsComponent last
    → (b : Bool) × (validate_refname (join parts last) ≡ (if b then ok tt else err refname_error))
      × ((b ≡ true) ↔ (All IsNormal parts × (last ≢ [])))
unfolding validate_refname
validate_refname-join parts last hp hl = (
  accepts parts last,
  validate_loop-join (length (join parts last)) parts last hp hl (omega arith),
  accepts-IsNormal parts last,
)
