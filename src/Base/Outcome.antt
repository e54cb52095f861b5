-- ===== src/Base/Outcome.antt =====
-- How a call ends: with a value, with one of the negative codes of include/reftable-error.h, or with
-- a fault that has no value in C (a read or write out of bounds or through NULL, abort(), or the model's fuel).
use Prim.Native.Nat.{ℕ}
use mathlib.Core.Path.{◌≡◌, refl, ap, subst}
use mathlib.Core.Bool.{Bool, true, false}
use mathlib.Core.Option.{none, some}
use mathlib.Core.List.{List}
use reftable.Base.Lists.{get_elem?}

-- `general` is the bare -1.
pub data Error : Type 0 where
  general io_error format_error not_exist_error lock_error api_error : Error
  zlib_error empty_table_error name_conflict refname_error : Error

pub data Fault : Type 0 where
  out_of_bounds aborted out_of_fuel : Fault

pub data Result {ℓ} (A : Type ℓ) : Type ℓ where
  ok : A → Result A
  err : Error → Result A
  fault : Fault → Result A

module _ {ℓ κ} {A : Type ℓ} {B : Type κ} where
  infixl 5 ◌>>=◌ ◌>>◌
  -- The next step of a function that returns at once on a negative code.
  abbrev pub ◌>>=◌ : Result A → (A → Result B) → Result B
  fault cause >>= next = fault cause
  err code >>= next = err code
  ok value >>= next = next value

  abbrev pub ◌>>◌ : Result A → Result B → Result B
  first >> second = first >>= (λ value. second)

  -- Both steps of a call that succeeds have succeeded.
  pub >>=-eq-ok :
      (first : Result A) (next : A → Result B) {b : B}
      → (first >>= next) ≡ ok b
      → (value : A) × (first ≡ ok value) × (next value ≡ ok b)
  >>=-eq-ok (fault cause) next e = cc
  >>=-eq-ok (err code) next e = cc
  >>=-eq-ok (ok value) next e = (value, refl, e)

-- An array read: past the end of the memory it is a fault.
abbrev pub load {ℓ} : {A : Type ℓ} → List A → ℕ → Result A
load xs i = elim (get_elem? xs i) [ none ↦ fault out_of_bounds | some x ↦ ok x ]

-- `if (!b) return e;`
abbrev pub guard : Bool → Error → Result (Unit {0})
guard = λ b e. elim b [ true ↦ ok tt | false ↦ err e ]

pub ok-injective {ℓ} : {A : Type ℓ} {a b : A} → ok a ≡ ok b → a ≡ b
ok-injective {a} e = ap (elim [ ok x ↦ x | err x ↦ a | fault x ↦ a ]) e

-- What holds of the value, if the call has returned one.
pub record Ensures {ℓ} {A : Type ℓ} (P : A → Type 0) (r : Result A) : Type ℓ where
  pub value : (a : A) → r ≡ ok a → P a

pub Ensures->>= {ℓ κ} :
    {A : Type ℓ} {B : Type κ} {P : A → Type 0} {Q : B → Type 0} {first : Result A}
    {next : A → Result B}
    → Ensures P first
    → ((a : A) → P a → Ensures Q (next a))
    → Ensures Q (first >>= next)
Ensures->>= {first = first} {next = next} h k = record {
  value = λ b e. let (a, run, rest) = >>=-eq-ok first next e in (k a (h.value a run)).value b rest;
}

pub Ensures-ok {ℓ} : {A : Type ℓ} {P : A → Type 0} {a : A} → P a → Ensures P (ok a)
Ensures-ok {P = P} h = record { value = λ b e. subst P (ok-injective e) h }

pub Ensures-err {ℓ} : {A : Type ℓ} {P : A → Type 0} {code : Error} → Ensures P (err code)
Ensures-err = record { value = λ b e. cc }

pub Ensures-fault {ℓ} : {A : Type ℓ} {P : A → Type 0} {cause : Fault} → Ensures P (fault cause)
Ensures-fault = record { value = λ b e. cc }

pub Ensures_any {ℓ} : {A : Type ℓ} (r : Result A) → Ensures (λ (a : A). Unit {0}) r
Ensures_any r = record { value = λ a e. tt }
