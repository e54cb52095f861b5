-- ===== src/Refname/Examples.antt =====
-- The theorems on refnames at refs/./a, and at a transaction that adds one ref and deletes another.
use reftable.Base.{
  ℕ, ◌≡◌, ◌≢◌, List, [], ◌∷◌, Bool, true, ok, err, refname_error, if◌then◌else◌, All, ◌↔◌, arith,
  Result, false,
}
use reftable.Basics.Names.{Name}
use reftable.Refname.Names.{IsSorted, Has, modification_has_ref, modification_has_ref_lem}
use reftable.Refname.Validate.{IsNormal, join, validate_refname, validate_refname-join}

abbrev parts : List (List ℕ)
parts = (b'r' ∷ b'e' ∷ b'f' ∷ b's' ∷ []) ∷ (b'.' ∷ []) ∷ []

abbrev last : List ℕ
last = b'a' ∷ []

validate_refname-join_example :
    (b : Bool) × (validate_refname (join parts last) ≡ (if b then ok tt else err refname_error))
    × ((b ≡ true) ↔ (All IsNormal parts × (last ≢ [])))
validate_refname-join_example = validate_refname-join parts last (ground arith) (ground arith)

abbrev added : List Name
added = last ∷ []

abbrev deleted : List Name
deleted = (b'b' ∷ []) ∷ []

abbrev read_ref : Name → Result Bool
read_ref name = ok true

added-IsSorted : IsSorted added
added-IsSorted i j h l = absurd (omega arith)

deleted-IsSorted : IsSorted deleted
deleted-IsSorted i j h l = absurd (omega arith)

modification_has_ref_lem_example :
    (a : Bool) × (d : Bool) × (modification_has_ref read_ref added deleted last
      ≡ (if a then ok true else if d then ok false else read_ref last))
    × ((a ≡ true) ↔ Has added last)
    × ((d ≡ true) ↔ Has deleted last)
modification_has_ref_lem_example =
    modification_has_ref_lem read_ref added deleted last added-IsSorted deleted-IsSorted
