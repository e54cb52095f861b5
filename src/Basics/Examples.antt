-- ===== src/Basics/Examples.antt =====
-- The theorems on c/basics.c at concrete values.
use mathlib.Core.List.{Mem}
use reftable.Base.{ℕ, ◌≡◌, refl, List, [], ◌∷◌, ok, leb, arith}
use reftable.Basics.BinSearch.{pure, binsearch, IsFirst, binsearch-IsFirst}
use reftable.Basics.Bytes.{strcmp}
use reftable.Basics.Names.{Name, has_name, has_name-true}

abbrev tables : List Name
tables = (b'a' ∷ b'.' ∷ b'r' ∷ []) ∷ (b'b' ∷ []) ∷ []

binsearch-IsFirst_example :
    (r : ℕ) × (binsearch (pure (leb 3)) 7 tt ≡ ok (r, tt)) × IsFirst (leb 3) 7 r
binsearch-IsFirst_example = binsearch-IsFirst (leb 3) 7 (λ i j le lt e. ground arith) (omega arith)

has_name-true_example : Mem (b'b' ∷ []) tables
unfolding has_name strcmp
has_name-true_example = has_name-true tables (b'b' ∷ []) refl
