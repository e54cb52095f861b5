-- ===== src/Basics/Bytes.antt =====
-- Byte strings: strbuf_cmp of c/strbuf.c, common_prefix_size of c/basics.c, and the C library's
-- memcmp and strcmp. Only the sign of a comparison is used, so it is an `Ordering`.
use Prim.Native.Nat.{compare, Ordering}
use Prim.Native.Nat.Ordering.{lt, eq, gt}
use reftable.Base.{
  ℕ, zero, suc, ◌≤◌, ◌≡◌, refl, List, [], ◌∷◌, length, take, ltb, ◌==◌, if◌then◌else◌, arith, Bool,
  true, false, ◌⊎◌, inl, inr,
}

-- `0 == cmp(…)`
abbrev pub is_eq : Ordering → Bool
is_eq eq = true
is_eq _ = false

pub is_eq-eq : (o : Ordering) → is_eq o ≡ true → o ≡ eq
is_eq-eq eq h = refl
is_eq-eq lt h = cc
is_eq-eq gt h = cc

-- A name in memory, without its final NUL; strcmp compares bytes, and a prefix comes first.
unfoldable pub strcmp : List ℕ → List ℕ → Ordering
strcmp [] [] = eq
strcmp [] (y ∷ b) = lt
strcmp (x ∷ a) [] = gt
strcmp (x ∷ a) (y ∷ b) = elim (compare x y) [ lt ↦ lt | eq ↦ strcmp a b | gt ↦ gt ]

-- The first n bytes; the callers pass n within both arrays.
unfoldable pub memcmp : List ℕ → List ℕ → ℕ → Ordering
memcmp (x ∷ a) (y ∷ b) (suc n) = elim (compare x y) [ lt ↦ lt | eq ↦ memcmp a b n | gt ↦ gt ]
memcmp _ _ _ = eq

unfoldable pub strbuf_cmp : List ℕ → List ℕ → Ordering
unfolding memcmp
strbuf_cmp a b =
    let shorter = if ltb (length a) (length b) then length a else length b in
    elim (memcmp a b shorter) [
      | lt ↦ lt
      | gt ↦ gt
      | eq ↦ if ltb (length a) (length b) then lt else if ltb (length b) (length a) then gt else eq
    ]

unfoldable pub common_prefix_size : List ℕ → List ℕ → ℕ
common_prefix_size (x ∷ a) (y ∷ b) = if x == y then suc (common_prefix_size a b) else 0
common_prefix_size _ _ = 0

-- strbuf_cmp is the lexicographic order in which strcmp compares.
pub strbuf_cmp-strcmp : (a b : List ℕ) → strbuf_cmp a b ≡ strcmp a b
unfolding strbuf_cmp strcmp
strbuf_cmp-strcmp [] [] = refl
strbuf_cmp-strcmp [] (y ∷ b) = ground arith
strbuf_cmp-strcmp (x ∷ a) [] = ground arith
strbuf_cmp-strcmp (x ∷ a) (y ∷ b) = ground (arith, strbuf_cmp-strcmp a b)

pub memcmp_refl : (a : List ℕ) (n : ℕ) → memcmp a a n ≡ eq
unfolding memcmp
memcmp_refl [] n = refl
memcmp_refl (x ∷ a) zero = refl
memcmp_refl (x ∷ a) (suc n) = ground (arith, memcmp_refl a n)

pub memcmp-take : (a : List ℕ) (n : ℕ) → memcmp a (take n a) n ≡ eq
unfolding memcmp
memcmp-take [] zero = refl
memcmp-take [] (suc n) = refl
memcmp-take (x ∷ a) zero = refl
memcmp-take (x ∷ a) (suc n) = ground (arith, memcmp-take a n)

pub strcmp_refl : (a : List ℕ) → strcmp a a ≡ eq
unfolding strcmp
strcmp_refl [] = refl
strcmp_refl (x ∷ a) = ground (arith, strcmp_refl a)

pub strcmp-eq : (a b : List ℕ) → strcmp a b ≡ eq → a ≡ b
unfolding strcmp
strcmp-eq [] [] h = refl
strcmp-eq [] (y ∷ b) h = ground arith
strcmp-eq (x ∷ a) [] h = ground arith
strcmp-eq (x ∷ a) (y ∷ b) h = ground (arith, strcmp-eq a b)

pub strcmp_swap_lt : (a b : List ℕ) → strcmp a b ≡ lt → strcmp b a ≡ gt
unfolding strcmp
strcmp_swap_lt [] [] h = ground arith
strcmp_swap_lt [] (y ∷ b) h = refl
strcmp_swap_lt (x ∷ a) [] h = ground arith
strcmp_swap_lt (x ∷ a) (y ∷ b) h = ground (arith, strcmp_swap_lt a b)

pub strcmp_swap_gt : (a b : List ℕ) → strcmp a b ≡ gt → strcmp b a ≡ lt
unfolding strcmp
strcmp_swap_gt [] [] h = ground arith
strcmp_swap_gt [] (y ∷ b) h = ground arith
strcmp_swap_gt (x ∷ a) [] h = refl
strcmp_swap_gt (x ∷ a) (y ∷ b) h = ground (arith, strcmp_swap_gt a b)

pub strcmp_trans : (a b c : List ℕ) → strcmp a b ≡ lt → strcmp b c ≡ lt → strcmp a c ≡ lt
unfolding strcmp
strcmp_trans [] b [] h k = ground arith
strcmp_trans [] b (z ∷ c) h k = refl
strcmp_trans (x ∷ a) [] c h k = ground arith
strcmp_trans (x ∷ a) (y ∷ b) [] h k = ground arith
strcmp_trans (x ∷ a) (y ∷ b) (z ∷ c) h k = ground (arith, strcmp_trans a b c)

pub Ordering-cases : (o : Ordering) → (o ≡ lt) ⊎ (o ≡ eq) ⊎ (o ≡ gt)
Ordering-cases lt = inl refl
Ordering-cases eq = inr (inl refl)
Ordering-cases gt = inr (inr refl)

-- The shared prefix lies inside both strings, and is the same in both.
pub common_prefix_size_bounds :
    (a b : List ℕ) → (common_prefix_size a b ≤ length a) × (common_prefix_size a b ≤ length b)
unfolding common_prefix_size
common_prefix_size_bounds [] b = omega arith
common_prefix_size_bounds (x ∷ a) [] = omega arith
common_prefix_size_bounds (x ∷ a) (y ∷ b) = ground (arith, common_prefix_size_bounds a b)

pub take-common_prefix_size :
    (a b : List ℕ) → take (common_prefix_size a b) a ≡ take (common_prefix_size a b) b
unfolding common_prefix_size
take-common_prefix_size [] b = refl
take-common_prefix_size (x ∷ a) [] = refl
take-common_prefix_size (x ∷ a) (y ∷ b) = ground (arith, take-common_prefix_size a b)

-- A prefix that two strings share is no longer than common_prefix_size.
pub common_prefix_size_longest :
    (a b : List ℕ) (n : ℕ)
    → n ≤ length a
    → n ≤ length b
    → take n a ≡ take n b
    → n ≤ common_prefix_size a b
unfolding common_prefix_size
common_prefix_size_longest a b zero ha hb e = omega arith
common_prefix_size_longest [] b (suc n) ha hb e = absurd (omega arith)
common_prefix_size_longest (x ∷ a) [] (suc n) ha hb e = absurd (omega arith)
common_prefix_size_longest (x ∷ a) (y ∷ b) (suc n) ha hb e =
    ground (arith, common_prefix_size_longest a b n)
