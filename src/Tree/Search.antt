-- ===== src/Tree/Search.antt =====
-- struct tree_node of c/tree.h, and tree_search and infix_walk of c/tree.c. A null pointer is `leaf`, and a
-- search that may insert returns the tree that it leaves behind.
use Prim.Native.Nat.{Ordering}
use Prim.Native.Nat.Ordering.{lt, eq, gt}
use reftable.Basics.Bytes.{Ordering-cases}
use reftable.Base.{
  ◌≡◌, refl, sym, ap, ◌∙◌, List, [], ◌∷◌, ◌++◌, Bool, true, Option, some, none, All, if◌then◌else◌,
  inl, inr,
}

pub data Tree (K : Type 0) : Type 0 where
  leaf : Tree K
  node : K → Tree K → Tree K → Tree K

module _ {K : Type 0} (compare : K → K → Ordering) where
  -- The key of the node that is found or inserted, and the tree after the call.
  unfoldable pub tree_search : K → Tree K → Bool → Option K × Tree K
  tree_search key leaf insert = if insert then (some key, node key leaf leaf) else (none, leaf)
  tree_search key (node k left right) insert =
      let (found_left, left') = tree_search key left insert in
      let (found_right, right') = tree_search key right insert in
      elim (compare key k) [
        | lt ↦ (found_left, node k left' right)
        | gt ↦ (found_right, node k left right')
        | eq ↦ (some k, node k left right)
      ]

-- infix_walk with an action on the state behind its `void *arg`; the caller never walks a null tree.
unfoldable pub infix_walk : {S K : Type 0} → (K → S → S) → Tree K → S → S
infix_walk action leaf s = s
infix_walk action (node k left right) s =
    infix_walk action right (action k (infix_walk action left s))

-- The keys from left to right.
unfoldable pub keys : {K : Type 0} → Tree K → List K
keys leaf = []
keys (node k left right) = keys left ++ (k ∷ keys right)

-- The action for one key after the other.
abbrev pub in_order : {S K : Type 0} → (K → S → S) → List K → S → S
in_order action [] s = s
in_order action (k ∷ ks) s = in_order action ks (action k s)

in_order-append :
    {S K : Type 0} (action : K → S → S) (xs ys : List K) (s : S)
    → in_order action (xs ++ ys) s ≡ in_order action ys (in_order action xs s)
in_order-append action [] ys s = refl
in_order-append action (x ∷ xs) ys s = in_order-append action xs ys (action x s)

-- infix_walk runs the action once for each key, from left to right.
pub infix_walk-keys :
    {S K : Type 0} (action : K → S → S) (t : Tree K) (s : S)
    → infix_walk action t s ≡ in_order action (keys t) s
unfolding infix_walk keys
infix_walk-keys action leaf s = refl
infix_walk-keys action (node k left right) s = rw (
  in_order-append action (keys left) (k ∷ keys right) s,
  infix_walk-keys action left s,
  infix_walk-keys action right (action k (in_order action (keys left) s)),
)

-- What the comparison function of a tree has to satisfy.
pub record IsOrder {K : Type 0} (compare : K → K → Ordering) : Type 0 where
  pub swap_lt : (a b : K) → compare a b ≡ lt → compare b a ≡ gt
  pub swap_gt : (a b : K) → compare a b ≡ gt → compare b a ≡ lt
  pub trans_gt : (a b c : K) → compare a b ≡ gt → compare b c ≡ gt → compare a c ≡ gt
  pub trans_eq : (a b c : K) → compare a b ≡ eq → compare b c ≡ gt → compare a c ≡ gt

module _ {K : Type 0} (compare : K → K → Ordering) where
  -- Insertion into a list in ascending order, once for each key.
  unfoldable pub insert_key : K → List K → List K
  insert_key key [] = key ∷ []
  insert_key key (k ∷ ks) = elim (compare key k) [
    | lt ↦ key ∷ (k ∷ ks)
    | eq ↦ k ∷ ks
    | gt ↦ k ∷ insert_key key ks
  ]

  -- Each key stands right of the keys below it, and left of those above it.
  unfoldable pub Ordered : Tree K → Type 0
  Ordered leaf = Unit {0}
  Ordered (node k left right) =
      All (λ x. compare k x ≡ gt) (keys left)
      × All (λ x. compare k x ≡ lt) (keys right)
      × Ordered left
      × Ordered right

  insert-before :
      (key k : K) (xs ys : List K)
      → compare key k ≡ lt
      → insert_key key (xs ++ (k ∷ ys)) ≡ insert_key key xs ++ (k ∷ ys)
  unfolding insert_key
  insert-before key k [] ys h = rw h
  insert-before key k (x ∷ xs) ys h = elim (Ordering-cases (compare key x)) [
    | inl e ↦ rw (insert_key, e)
    | inr (inl e) ↦ rw (insert_key, e)
    | inr (inr e) ↦ rw (insert_key, e) (ap (◌∷◌ x) (insert-before key k xs ys h))
  ]

  insert-after :
      (key : K) (xs ys : List K)
      → All (λ x. compare key x ≡ gt) xs
      → insert_key key (xs ++ ys) ≡ xs ++ insert_key key ys
  unfolding insert_key
  insert-after key [] ys h = refl
  insert-after key (x ∷ xs) ys (e, h) = rw e (ap (◌∷◌ x) (insert-after key xs ys h))

  All-insert :
      (P : K → Type 0) (key : K) (ks : List K) → P key → All P ks → All P (insert_key key ks)
  unfolding insert_key
  All-insert P key [] p h = (p, h)
  All-insert P key (k ∷ ks) p (q, h) = elim (Ordering-cases (compare key k)) [
    | inl e ↦ rw (insert_key, e) (p, (q, h))
    | inr (inl e) ↦ rw (insert_key, e) (q, h)
    | inr (inr e) ↦ rw (insert_key, e) (q, All-insert P key ks p h)
  ]

  All-map : {P Q : K → Type 0} (f : (x : K) → P x → Q x) (ks : List K) → All P ks → All Q ks
  All-map f [] h = h
  All-map f (k ∷ ks) (p, h) = (f k p, All-map f ks h)

  -- For an order and an ordered tree, a search that may insert leaves an ordered tree, whose keys are the
  -- keys before with the new one at its place, unless it was there.
  pub tree_search-insert :
      (key : K) (t : Tree K)
      → IsOrder compare
      → Ordered t
      → Ordered (tree_search compare key t true).1
        × (keys (tree_search compare key t true).1 ≡ insert_key key (keys t))
  unfolding tree_search keys Ordered insert_key
  tree_search-insert key leaf order h = ((tt, tt, tt, tt), refl)
  tree_search-insert key (node k left right) order (below, above, hl, hr) =
      let (ol, el) = tree_search-insert key left order hl in
      let (or, er) = tree_search-insert key right order hr in
      let t : Tree K = node k left right in
      elim (Ordering-cases (compare key k)) [
        | inl e ↦
            let same : (tree_search compare key t true).1
                ≡ node k (tree_search compare key left true).1 right =
              rw (tree_search, e) in
            rw same (
              (rw el (All-insert _ key (keys left) (order.swap_lt key k e) below), above, ol, hr),
              rw el (sym (insert-before key k (keys left) (keys right) e)),
            )
        | inr (inl e) ↦
            let same : (tree_search compare key t true).1 ≡ t = rw (tree_search, e) in
            rw same (
              (below, above, hl, hr),
              sym (
                  insert-after key (keys left) (k ∷ keys right)
                    (All-map (λ x. order.trans_eq key k x e) (keys left) below)
                  ∙ rw (insert_key, e)),
            )
        | inr (inr e) ↦
            let same : (tree_search compare key t true).1
                ≡ node k left (tree_search compare key right true).1 =
              rw (tree_search, e) in
            rw same (
              (below, rw er (All-insert _ key (keys right) (order.swap_gt key k e) above), hl, or),
              rw er (
                  sym (
                    insert-after key (keys left) (k ∷ keys right)
                      (All-map (λ x. order.trans_gt key k x e) (keys left) below)
                    ∙ rw (insert_key, e))),
            )
      ]
