-- ===== src/Tree/Examples.antt =====
-- The theorems on trees at a tree of numbers.
use Prim.Native.Nat.{compare}
use reftable.Base.{ℕ, ◌≡◌, true, arith}
use reftable.Tree.Search.{
  Tree, leaf, node, tree_search, keys, IsOrder, insert_key, Ordered, tree_search-insert,
}

abbrev tree : Tree ℕ
tree = node 5 (node 2 leaf leaf) (node 8 leaf leaf)

compare-IsOrder : IsOrder compare
compare-IsOrder = record {
  swap_lt = λ a b h. ground arith;
  swap_gt = λ a b h. ground arith;
  trans_gt = λ a b c h k. ground arith;
  trans_eq = λ a b c h k. ground arith;
}

tree-Ordered : Ordered compare tree
unfolding Ordered keys
tree-Ordered = ground arith

tree_search-insert_example :
    Ordered compare (tree_search compare 6 tree true).1
    × (keys (tree_search compare 6 tree true).1 ≡ insert_key compare 6 (keys tree))
tree_search-insert_example = tree_search-insert compare 6 tree compare-IsOrder tree-Ordered
