-- ===== src/Tree.antt =====
-- c/tree.c: the binary search tree that collects object IDs.
pub mod Search
mod Examples
