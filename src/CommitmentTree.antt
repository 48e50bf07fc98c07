-- ===== src/CommitmentTree.antt =====
-- src/starkware/starkware_utils/commitment_tree/: what Merkle and Patricia trees share.
pub mod Leaf
pub mod UpdateTree
pub mod Traversal
