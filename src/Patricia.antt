-- ===== src/Patricia.antt =====
-- src/starkware/starkware_utils/commitment_tree/patricia_tree/: the Patricia-Merkle tree.
pub mod Nodes
pub mod Spec
pub mod VirtualNode
pub mod Calculation
pub mod Update
pub mod Tree
pub mod Leaves
