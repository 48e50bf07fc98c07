-- ===== src/CommitmentTree/Leaf.antt =====
-- src/starkware/starkware_utils/commitment_tree/leaf_fact.py: the interface of a leaf, whose classes
-- (vaults, orders, positions) the tree takes as a parameter.
use starkex_data_availabilit.Prelude.{Option, Bool}
use starkex_data_availabilit.Bytes.{Bytes}
use starkex_data_availabilit.Storage.{DbClass}

-- LeafFact: a Fact, that is a DBObject with `_hash`, and `is_empty`. The hash function is fixed.
pub record LeafClass (L : Type 0) : Type 0 where
  pub cls : DbClass L
  pub hash : L → Option Bytes
  pub is_empty : L → Bool
