-- ===== src/Patricia/Update.antt =====
-- The Patricia tree as an instance of the tree traversal, and what an update does to a tree of leaf
-- hashes.
pub mod FromNode
pub mod Subtree
pub mod Kept
use starkex_data_availabilit.Prelude.{
  ℕ, zero, suc, ◌+◌, ◌-◌, ◌^◌, Option, none, some, Bool, ltb, if◌then◌else◌,
}
use starkex_data_availabilit.Bytes.{Bytes}
use starkex_data_availabilit.Storage.{Db}
use starkex_data_availabilit.CommitmentTree.Leaf.{LeafClass}
use starkex_data_availabilit.CommitmentTree.UpdateTree.{UpdateTree, no_update, leaf, pair}
use starkex_data_availabilit.CommitmentTree.Traversal.{TreeOps}
use starkex_data_availabilit.Patricia.Spec.{Tree}
use starkex_data_availabilit.Patricia.VirtualNode.{VirtualPatriciaNode}
use starkex_data_availabilit.Patricia.VirtualNode
use starkex_data_availabilit.Patricia.Calculation.{VirtualCalculationNode}
use starkex_data_availabilit.Patricia.Calculation
use starkex_data_availabilit.Patricia.Calculation.Meaning.{digest, LeafOk}

-- The classes VirtualPatriciaNode and VirtualCalculationNode, as `update_tree` uses them.
unfoldable pub patricia_ops :
    {L : Type 0} → LeafClass L → Db → TreeOps VirtualPatriciaNode (VirtualCalculationNode L) L
patricia_ops lc db = record {
  is_leaf = λ node. VirtualNode.is_leaf node;
  get_children = VirtualNode.get_children db;
  create_from_node = Calculation.create_from_node;
  create_from_fact = Calculation.create_from_fact;
  combine = Calculation.combine lc db;
}

-- The leaf hash at an index, the left half of the tree first.
abbrev pub leaf_at : (h : ℕ) → Tree h → ℕ → Bytes
leaf_at zero t i = t
leaf_at (suc h) t i = if ltb i (2 ^ h) then leaf_at h t.0 i else leaf_at h t.1 (i - 2 ^ h)

module _ {L : Type 0} (lc : LeafClass L) where
  -- The leaf hashes after an update.
  abbrev pub updated : (h : ℕ) → Tree h → UpdateTree L → Tree h
  updated zero t no_update = t
  updated zero t (leaf fact) = digest lc fact
  updated zero t (pair l r) = t
  updated (suc h) t no_update = t
  updated (suc h) t (leaf fact) = t
  updated (suc h) t (pair l r) = (updated h t.0 l, updated h t.1 r)

  -- The leaves of an update hash as leaves should.
  abbrev pub LeavesOk : UpdateTree L → Type 0
  LeavesOk no_update = Unit
  LeavesOk (leaf fact) = LeafOk lc fact
  LeavesOk (pair l r) = LeavesOk l × LeavesOk r
