-- ===== src/Patricia/Tree.antt =====
-- src/starkware/starkware_utils/commitment_tree/patricia_tree/patricia_tree.py, with `update_tree`
-- and `write_fact_nodes` of commitment_tree/update_tree.py. The concurrent writes of
-- `gather_in_chunks` and the hashing by executors are modelled in the order of the code.
pub mod Writes
pub mod Facts
pub mod Finish
pub mod Update
use starkex_data_availabilit.Prelude.{
  ℕ, Option, none, some, Bool, List, [], ◌∷◌, ◌==◌, ℕ_eq, List_eq, ◌>>=◌, ◌>>◌, guard,
}
use starkex_data_availabilit.Prelude.Dict.{Dict}
use starkex_data_availabilit.Bytes.{Bytes}
use starkex_data_availabilit.Storage.{Db, set, set_fact}
use starkex_data_availabilit.CommitmentTree.Leaf.{LeafClass}
use starkex_data_availabilit.CommitmentTree.Traversal.{build_updated_calculation}
use starkex_data_availabilit.Patricia.Nodes.{HashFunc, empty_node_hash, patricia_class}
use starkex_data_availabilit.Patricia.VirtualNode.{
  VirtualPatriciaNode, from_hash, make_node, commit,
}
use starkex_data_availabilit.Patricia.Calculation.{
  NodeFact, leaf, inner, NodeFactDict, VirtualCalculationNode, full_calculate,
}
use starkex_data_availabilit.Patricia.Update.{patricia_ops}

pub record PatriciaTree : Type 0 where
  pub root : Bytes
  pub height : ℕ

module _ {L : Type 0} (lc : LeafClass L) where
  -- `root_node.set(storage, suffix)` by the class of the fact.
  unfoldable pub set_node_fact : Db → Bytes → NodeFact L → Option Db
  set_node_fact db hash (leaf fact) = set lc.cls db fact hash
  set_node_fact db hash (inner fact) = set patricia_class db fact hash

  unfoldable pub write_fact_nodes : Db → NodeFactDict L → Option Db
  unfolding set_node_fact
  write_fact_nodes db [] = some db
  write_fact_nodes db ((hash, fact) ∷ fact_nodes) = do
    db ← set_node_fact db hash fact
    write_fact_nodes db fact_nodes

module _ {L : Type 0} (hash_func : HashFunc) (lc : LeafClass L) where
  -- VirtualCalculationNode.full_calculate: the node of the bottom's hash.
  unfoldable pub calculate_node :
      VirtualCalculationNode L → NodeFactDict L → Option (VirtualPatriciaNode × NodeFactDict L)
  unfolding full_calculate make_node
  calculate_node node fact_nodes = do
    (bottom_hash, fact_nodes) ← full_calculate hash_func lc node.bottom_calculation fact_nodes
    root_node ← make_node bottom_hash node.path node.length node.height
    some (root_node, fact_nodes)

  -- What `update_tree` does with the calculation of the traversal.
  unfoldable pub finish_update : Db → VirtualCalculationNode L → Option (VirtualPatriciaNode × Db)
  unfolding calculate_node write_fact_nodes
  finish_update db updated_calc_node = do
    (root_node, new_facts) ← calculate_node updated_calc_node []
    db ← write_fact_nodes lc db new_facts
    some (root_node, db)

  unfoldable pub update_tree :
      List ℕ → Db → VirtualPatriciaNode → List (ℕ × L) → Option (VirtualPatriciaNode × Db)
  unfolding finish_update
  update_tree schedule db tree modifications = do
    updated_calc_node ←
        build_updated_calculation (patricia_ops lc db) schedule tree tree.height modifications
    finish_update db updated_calc_node

  -- PatriciaTree.update
  unfoldable pub update : List ℕ → Db → PatriciaTree → List (ℕ × L) → Option (PatriciaTree × Db)
  unfolding update_tree
  update schedule db tree modifications = do
    (updated_virtual_root_node, db) ←
        update_tree schedule db (from_hash tree.root tree.height) modifications
    (root_hash, db) ← commit hash_func db updated_virtual_root_node
    some (record { root = root_hash; height = updated_virtual_root_node.height }, db)

  -- PatriciaTree.empty_tree
  unfoldable pub empty_tree : Db → ℕ → L → Option (PatriciaTree × Db)
  empty_tree db height leaf_fact = do
    (empty_leaf_fact_hash, db) ← set_fact lc.cls lc.hash db leaf_fact
    guard (empty_leaf_fact_hash == empty_node_hash)
    some (record { root = empty_node_hash; height = height }, db)
