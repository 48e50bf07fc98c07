-- ===== src/Patricia/Calculation.antt =====
-- src/starkware/starkware_utils/commitment_tree/calculation.py, and virtual_calculation_node.py of
-- the Patricia tree: hash calculations that are put off, and the nodes built of them.
pub mod Meaning
pub mod Decommit
pub mod Combine
use starkex_data_availabilit.Prelude.{
  ℕ, zero, suc, ◌+◌, ◌^◌, Option, none, some, Bool, true, false, not, ◌&&◌, ◌||◌, List, [], ◌∷◌,
  ◌==◌, ℕ_eq, List_eq, ◌>>=◌, ◌>>◌, guard, if◌then◌else◌,
}
use starkex_data_availabilit.Prelude.Dict.{Dict}
use starkex_data_availabilit.Prelude.Dict
use starkex_data_availabilit.Bytes.{Bytes}
use starkex_data_availabilit.Storage.{Db, set}
use starkex_data_availabilit.CommitmentTree.Leaf.{LeafClass}
use starkex_data_availabilit.Patricia.Nodes.{
  HashFunc, PatriciaNodeFact, empty_fact, binary_fact, edge_fact, empty_node_hash, is_empty_hash,
  verify_path_value, make_binary, make_edge, patricia_class, fact_hash,
}
use starkex_data_availabilit.Patricia.VirtualNode.{VirtualPatriciaNode, make_node, read_node_fact}
use starkex_data_availabilit.Patricia.VirtualNode

-- The subclasses of HashCalculation that a Patricia tree uses.
pub data HashCalculation (L : Type 0) : Type 0 where
  constant : Bytes → HashCalculation L
  leaf_fact : L → HashCalculation L
  binary : HashCalculation L → HashCalculation L → HashCalculation L
  -- bottom, path, length
  edge : HashCalculation L → ℕ → ℕ → HashCalculation L

-- The values of a NodeFactDict.
pub data NodeFact (L : Type 0) : Type 0 where
  leaf : L → NodeFact L
  inner : PatriciaNodeFact → NodeFact L

abbrev pub NodeFactDict : Type 0 → Type 0
NodeFactDict L = Dict Bytes (NodeFact L)

pub record VirtualCalculationNode (L : Type 0) : Type 0 where
  pub bottom_calculation : HashCalculation L
  pub path : ℕ
  pub length : ℕ
  pub height : ℕ

module _ {L : Type 0} where
  -- VirtualCalculationNode(...), with `__post_init__`
  unfoldable pub make_calc : HashCalculation L → ℕ → ℕ → ℕ → Option (VirtualCalculationNode L)
  unfolding verify_path_value
  make_calc bottom_calculation path length height = do
    verify_path_value path length
    some (record {
      bottom_calculation = bottom_calculation;
      path = path;
      length = length;
      height = height;
    })

  abbrev pub empty_node : ℕ → VirtualCalculationNode L
  empty_node height = record {
    bottom_calculation = constant empty_node_hash;
    path = 0;
    length = 0;
    height = height;
  }

  -- The virtual node has passed the check on its path already.
  unfoldable pub create_from_node : VirtualPatriciaNode → VirtualCalculationNode L
  create_from_node node = if VirtualNode.is_empty node then empty_node node.height else record {
    bottom_calculation = constant node.bottom_node;
    path = node.path;
    length = node.length;
    height = node.height;
  }

  unfoldable pub create_from_fact : L → VirtualCalculationNode L
  create_from_fact fact = record {
    bottom_calculation = leaf_fact fact;
    path = 0;
    length = 0;
    height = 0;
  }

  abbrev pub is_virtual_edge : VirtualCalculationNode L → Bool
  is_virtual_edge node = not (node.length == 0)

  abbrev pub is_leaf : VirtualCalculationNode L → Bool
  is_leaf node = node.height == 0

  -- `_commit`
  unfoldable pub commit : VirtualCalculationNode L → HashCalculation L
  commit node =
      if not (is_virtual_edge node)
      then node.bottom_calculation
      else edge node.bottom_calculation node.path node.length

  -- `_combine_to_binary_node`
  unfoldable pub combine_to_binary_node :
      VirtualCalculationNode L → VirtualCalculationNode L → VirtualCalculationNode L
  unfolding commit
  combine_to_binary_node left right = record {
    bottom_calculation = binary (commit left) (commit right);
    path = 0;
    length = 0;
    height = right.height + 1;
  }

  -- A committed edge whose fact was read moves into the virtual edge.
  unfoldable pub decommit_fact :
      VirtualCalculationNode L → PatriciaNodeFact → Option (VirtualCalculationNode L)
  unfolding make_calc
  decommit_fact node (edge_fact bottom_node edge_path edge_length) =
      make_calc (constant bottom_node) edge_path edge_length node.height
  decommit_fact node (binary_fact left_node right_node) = some node
  decommit_fact node empty_fact = some node

  -- The cases of the bottom calculation in `_decommit`.
  unfoldable pub decommit_bottom :
      Db → VirtualCalculationNode L → HashCalculation L → Option (VirtualCalculationNode L)
  unfolding make_calc decommit_fact
  decommit_bottom db node (edge bottom path length) = make_calc bottom path length node.height
  decommit_bottom db node (constant value) = do
    bottom_fact ← read_node_fact db value
    decommit_fact node bottom_fact
  decommit_bottom db node (leaf_fact fact) = some node
  decommit_bottom db node (binary left right) = some node

module _ {L : Type 0} (lc : LeafClass L) where
  -- `is_empty` by the class of the bottom calculation.
  unfoldable pub is_empty_calculation : HashCalculation L → Bool
  is_empty_calculation (constant value) = is_empty_hash value
  is_empty_calculation (leaf_fact fact) = lc.is_empty fact
  is_empty_calculation (binary left right) = false
  is_empty_calculation (edge bottom path length) = false

  abbrev pub is_empty : VirtualCalculationNode L → Bool
  is_empty node = is_empty_calculation node.bottom_calculation

  -- `_decommit`
  unfoldable pub decommit : Db → VirtualCalculationNode L → Option (VirtualCalculationNode L)
  unfolding decommit_bottom
  decommit db node =
      if is_leaf node || is_empty node || is_virtual_edge node
      then some node
      else decommit_bottom db node node.bottom_calculation

  -- `_combine_to_virtual_edge_node`
  unfoldable pub combine_to_virtual_edge_node :
      Db → VirtualCalculationNode L → VirtualCalculationNode L → Option (VirtualCalculationNode L)
  combine_to_virtual_edge_node db left right = do
    guard ((is_empty left && not (is_empty right)) || (not (is_empty left) && is_empty right))
    non_empty_child ← decommit db (if is_empty left then right else left)
    make_calc non_empty_child.bottom_calculation
        (if is_empty left
          then non_empty_child.path + 2 ^ non_empty_child.length
          else non_empty_child.path)
        (non_empty_child.length + 1) (non_empty_child.height + 1)

  unfoldable pub combine :
      Db → VirtualCalculationNode L → VirtualCalculationNode L → Option (VirtualCalculationNode L)
  unfolding combine_to_binary_node combine_to_virtual_edge_node
  combine db left right = do
    guard (right.height == left.height)
    if is_empty left && is_empty right
        then some (empty_node (right.height + 1))
        else if not (is_empty left) && not (is_empty right)
        then some (combine_to_binary_node left right)
        else combine_to_virtual_edge_node db left right

module _ {L : Type 0} (hash_func : HashFunc) (lc : LeafClass L) where
  -- `calculate` of the fact that a binary or edge calculation makes.
  unfoldable pub add_fact :
      Option PatriciaNodeFact → NodeFactDict L → Option (Bytes × NodeFactDict L)
  add_fact made fact_nodes = do
    fact ← made
    hash ← fact_hash hash_func fact
    some (hash, Dict.put fact_nodes hash (inner fact))

  -- `calculate`, with the results of the dependencies. A list of another length than the
  -- dependencies fails the assertion or the unpacking.
  unfoldable pub calculate :
      HashCalculation L → List Bytes → NodeFactDict L → Option (Bytes × NodeFactDict L)
  unfolding add_fact
  calculate (constant value) [] fact_nodes = some (value, fact_nodes)
  calculate (leaf_fact fact) [] fact_nodes = do
    hash_result ← lc.hash fact
    some (hash_result, Dict.put fact_nodes hash_result (leaf fact))
  calculate (binary left right) (left_hash ∷ right_hash ∷ []) fact_nodes =
      add_fact (make_binary left_hash right_hash) fact_nodes
  calculate (edge bottom path length) (bottom_hash ∷ []) fact_nodes =
      add_fact (make_edge bottom_hash path length) fact_nodes
  calculate _ _ fact_nodes = none

  -- `full_calculate`: the dependencies from left to right, then the calculation itself.
  unfoldable pub full_calculate :
      HashCalculation L → NodeFactDict L → Option (Bytes × NodeFactDict L)
  unfolding calculate
  full_calculate (constant value) fact_nodes = calculate (constant value) [] fact_nodes
  full_calculate (leaf_fact fact) fact_nodes = calculate (leaf_fact fact) [] fact_nodes
  full_calculate (binary left right) fact_nodes = do
    (left_hash, fact_nodes) ← full_calculate left fact_nodes
    (right_hash, fact_nodes) ← full_calculate right fact_nodes
    calculate (binary left right) (left_hash ∷ right_hash ∷ []) fact_nodes
  full_calculate (edge bottom path length) fact_nodes = do
    (bottom_hash, fact_nodes) ← full_calculate bottom fact_nodes
    calculate (edge bottom path length) (bottom_hash ∷ []) fact_nodes
