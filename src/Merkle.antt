-- ===== src/Merkle.antt =====
-- src/starkware/starkware_utils/commitment_tree/merkle_tree/: merkle_tree_node.py,
-- merkle_calculation_node.py and merkle_tree.py. The optional `facts` are not passed.
pub mod Hash
pub mod Facts
pub mod Update
pub mod Empty
use starkex_data_availabilit.Prelude.{
  ℕ, zero, suc, ◌+◌, ◌-◌, ◌*◌, ◌/◌, ◌%◌, Option, none, some, Bool, List, [], ◌∷◌, ◌++◌, ◌==◌, ℕ_eq,
  List_eq, ◌>>=◌, ◌>>◌, guard, if◌then◌else◌, length, take, drop,
}
use starkex_data_availabilit.Prelude.Dict.{Dict}
use starkex_data_availabilit.Prelude.Dict
use starkex_data_availabilit.Bytes.{Bytes, hash_bytes, to_bytes, from_bytes}
use starkex_data_availabilit.Storage.{Db, DbClass, ascii, get_or_fail, set, set_fact}
use starkex_data_availabilit.CommitmentTree.Leaf.{LeafClass}
use starkex_data_availabilit.CommitmentTree.Traversal.{TreeOps, build_updated_calculation}
use starkex_data_availabilit.Patricia.Nodes.{HashFunc}

pub record MerkleNodeFact : Type 0 where
  pub left_node : Bytes
  pub right_node : Bytes

abbrev pub make_fact : Bytes → Bytes → MerkleNodeFact
make_fact left_node right_node = record { left_node = left_node; right_node = right_node }

unfoldable pub to_tuple : MerkleNodeFact → ℕ × ℕ
to_tuple fact = (from_bytes fact.left_node, from_bytes fact.right_node)

-- `b"".join(map(to_bytes, self.to_tuple()))`
unfoldable pub serialize : MerkleNodeFact → Option Bytes
unfolding to_tuple to_bytes
serialize fact = do
  left_bytes ← to_bytes (to_tuple fact).0
  right_bytes ← to_bytes (to_tuple fact).1
  some (left_bytes ++ right_bytes)

unfoldable pub deserialize : Bytes → Option MerkleNodeFact
deserialize bytes = do
  guard (length bytes == 2 * hash_bytes)
  some (make_fact (take hash_bytes bytes) (drop hash_bytes bytes))

abbrev pub fact_hash : HashFunc → MerkleNodeFact → Bytes
fact_hash hash_func fact = hash_func fact.left_node fact.right_node

abbrev pub merkle_class : DbClass MerkleNodeFact
merkle_class = record {
  prefix = ascii "merkle_node";
  serialize = serialize;
  deserialize = deserialize;
}

-- The fields of MerkleTreeNode and of MerkleTree are the same.
pub record MerkleTreeNode : Type 0 where
  pub root : Bytes
  pub height : ℕ

abbrev pub make_node : Bytes → ℕ → MerkleTreeNode
make_node root height = record { root = root; height = height }

-- `get_children`, of a node that is not a leaf: the traversal calls it on no other. The children of a
-- leaf would have the height -1, which this model does not have.
unfoldable pub get_children : Db → MerkleTreeNode → Option (MerkleTreeNode × MerkleTreeNode)
get_children db node = do
  root_fact ← get_or_fail merkle_class db node.root
  some (
    make_node root_fact.left_node (node.height - 1),
    make_node root_fact.right_node (node.height - 1),
  )

-- The binary digits of an index after the first, on fuel.
abbrev pub dirs : ℕ → ℕ → List ℕ
dirs zero index = []
dirs (suc fuel) index =
    let rest = dirs fuel (index / 2) in if index / 2 == 0 then [] else rest ++ (index % 2) ∷ []

unfoldable pub walk : Db → MerkleTreeNode → List ℕ → Option MerkleTreeNode
unfolding get_children
walk db node [] = some node
walk db node (direction ∷ ds) = do
  (left, right) ← get_children db node
  walk db (if direction == 0 then left else right) ds

-- The index itself is enough fuel.
unfoldable pub get_node : Db → MerkleTreeNode → ℕ → Option MerkleTreeNode
unfolding walk
get_node db node index = walk db node (dirs index index)

-- The subclasses of HashCalculation that a Merkle tree uses.
pub data HashCalculation (L : Type 0) : Type 0 where
  constant : Bytes → HashCalculation L
  leaf_fact : L → HashCalculation L
  binary : HashCalculation L → HashCalculation L → HashCalculation L

pub data NodeFact (L : Type 0) : Type 0 where
  leaf : L → NodeFact L
  inner : MerkleNodeFact → NodeFact L

abbrev pub NodeFactDict : Type 0 → Type 0
NodeFactDict L = Dict Bytes (NodeFact L)

pub record MerkleCalculationNode (L : Type 0) : Type 0 where
  pub root_calculation : HashCalculation L
  pub height : ℕ

module _ {L : Type 0} where
  abbrev pub make_calc : HashCalculation L → ℕ → MerkleCalculationNode L
  make_calc root_calculation height = record {
    root_calculation = root_calculation;
    height = height;
  }

  unfoldable pub combine :
      MerkleCalculationNode L → MerkleCalculationNode L → Option (MerkleCalculationNode L)
  combine left right = do
    guard (right.height == left.height)
    some (make_calc (binary left.root_calculation right.root_calculation) (left.height + 1))

  abbrev pub create_from_node : MerkleTreeNode → MerkleCalculationNode L
  create_from_node node = make_calc (constant node.root) node.height

  abbrev pub create_from_fact : L → MerkleCalculationNode L
  create_from_fact fact = make_calc (leaf_fact fact) 0

-- The classes MerkleTreeNode and MerkleCalculationNode, as `update_tree` uses them.
unfoldable pub merkle_ops : {L : Type 0} → Db → TreeOps MerkleTreeNode (MerkleCalculationNode L) L
unfolding get_children combine
merkle_ops db = record {
  is_leaf = λ node. node.height == 0;
  get_children = get_children db;
  create_from_node = create_from_node;
  create_from_fact = create_from_fact;
  combine = combine;
}

module _ (hash_func : HashFunc) where
  -- The loop of `empty_tree`, with `write_node_fact`.
  unfoldable pub grow : ℕ → MerkleTreeNode → Db → Option (MerkleTreeNode × Db)
  grow zero tree db = some (tree, db)
  grow (suc n) tree db = do
    let root_fact = make_fact tree.root tree.root
    (root, db) ← set_fact merkle_class (λ fact. some (fact_hash hash_func fact)) db root_fact
    grow n (make_node root (tree.height + 1)) db

  -- The roots that the loop of `empty_tree_roots` appends, from the last one.
  unfoldable pub next_roots : ℕ → Bytes → List Bytes
  next_roots zero last = []
  next_roots (suc n) last = hash_func last last ∷ next_roots n (hash_func last last)

module _ {L : Type 0} (hash_func : HashFunc) (lc : LeafClass L) where
  -- `full_calculate`: the dependencies from left to right, then `calculate` itself.
  unfoldable pub full_calculate :
      HashCalculation L → NodeFactDict L → Option (Bytes × NodeFactDict L)
  full_calculate (constant value) fact_nodes = some (value, fact_nodes)
  full_calculate (leaf_fact fact) fact_nodes = do
    hash_result ← lc.hash fact
    some (hash_result, Dict.put fact_nodes hash_result (leaf fact))
  full_calculate (binary left right) fact_nodes = do
    (left_hash, fact_nodes) ← full_calculate left fact_nodes
    (right_hash, fact_nodes) ← full_calculate right fact_nodes
    let fact = make_fact left_hash right_hash
    some (fact_hash hash_func fact, Dict.put fact_nodes (fact_hash hash_func fact) (inner fact))

  unfoldable pub set_node_fact : Db → Bytes → NodeFact L → Option Db
  set_node_fact db hash (leaf fact) = set lc.cls db fact hash
  set_node_fact db hash (inner fact) = set merkle_class db fact hash

  unfoldable pub write_fact_nodes : Db → NodeFactDict L → Option Db
  unfolding set_node_fact
  write_fact_nodes db [] = some db
  write_fact_nodes db ((hash, fact) ∷ fact_nodes) = do
    db ← set_node_fact db hash fact
    write_fact_nodes db fact_nodes

  -- What `update_tree` does with the calculation of the traversal.
  unfoldable pub finish_update : Db → MerkleCalculationNode L → Option (MerkleTreeNode × Db)
  unfolding full_calculate write_fact_nodes
  finish_update db node = do
    (root_value, new_facts) ← full_calculate node.root_calculation []
    db ← write_fact_nodes db new_facts
    some (make_node root_value node.height, db)

  -- MerkleTree.update, with `update_tree`.
  unfoldable pub update : List ℕ → Db → MerkleTreeNode → List (ℕ × L) → Option (MerkleTreeNode × Db)
  unfolding finish_update merkle_ops
  update schedule db tree modifications = do
    updated_calc_node ←
        build_updated_calculation (merkle_ops db) schedule tree tree.height modifications
    finish_update db updated_calc_node

  -- MerkleTree.empty_tree
  unfoldable pub empty_tree : Db → ℕ → L → Option (MerkleTreeNode × Db)
  unfolding grow
  empty_tree db height fact = do
    (root, db) ← set_fact lc.cls lc.hash db fact
    grow hash_func height (make_node root 0) db

  unfoldable pub empty_tree_roots : ℕ → L → Option (List Bytes)
  unfolding next_roots
  empty_tree_roots max_height fact = do
    leaf_hash ← lc.hash fact
    some (leaf_hash ∷ next_roots hash_func max_height leaf_hash)
