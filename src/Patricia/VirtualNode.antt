-- ===== src/Patricia/VirtualNode.antt =====
-- src/starkware/starkware_utils/commitment_tree/patricia_tree/virtual_patricia_node.py, without the
-- optional `facts` dictionaries, which the committee never passes.
pub mod Represents
pub mod Children
use starkex_data_availabilit.Prelude.{
  ℕ, zero, suc, ◌+◌, ◌-◌, ◌/◌, ◌%◌, ◌^◌, Option, none, some, Bool, not, ◌==◌, ℕ_eq, List_eq, ◌>>=◌,
  ◌>>◌, guard, if◌then◌else◌,
}
use starkex_data_availabilit.Bytes.{Bytes}
use starkex_data_availabilit.Storage.{Db, get_or_fail, set_fact}
use starkex_data_availabilit.Patricia.Nodes.{
  HashFunc, PatriciaNodeFact, empty_fact, binary_fact, edge_fact, empty_node_hash, is_empty_hash,
  verify_path_value, make_edge, patricia_class, fact_hash,
}

pub record VirtualPatriciaNode : Type 0 where
  pub bottom_node : Bytes
  pub path : ℕ
  pub length : ℕ
  pub height : ℕ

-- VirtualPatriciaNode(bottom_node, path, length, height), with `__post_init__`
unfoldable pub make_node : Bytes → ℕ → ℕ → ℕ → Option VirtualPatriciaNode
unfolding verify_path_value
make_node bottom_node path length height = do
  verify_path_value path length
  some (record { bottom_node = bottom_node; path = path; length = length; height = height })

-- A path of 0 and a length of 0 pass the check of the constructor.
abbrev pub from_hash : Bytes → ℕ → VirtualPatriciaNode
from_hash hash_value height = record {
  bottom_node = hash_value;
  path = 0;
  length = 0;
  height = height;
}

abbrev pub empty_node : ℕ → VirtualPatriciaNode
empty_node height = from_hash empty_node_hash height

abbrev pub create_leaf : Bytes → VirtualPatriciaNode
create_leaf hash_value = from_hash hash_value 0

abbrev pub is_empty : VirtualPatriciaNode → Bool
is_empty node = is_empty_hash node.bottom_node

abbrev pub is_virtual_edge : VirtualPatriciaNode → Bool
is_virtual_edge node = not (node.length == 0)

-- BinaryFactTreeNode.is_leaf
abbrev pub is_leaf : VirtualPatriciaNode → Bool
is_leaf node = node.height == 0

-- read_node_fact of binary_fact_tree_node.py, for Patricia facts
abbrev pub read_node_fact : Db → Bytes → Option PatriciaNodeFact
read_node_fact db hash = get_or_fail patricia_class db hash

-- Negative heights and lengths do not arise: `get_children` runs on a height above 0, and this on a
-- length above 0.
unfoldable pub get_virtual_edge_node_children :
    VirtualPatriciaNode → Option (VirtualPatriciaNode × VirtualPatriciaNode)
unfolding make_node
get_virtual_edge_node_children node = do
  let children_height = node.height - 1
  let children_length = node.length - 1
  non_empty_child ←
      make_node node.bottom_node (node.path % 2 ^ children_length) children_length children_height
  let empty_child = empty_node children_height
  some (
      if node.path / 2 ^ children_length == 0
      then (non_empty_child, empty_child)
      else (empty_child, non_empty_child))

-- The children by the fact of the bottom node. An empty fact fails the last assertion.
unfoldable pub children_of_fact :
    ℕ → PatriciaNodeFact → Option (VirtualPatriciaNode × VirtualPatriciaNode)
unfolding make_node get_virtual_edge_node_children
children_of_fact height empty_fact = none
children_of_fact height (edge_fact bottom_node edge_path edge_length) = do
  edge_node ← make_node bottom_node edge_path edge_length height
  get_virtual_edge_node_children edge_node
children_of_fact height (binary_fact left_node right_node) =
    some (from_hash left_node (height - 1), from_hash right_node (height - 1))

unfoldable pub get_children :
    Db → VirtualPatriciaNode → Option (VirtualPatriciaNode × VirtualPatriciaNode)
get_children db node = do
  guard (not (is_leaf node))
  if is_empty node
      then some (empty_node (node.height - 1), empty_node (node.height - 1))
      else if is_virtual_edge node
      then get_virtual_edge_node_children node
      else (do fact ← read_node_fact db node.bottom_node; children_of_fact node.height fact)

-- `commit` writes the fact of an edge, and returns the hash of the node.
unfoldable pub commit : HashFunc → Db → VirtualPatriciaNode → Option (Bytes × Db)
commit hash_func db node = if not (is_virtual_edge node) then some (node.bottom_node, db) else (do
  edge_node_fact ← make_edge node.bottom_node node.path node.length
  set_fact patricia_class (fact_hash hash_func) db edge_node_fact)
