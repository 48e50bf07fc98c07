-- ===== src/Patricia/Leaves.antt =====
-- `_get_leaves` of src/starkware/starkware_utils/commitment_tree/patricia_tree/
-- virtual_patricia_node.py, with the methods that it inherits from binary_fact_tree_node.py, and
-- `get_leaves` and `get_leaf` of binary_fact_tree.py. Indices are not negative.
pub mod Bottom
pub mod Lookups
pub mod Reads
pub mod Cases
pub mod Correct
pub mod AfterUpdate
use starkex_data_availabilit.Prelude.{
  ℕ, zero, suc, ◌+◌, ◌-◌, ◌*◌, ◌/◌, ◌^◌, Option, none, some, Bool, true, false, not, ◌&&◌, List, [],
  ◌∷◌, map, keep, ltb, leb, ◌==◌, ℕ_eq, ◌>>=◌, ◌>>◌, guard, if◌then◌else◌,
}
use starkex_data_availabilit.Prelude.Dict.{Dict}
use starkex_data_availabilit.Prelude.Dict
use starkex_data_availabilit.Storage.{Db, DbClass, get_or_fail}
use starkex_data_availabilit.Patricia.Nodes.{empty_node_hash}
use starkex_data_availabilit.Patricia.VirtualNode.{
  VirtualPatriciaNode, from_hash, is_leaf, is_virtual_edge, get_children,
}
use starkex_data_availabilit.Patricia.Tree.{PatriciaTree}

module _ {L : Type 0} where
  -- The leaves with their indices moved up.
  abbrev pub shift : ℕ → Dict ℕ L → List (ℕ × L)
  shift n leaves = map (λ e. (e.0 + n, e.1)) leaves

  unfoldable pub unify_binary_leaves : ℕ → Dict ℕ L → Dict ℕ L → Dict ℕ L
  unify_binary_leaves middle_index left_leaves right_leaves =
      Dict.update left_leaves (shift middle_index right_leaves)

  unfoldable pub unify_edge_leaves : ℕ → Dict ℕ L → Dict ℕ L → Dict ℕ L
  unify_edge_leaves path_prefix bottom_subtree_leaves empty_leaves =
      Dict.update empty_leaves (shift path_prefix bottom_subtree_leaves)

  -- `leaves.keys() == {index}`
  abbrev pub only_key : ℕ → Dict ℕ L → Bool
  only_key index [] = false
  only_key index ((i, leaf) ∷ []) = i == index
  only_key index (a ∷ b ∷ leaves) = false

  -- `assert leaves.keys() == {index}; return leaves[index]`
  unfoldable pub the_leaf : ℕ → Dict ℕ L → Option L
  the_leaf index leaves = do guard (only_key index leaves); Dict.get leaves index

-- `set(indices) == {0}`
abbrev pub only_zero : List ℕ → Bool
only_zero [] = false
only_zero (i ∷ []) = i == 0
only_zero (i ∷ j ∷ is) = i == 0 && only_zero (j ∷ is)

module _ {L : Type 0} (fact_cls : DbClass L) (db : Db) where
  -- `_get_leaf`, with the assertion of `leaf_hash`.
  unfoldable pub get_leaf_node : VirtualPatriciaNode → List ℕ → Option (Dict ℕ L)
  get_leaf_node node indices = do
    guard (only_zero indices)
    guard (is_leaf node)
    leaf ← get_or_fail fact_cls db node.bottom_node
    some ((0, leaf) ∷ [])

  unfoldable pub get_empty_leaves : List ℕ → Option (Dict ℕ L)
  get_empty_leaves [] = some []
  get_empty_leaves (i ∷ is) = do
    empty_leaf ← get_or_fail fact_cls db empty_node_hash
    some (Dict.update [] (map (λ index. (index, empty_leaf)) (i ∷ is)))

  -- The recursive call is passed in.
  module _ (get_leaves : VirtualPatriciaNode → List ℕ → Option (Dict ℕ L)) where
    -- A length above the height is a negative shift count, which raises.
    unfoldable pub get_edge_node_leaves : VirtualPatriciaNode → List ℕ → Option (Dict ℕ L)
    unfolding get_empty_leaves unify_edge_leaves
    get_edge_node_leaves node indices = do
      guard (leb node.length node.height)
      let path_suffix_width = node.height - node.length
      let path_prefix = node.path * 2 ^ path_suffix_width
      let bottom_subtree_indices =
          map (λ index. index - path_prefix)
            (keep (λ index. index / 2 ^ path_suffix_width == node.path) indices)
      let empty_indices = keep (λ index. not (index / 2 ^ path_suffix_width == node.path)) indices
      bottom_subtree_leaves ←
          get_leaves (from_hash node.bottom_node path_suffix_width) bottom_subtree_indices
      empty_leaves ← get_empty_leaves empty_indices
      some (unify_edge_leaves path_prefix bottom_subtree_leaves empty_leaves)

    -- The three ways to call the children: the right one alone, the left one alone, or both.
    unfoldable pub get_child_leaves :
        VirtualPatriciaNode → VirtualPatriciaNode → ℕ → List ℕ → List ℕ → Option (Dict ℕ L)
    unfolding unify_binary_leaves
    get_child_leaves left_child right_child mid [] right_indices = do
      right_leaves ← get_leaves right_child right_indices
      some (unify_binary_leaves mid [] right_leaves)
    get_child_leaves left_child right_child mid (i ∷ left_indices) [] = do
      left_leaves ← get_leaves left_child (i ∷ left_indices)
      some (unify_binary_leaves mid left_leaves [])
    get_child_leaves left_child right_child mid (i ∷ left_indices) (j ∷ right_indices) = do
      left_leaves ← get_leaves left_child (i ∷ left_indices)
      right_leaves ← get_leaves right_child (j ∷ right_indices)
      some (unify_binary_leaves mid left_leaves right_leaves)

    unfoldable pub get_binary_node_leaves : VirtualPatriciaNode → List ℕ → Option (Dict ℕ L)
    unfolding get_child_leaves
    get_binary_node_leaves node indices = do
      let mid = 2 ^ (node.height - 1)
      let left_indices = keep (λ index. ltb index mid) indices
      let right_indices = map (λ index. index - mid) (keep (λ index. leb mid index) indices)
      (left_child, right_child) ← get_children db node
      get_child_leaves left_child right_child mid left_indices right_indices

  -- `_get_leaves`, on fuel: a node above the leaves passes on nodes of smaller heights. An empty
  -- collection of indices reads nothing.
  unfoldable pub get_leaves_below : ℕ → VirtualPatriciaNode → List ℕ → Option (Dict ℕ L)
  unfolding get_leaf_node get_edge_node_leaves get_binary_node_leaves
  get_leaves_below fuel node [] = some []
  get_leaves_below zero node (i ∷ is) = none
  get_leaves_below (suc fuel) node (i ∷ is) =
      if is_leaf node
      then get_leaf_node node (i ∷ is)
      else if is_virtual_edge node
      then get_edge_node_leaves (get_leaves_below fuel) node (i ∷ is)
      else get_binary_node_leaves (get_leaves_below fuel) node (i ∷ is)

  -- `get_leaves` of a tree; the check that the class is no inner node is one of types.
  unfoldable pub get_leaves : PatriciaTree → List ℕ → Option (Dict ℕ L)
  unfolding get_leaves_below
  get_leaves tree indices =
      get_leaves_below (tree.height + 1) (from_hash tree.root tree.height) indices

  unfoldable pub get_leaf : PatriciaTree → ℕ → Option L
  unfolding get_leaves the_leaf
  get_leaf tree index = do leaves ← get_leaves tree (index ∷ []); the_leaf index leaves
