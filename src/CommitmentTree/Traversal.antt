-- ===== src/CommitmentTree/Traversal.antt =====
-- src/starkware/starkware_utils/commitment_tree/update_tree.py: the traversal of `update_tree` with
-- its dictionary `updated_nodes`, over the work queue of merkle_tree/traverse_tree.py.
-- Which of the queued nodes a worker takes next is given by a schedule, a list of positions; the
-- queue's order and the number of workers only restrict the schedules that arise. A visit is one
-- step: it is on a storage like DictStorage, whose operations never give way to another worker.
pub mod Ghost
pub mod Climb
pub mod Queue
pub mod Visit
pub mod Schedule
pub mod Result
use starkex_data_availabilit.Prelude.{
  ℕ, zero, suc, ◌+◌, ◌*◌, ◌/◌, ◌%◌, ◌-◌, Bool, true, false, Option, none, some, List, [], ◌∷◌, ◌++◌,
  ◌==◌, ℕ_eq, if◌then◌else◌, ◌>>=◌, ◌>>◌, guard, not,
}
use starkex_data_availabilit.Prelude.Dict.{Dict}
use starkex_data_availabilit.Prelude.Dict
use starkex_data_availabilit.CommitmentTree.UpdateTree.{
  UpdateTree, no_update, leaf, pair, build_update_tree,
}

-- BinaryFactTreeNode and CalculationNode, as far as `update_tree` uses them, over a storage that is
-- only read.
pub record TreeOps (N C L : Type 0) : Type 0 where
  pub is_leaf : N → Bool
  pub get_children : N → Option (N × N)
  pub create_from_node : N → C
  pub create_from_fact : L → C
  pub combine : C → C → Option C

-- NodeType
pub record NodeType (N L : Type 0) : Type 0 where
  pub index : ℕ
  pub tree : N
  pub update : UpdateTree L

-- The queue, and `updated_nodes`.
pub record Progress (N C L : Type 0) : Type 0 where
  pub queue : List (NodeType N L)
  pub updated_nodes : Dict ℕ C

-- `node_index ^ 1`
abbrev pub sibling : ℕ → ℕ
sibling i = if i % 2 == 0 then i + 1 else i - 1

-- Taking the item at a position, the last one if the position is past the end.
abbrev pub take_item : {A : Type 0} → ℕ → A → List A → A × List A
take_item n a [] = (a, [])
take_item zero a (b ∷ l) = (a, b ∷ l)
take_item (suc n) a (b ∷ l) = let (c, rest) = take_item n b l in (c, a ∷ rest)

module _ {N C L : Type 0} (ops : TreeOps N C L) where
  -- The body of the loop of `update_necessary`, for the parent of a pair of siblings.
  unfoldable pub combine_children : ℕ → Dict ℕ C → Option (Dict ℕ C)
  combine_children parent updated_nodes = do
    left ← Dict.get updated_nodes (2 * parent)
    right ← Dict.get updated_nodes (2 * parent + 1)
    combined ← ops.combine left right
    some
        (Dict.del (Dict.del (Dict.put updated_nodes parent combined) (2 * parent)) (2 * parent + 1))

  -- The loop halves the index, so that the index itself is enough fuel; running out counts as an
  -- error.
  unfoldable pub update_necessary : ℕ → ℕ → Dict ℕ C → Option (Dict ℕ C)
  update_necessary zero node_index updated_nodes = none
  update_necessary (suc fuel) node_index updated_nodes =
      elim (Dict.has updated_nodes (sibling node_index)) [
        | true ↦ (do
          updated_nodes ← combine_children (node_index / 2) updated_nodes
          update_necessary fuel (node_index / 2) updated_nodes)
        | false ↦ some updated_nodes
      ]

  -- `update_if_possible` and `set_fact`
  unfoldable pub set_node : ℕ → C → Dict ℕ C → Option (Dict ℕ C)
  set_node node_index node updated_nodes =
      update_necessary (node_index + 1) node_index (Dict.put updated_nodes node_index node)

  -- `traverse_node` by the update of the node: the children to visit, and the new dictionary.
  unfoldable pub visit_node :
      ℕ → N → UpdateTree L → Dict ℕ C → Option (List (NodeType N L) × Dict ℕ C)
  visit_node index tree no_update updated_nodes = do
    updated_nodes ← set_node index (ops.create_from_node tree) updated_nodes
    some ([], updated_nodes)
  visit_node index tree (leaf fact) updated_nodes = do
    guard (ops.is_leaf tree)
    updated_nodes ← set_node index (ops.create_from_fact fact) updated_nodes
    some ([], updated_nodes)
  visit_node index tree (pair left_update right_update) updated_nodes = do
    guard (not (ops.is_leaf tree))
    (left, right) ← ops.get_children tree
    some (
      record { index = 2 * index; tree = left; update = left_update }
          ∷ record { index = 2 * index + 1; tree = right; update = right_update }
          ∷ [],
      updated_nodes,
    )

  unfoldable pub traverse_node : NodeType N L → Dict ℕ C → Option (List (NodeType N L) × Dict ℕ C)
  unfolding visit_node
  traverse_node node updated_nodes = visit_node node.index node.tree node.update updated_nodes

  -- One worker takes an item and puts its children on the queue. An empty queue is left alone.
  unfoldable pub visit_queue : ℕ → List (NodeType N L) → Dict ℕ C → Option (Progress N C L)
  visit_queue pick [] updated_nodes = some (record { queue = []; updated_nodes = updated_nodes })
  visit_queue pick (item ∷ queue) updated_nodes =
      let (node, rest) = take_item pick item queue in
      (do
        (children, updated_nodes) ← traverse_node node updated_nodes
        some (record { queue = children ++ rest; updated_nodes = updated_nodes }))

  -- The whole traversal under a schedule.
  unfoldable pub traverse_tree : List ℕ → Progress N C L → Option (Progress N C L)
  unfolding visit_queue
  traverse_tree [] progress = some progress
  traverse_tree (pick ∷ schedule) progress = do
    progress ← visit_queue pick progress.queue progress.updated_nodes
    traverse_tree schedule progress

  -- `assert len(updated_nodes) == 1 and 1 in updated_nodes; return updated_nodes[1]`
  unfoldable pub only_node : Dict ℕ C → Option C
  only_node [] = none
  only_node ((i, c) ∷ []) = if i == 1 then some c else none
  only_node (a ∷ b ∷ rest) = none

  -- `build_updated_calculation`. The traversal ends when the queue is empty.
  unfoldable pub build_updated_calculation : List ℕ → N → ℕ → List (ℕ × L) → Option C
  unfolding traverse_tree only_node
  build_updated_calculation schedule tree height modifications = do
    update_tree ← build_update_tree height modifications
    let first_node : NodeType N L = record { index = 1; tree = tree; update = update_tree }
    progress ← traverse_tree schedule (record { queue = first_node ∷ []; updated_nodes = [] })
    guard (elim progress.queue [ [] ↦ true | _ ↦ false ])
    only_node progress.updated_nodes

  -- The calculation of a subtree by recursion on its updates, without queue and dictionary.
  unfoldable pub updated_calculation : N → UpdateTree L → Option C
  updated_calculation node no_update = some (ops.create_from_node node)
  updated_calculation node (leaf fact) = do
    guard (ops.is_leaf node)
    some (ops.create_from_fact fact)
  updated_calculation node (pair left_update right_update) = do
    guard (not (ops.is_leaf node))
    (left, right) ← ops.get_children node
    left_calculation ← updated_calculation left left_update
    right_calculation ← updated_calculation right right_update
    ops.combine left_calculation right_calculation
