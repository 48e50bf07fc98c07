-- ===== src/Tests/Trees.antt =====
-- The theorems on Patricia trees, at small trees of simple leaves.
use starkex_data_availabilit.Prelude.{ℕ, ◌≡◌, ◌≢◌, inl, refl, some, arith, [], List_eq, ℕ_eq}
use starkex_data_availabilit.Prelude.Dict
use starkex_data_availabilit.Prelude.Dict.{IsDict}
use starkex_data_availabilit.Bytes.{Bytes, IsHash, big_endian, from_bytes, to_bytes, to_bytes_len}
use starkex_data_availabilit.CommitmentTree.UpdateTree.{UpdateTree, no_update, leaf, pair}
use starkex_data_availabilit.Patricia.Nodes.{empty_node_hash, is_empty_hash}
use starkex_data_availabilit.Patricia.Nodes.RoundTrip.{ne_of_is_empty_hash}
use starkex_data_availabilit.Patricia.Spec.{Tree, IsTree, virtual, join}
use starkex_data_availabilit.Patricia.Spec.Bounds.{big_endian-IsHash, empty_node_hash-IsHash}
use starkex_data_availabilit.Patricia.VirtualNode.{VirtualPatriciaNode, from_hash, get_children}
use starkex_data_availabilit.Patricia.VirtualNode.Represents.{node_of, Stored, Represents}
use starkex_data_availabilit.Patricia.VirtualNode.Children.{get_children-Represents}
use starkex_data_availabilit.Patricia.Calculation.{
  constant, leaf_fact, binary, VirtualCalculationNode, create_from_node, combine, full_calculate,
}
use starkex_data_availabilit.Patricia.Calculation.Meaning.{
  digest, LeafOk, calc_hash, calc_facts, full_calculate_lem,
}
use starkex_data_availabilit.Patricia.Calculation.Decommit.{CalcRepresents}
use starkex_data_availabilit.Patricia.Calculation.Combine.{combine-CalcRepresents}
use starkex_data_availabilit.Patricia.Update.FromNode.{create_from_node_lem}
use starkex_data_availabilit.Patricia.Update.Subtree.{Runs, updated_calculation-CalcRepresents}
use starkex_data_availabilit.Tests.{mix, mix-IsHashFunc, simple_leaf}

abbrev hash_5 : Bytes
hash_5 = big_endian 32 5

abbrev hash_6 : Bytes
hash_6 = big_endian 32 6

pub leaf_5-LeafOk : LeafOk simple_leaf 5
unfolding to_bytes to_bytes_len big_endian is_empty_hash from_bytes
leaf_5-LeafOk = record {
  hashes = refl;
  hash = big_endian-IsHash 5;
  empty = refl;
  reads_back = (_, refl, refl);
}

hash_6-nonempty : hash_6 ≢ empty_node_hash
unfolding is_empty_hash big_endian
hash_6-nonempty = ne_of_is_empty_hash hash_6 refl

leaf_5-nonempty : digest simple_leaf 5 ≢ empty_node_hash
unfolding is_empty_hash big_endian to_bytes to_bytes_len
leaf_5-nonempty = ne_of_is_empty_hash (digest simple_leaf 5) refl

full_calculate_example :
    full_calculate mix simple_leaf (binary (constant hash_6) (leaf_fact 5)) []
    ≡ some (
      calc_hash mix simple_leaf (binary (constant hash_6) (leaf_fact 5)),
      Dict.update [] (calc_facts mix simple_leaf (binary (constant hash_6) (leaf_fact 5))),
    )
full_calculate_example =
    full_calculate_lem mix mix-IsHashFunc simple_leaf (binary (constant hash_6) (leaf_fact 5)) []
      (big_endian-IsHash 6, leaf_5-LeafOk, hash_6-nonempty, leaf_5-nonempty)

-- A tree of height 2 with one leaf, and of height 1 with none.
abbrev one_leaf : Tree 2
one_leaf = ((empty_node_hash, empty_node_hash), (hash_5, empty_node_hash))

abbrev no_leaf : Tree 1
no_leaf = (empty_node_hash, empty_node_hash)

one_leaf-IsTree : IsTree 2 one_leaf
one_leaf-IsTree = (
  (empty_node_hash-IsHash, empty_node_hash-IsHash),
  (big_endian-IsHash 5, empty_node_hash-IsHash),
)

one_leaf-Stored : Stored mix [] 2 one_leaf
unfolding virtual join is_empty_hash big_endian empty_node_hash
one_leaf-Stored = (
  (tt, tt, (λ nl nr. absurd (nl refl))),
  (tt, tt, (λ nl nr. absurd (nr refl))),
  (λ nl nr. absurd (nl refl)),
)

get_children_example :
    (l r : VirtualPatriciaNode) × (get_children [] (node_of 2 (virtual mix 2 one_leaf))
      ≡ some (l, r))
    × Represents mix [] 1 one_leaf.0 l
    × Represents mix [] 1 one_leaf.1 r
get_children_example =
    get_children-Represents mix mix-IsHashFunc [] 1 one_leaf (node_of 2 (virtual mix 2 one_leaf))
      (omega arith) one_leaf-IsTree one_leaf-Stored (inl refl)

abbrev pair_of_leaves : Tree 1
pair_of_leaves = (hash_5, hash_6)

leaf_node_lem :
    (b : Bytes)
    → IsHash b
    → CalcRepresents mix simple_leaf [] 0 b (create_from_node (from_hash b 0))
unfolding virtual
leaf_node_lem b w =
    create_from_node_lem mix mix-IsHashFunc simple_leaf [] 0 b w tt (from_hash b 0) (omega arith)
      (inl refl)

combine_example :
    (c : VirtualCalculationNode ℕ) × (combine simple_leaf []
        (create_from_node (from_hash hash_5 0))
        (create_from_node (from_hash hash_6 0))
      ≡ some c)
    × CalcRepresents mix simple_leaf [] 1 pair_of_leaves c
combine_example =
    combine-CalcRepresents mix mix-IsHashFunc simple_leaf [] 0 pair_of_leaves
      (create_from_node (from_hash hash_5 0)) (create_from_node (from_hash hash_6 0)) (omega arith)
      (big_endian-IsHash 5, big_endian-IsHash 6) (leaf_node_lem hash_5 (big_endian-IsHash 5))
      (leaf_node_lem hash_6 (big_endian-IsHash 6))

abbrev put_leaf : UpdateTree ℕ
put_leaf = pair (pair no_update (leaf 5)) no_update

updated_calculation_example :
    Runs mix mix-IsHashFunc simple_leaf [] 2 one_leaf (node_of 2 (virtual mix 2 one_leaf)) put_leaf
updated_calculation_example =
    updated_calculation-CalcRepresents mix mix-IsHashFunc simple_leaf [] 2 one_leaf
      (node_of 2 (virtual mix 2 one_leaf)) put_leaf (omega arith) one_leaf-IsTree one_leaf-Stored
      (inl refl) ((tt, tt), tt) ((tt, leaf_5-LeafOk), tt)
