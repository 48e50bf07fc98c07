-- ===== src/Tests/Merkles.antt =====
-- The theorems on Merkle trees, at a tree of simple leaves of height 1.
use starkex_data_availabilit.Prelude.{
  ℕ, ◌≤◌, ◌≡◌, inl, inr, none, some, ap, refl, sym, ◌∙◌, arith, List, [], ◌∷◌, map, List_eq, ℕ_eq,
  length, subst, All,
}
use starkex_data_availabilit.Prelude.Dict
use starkex_data_availabilit.Prelude.Dict.{IsDict}
use starkex_data_availabilit.Prelude.Dict.Writes.{Listed, NoClash, Listed-get}
use starkex_data_availabilit.Bytes.{Bytes, big_endian, from_bytes, to_bytes, to_bytes_len}
use starkex_data_availabilit.Storage.{Db, db_key, get_or_fail, get_value}
use starkex_data_availabilit.CommitmentTree.UpdateTree.{
  UpdateTree, no_update, leaf, pair, build_update_tree, only_root, climb, next_layer, parents,
  bottom_layer,
}
use starkex_data_availabilit.CommitmentTree.Traversal.{
  build_updated_calculation, updated_calculation,
}
use starkex_data_availabilit.CommitmentTree.Traversal.Queue.{weight}
use starkex_data_availabilit.CommitmentTree.Traversal.Result.{build_updated_calculation_lem}
use starkex_data_availabilit.Patricia.Spec.{Tree}
use starkex_data_availabilit.Patricia.Calculation.Meaning.{digest}
use starkex_data_availabilit.Patricia.Spec.Bounds.{big_endian-IsHash}
use starkex_data_availabilit.Merkle.{
  MerkleTreeNode, make_node, serialize, deserialize, to_tuple, get_children, constant, leaf_fact,
  binary, NodeFact, MerkleCalculationNode, make_calc, combine, merkle_ops,
}
use starkex_data_availabilit.Merkle.Hash.{GivesHashes, LeafHashes, calc_facts, merkle_root}
use starkex_data_availabilit.Merkle.Facts.{entry, NoCollision}
use starkex_data_availabilit.Merkle.Update.{TreeStored, CollisionFree, Updates, merkle_update_lem}
use starkex_data_availabilit.Merkle.Empty.{uniform, empty_facts, EmptyTree, empty_tree_lem}
use starkex_data_availabilit.Tests.{mix, mix-IsHashFunc, simple_leaf}

mix-GivesHashes : GivesHashes mix
mix-GivesHashes = mix-IsHashFunc.hash

leaf_0-LeafHashes : LeafHashes simple_leaf 0
unfolding to_bytes to_bytes_len big_endian from_bytes
leaf_0-LeafHashes = record {
  hashes = refl;
  hash = big_endian-IsHash 0;
  reads_back = (_, refl, refl);
}

leaf_5-LeafHashes : LeafHashes simple_leaf 5
unfolding to_bytes to_bytes_len big_endian from_bytes
leaf_5-LeafHashes = record {
  hashes = refl;
  hash = big_endian-IsHash 5;
  reads_back = (_, refl, refl);
}

-- Writes with different keys, none of which the storage has, do not clash.
fresh-NoClash :
    (db : Db) (m : List (Bytes × Bytes))
    → IsDict m
    → All (λ (e : Bytes × Bytes). Dict.get db e.0 ≡ none) m
    → NoClash db m
fresh-NoClash db m keys new = record {
  among = λ k v w l r. same (sym (Listed-get m k v keys l) ∙ Listed-get m k w keys r);
  old = λ k v w l e. absurd (clash k w (missing m k v new l) e);
}
  where
    same : {x y : Bytes} → some x ≡ some y → x ≡ y
    same e = cc e

    clash : (k w : Bytes) → Dict.get db k ≡ none → Dict.get db k ≡ some w → ⊥
    clash k w n e = cc (n, e)

    missing :
        (m : List (Bytes × Bytes)) (k v : Bytes)
        → All (λ (e : Bytes × Bytes). Dict.get db e.0 ≡ none) m
        → Listed k v m
        → Dict.get db k ≡ none
    missing [] k v n l = absurd l
    missing ((j, w) ∷ m) k v (n, ns) (inl (p, q)) = sym (ap (Dict.get db) p) ∙ n
    missing ((j, w) ∷ m) k v (n, ns) (inr l) = missing m k v ns l

abbrev empty_entries : List (Bytes × Bytes)
empty_entries = map (entry simple_leaf) (empty_facts mix mix-GivesHashes simple_leaf 1 0)

empty_entries-IsDict : IsDict empty_entries
unfolding db_key serialize to_tuple to_bytes to_bytes_len big_endian from_bytes
empty_entries-IsDict = (refl, (refl, tt))

empty_tree_example : EmptyTree mix mix-GivesHashes simple_leaf [] 1 0
empty_tree_example =
    empty_tree_lem mix mix-GivesHashes simple_leaf [] 1 0 leaf_0-LeafHashes
      (fresh-NoClash [] empty_entries empty_entries-IsDict (refl, (refl, tt)))

abbrev no_leaf : Tree 1
no_leaf = uniform 1 (digest simple_leaf 0)

abbrev no_leaf_tree : MerkleTreeNode
no_leaf_tree = make_node (merkle_root mix 1 no_leaf) 1

no_leaf-TreeStored : TreeStored mix mix-GivesHashes simple_leaf empty_entries no_leaf_tree 1 no_leaf
unfolding db_key serialize deserialize to_tuple to_bytes to_bytes_len big_endian from_bytes
    get_or_fail get_value
no_leaf-TreeStored = record {
  leaves = (leaf_0-LeafHashes.hash, leaf_0-LeafHashes.hash);
  tree_eq = refl;
  facts = ((0, refl), (0, refl), refl);
}

abbrev set_5 : List (ℕ × ℕ)
set_5 = (1, 5) ∷ []

abbrev new_root : MerkleCalculationNode ℕ
new_root = make_calc (binary (constant (digest simple_leaf 0)) (leaf_fact 5)) 1

-- The workers may take the right child before the left one.
abbrev schedule_3 : List ℕ
schedule_3 = 0 ∷ 1 ∷ 0 ∷ []

set_5-built :
    build_updated_calculation (merkle_ops empty_entries) schedule_3 no_leaf_tree 1 set_5
    ≡ some new_root
unfolding build_update_tree only_root climb next_layer parents bottom_layer updated_calculation
    merkle_ops get_children combine db_key serialize deserialize to_tuple to_bytes to_bytes_len
    big_endian from_bytes get_or_fail get_value
set_5-built =
    build_updated_calculation_lem (merkle_ops empty_entries) schedule_3 no_leaf_tree 1 set_5
      (pair no_update (leaf 5)) new_root refl refl (omega arith)

abbrev new_facts : List (Bytes × NodeFact ℕ)
new_facts = calc_facts mix simple_leaf new_root.root_calculation

new_facts-IsDict : IsDict new_facts
unfolding db_key serialize to_tuple to_bytes to_bytes_len big_endian from_bytes
new_facts-IsDict = (refl, (refl, tt))

new_facts-NoClash : NoClash empty_entries (map (entry simple_leaf) (Dict.update [] new_facts))
unfolding db_key serialize to_tuple to_bytes to_bytes_len big_endian from_bytes
new_facts-NoClash =
    fresh-NoClash empty_entries (map (entry simple_leaf) (Dict.update [] new_facts))
      (refl, (refl, tt)) (refl, (refl, tt))

set_5-CollisionFree :
    CollisionFree mix mix-GivesHashes simple_leaf schedule_3 empty_entries no_leaf_tree set_5
set_5-CollisionFree c e =
    subst
      (λ x.
        NoCollision mix simple_leaf empty_entries (calc_facts mix simple_leaf x.root_calculation))
      (same (sym set_5-built ∙ e))
      (record {
        same_hash = λ k f g l r. same (
            sym (Listed-get new_facts k f new_facts-IsDict l)
            ∙ Listed-get new_facts k g new_facts-IsDict r);
        keys = new_facts-NoClash;
      })
  where
    same : {A : Type 0} {x y : A} → some x ≡ some y → x ≡ y
    same e = cc e

set_5-weight :
    (u : UpdateTree ℕ) → build_update_tree 1 set_5 ≡ some u → weight u ≤ length schedule_3
unfolding build_update_tree only_root climb next_layer parents bottom_layer
set_5-weight u e = subst (λ v. weight v ≤ 3) (same e) (omega arith)
  where
    same : {x y : UpdateTree ℕ} → some x ≡ some y → x ≡ y
    same e = cc e

merkle_update_example :
    Updates mix mix-GivesHashes simple_leaf schedule_3 empty_entries no_leaf_tree set_5 1 no_leaf
merkle_update_example =
    merkle_update_lem mix mix-GivesHashes simple_leaf schedule_3 empty_entries no_leaf_tree 1
      no_leaf set_5 no_leaf-TreeStored (omega arith, tt) (leaf_5-LeafHashes, tt) set_5-weight
      set_5-CollisionFree
