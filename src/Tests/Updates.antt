-- ===== src/Tests/Updates.antt =====
-- The theorems on updates, at a tree of simple leaves with no leaf but empty ones.
use starkex_data_availabilit.Prelude.{
  ℕ, ◌≤◌, ◌<◌, ◌^◌, ◌≡◌, ◌⊎◌, inl, inr, none, true, false, Bool, ltb, if◌then◌else◌, ◌==◌,
  Bool-cases, ap, refl, sym, ◌∙◌, some, arith, List, [], ◌∷◌, map, List_eq, ℕ_eq, length, subst,
}
use starkex_data_availabilit.Prelude.Dict
use starkex_data_availabilit.Prelude.Dict.{Dict, IsDict}
use starkex_data_availabilit.Prelude.Dict.Writes.{Listed-get}
use starkex_data_availabilit.Bytes.{Bytes, big_endian, from_bytes, to_bytes, to_bytes_len}
use starkex_data_availabilit.Storage.{db_key}
use starkex_data_availabilit.CommitmentTree.UpdateTree.{
  UpdateTree, no_update, leaf, pair, build_update_tree, only_root, climb, next_layer, parents,
  bottom_layer,
}
use starkex_data_availabilit.CommitmentTree.Traversal.{
  build_updated_calculation, updated_calculation,
}
use starkex_data_availabilit.CommitmentTree.Traversal.Queue.{weight}
use starkex_data_availabilit.CommitmentTree.Traversal.Result.{build_updated_calculation_lem}
use starkex_data_availabilit.Patricia.Nodes.{empty_node_hash, is_empty_hash}
use starkex_data_availabilit.Patricia.Spec.{Tree, virtual, join, commitment, edge_hash, root}
use starkex_data_availabilit.Patricia.Spec.Bounds.{empty_node_hash-IsHash}
use starkex_data_availabilit.Patricia.VirtualNode.{from_hash, get_children}
use starkex_data_availabilit.Patricia.Calculation.{
  leaf_fact, NodeFact, VirtualCalculationNode, create_from_node, create_from_fact,
  is_empty_calculation, decommit, combine, commit,
}
use starkex_data_availabilit.Patricia.Calculation.Meaning.{digest, calc_facts}
use starkex_data_availabilit.Patricia.Update.{patricia_ops}
use starkex_data_availabilit.Patricia.Tree.{PatriciaTree}
use starkex_data_availabilit.Patricia.Tree.Writes.{entry}
use starkex_data_availabilit.Patricia.Tree.Facts.{NoCollision}
use starkex_data_availabilit.Patricia.Tree.Update.{TreeStored, CollisionFree, Updates, update_lem}
use starkex_data_availabilit.Patricia.Leaves.{get_leaves}
use starkex_data_availabilit.Patricia.Leaves.Reads.{Reads}
use starkex_data_availabilit.Patricia.Leaves.Correct.{get_leaves_lem}
use starkex_data_availabilit.Patricia.Update.{leaf_at}
use starkex_data_availabilit.CommitmentTree.UpdateTree.{elem}
use starkex_data_availabilit.Patricia.Leaves.AfterUpdate.{LeavesStored, ReadsAfter, get_leaf-update}
use starkex_data_availabilit.Tests.{mix, mix-IsHashFunc, simple_leaf}
use starkex_data_availabilit.Tests.Trees.{leaf_5-LeafOk}
use starkex_data_availabilit.Storage.{Db, get_or_fail, get_value}

-- The storage of an empty tree: the fact of the empty leaf.
abbrev empty_db : Db
empty_db = (db_key simple_leaf.cls empty_node_hash, empty_node_hash) ∷ []

abbrev no_leaf : Tree 1
no_leaf = (empty_node_hash, empty_node_hash)

abbrev new_root : VirtualCalculationNode ℕ
new_root = record { bottom_calculation = leaf_fact 5; path = 1; length = 1; height = 1 }

abbrev set_5 : List (ℕ × ℕ)
set_5 = (1, 5) ∷ []

abbrev no_leaf_tree : PatriciaTree
no_leaf_tree = record { root = empty_node_hash; height = 1 }

abbrev schedule_3 : List ℕ
schedule_3 = 0 ∷ 1 ∷ 0 ∷ []

-- The workers may take the right child before the left one.
build_updated_calculation_example :
    build_updated_calculation
      (patricia_ops simple_leaf empty_db)
      schedule_3
      (from_hash empty_node_hash 1)
      1
      set_5
    ≡ some new_root
unfolding build_update_tree only_root climb next_layer parents bottom_layer updated_calculation
    patricia_ops get_children combine create_from_node create_from_fact is_empty_calculation
    decommit is_empty_hash
build_updated_calculation_example =
    build_updated_calculation_lem (patricia_ops simple_leaf empty_db) schedule_3
      (from_hash empty_node_hash 1) 1 set_5 (pair no_update (leaf 5)) new_root refl refl
      (omega arith)

-- Facts with different hashes and new keys do not collide.
fresh-NoCollision :
    (facts : List (Bytes × NodeFact ℕ))
    → IsDict facts
    → IsDict (map (entry simple_leaf) facts)
    → Dict.get (map (entry simple_leaf) facts) (db_key simple_leaf.cls empty_node_hash) ≡ none
    → NoCollision mix mix-IsHashFunc simple_leaf empty_db facts
fresh-NoCollision facts hashes keys new = record {
  same_hash =
      λ k f g l r. same (sym (Listed-get facts k f hashes l) ∙ Listed-get facts k g hashes r);
  keys = record {
    among = λ k v w l r. same (
        sym (Listed-get (map (entry simple_leaf) facts) k v keys l)
        ∙ Listed-get (map (entry simple_leaf) facts) k w keys r);
    old = λ k v w l e. absurd (
        clash k v w (Listed-get (map (entry simple_leaf) facts) k v keys l) e
          (Bool-cases (db_key simple_leaf.cls empty_node_hash == k)));
  };
}
  where
    same : {A : Type 0} {x y : A} → some x ≡ some y → x ≡ y
    same e = cc e

    clash :
        (k v w : Bytes)
        → Dict.get (map (entry simple_leaf) facts) k ≡ some v
        → Dict.get empty_db k ≡ some w
        → ((db_key simple_leaf.cls empty_node_hash == k) ≡ true)
          ⊎ ((db_key simple_leaf.cls empty_node_hash == k) ≡ false)
        → ⊥
    clash k v w g e (inl p) =
        let q : db_key simple_leaf.cls empty_node_hash ≡ k = (List_eq.beq_iff _ _).0 p in
        let r = ap (Dict.get (map (entry simple_leaf) facts)) q in cc (r, new, g)
    clash k v w g e (inr p) = let r : none ≡ some w = rw p at e in cc r

no_leaf-TreeStored : TreeStored mix mix-IsHashFunc simple_leaf empty_db no_leaf_tree 1 no_leaf
unfolding root virtual join commitment is_empty_hash
no_leaf-TreeStored = record {
  small = omega arith;
  leaves = (empty_node_hash-IsHash, empty_node_hash-IsHash);
  tree_eq = refl;
  below = (tt, tt, (λ nl nr. absurd (nl refl)));
  top = λ pos. absurd (omega (arith, pos));
}

set_5-hashes : IsDict (calc_facts mix simple_leaf (commit new_root))
unfolding commit edge_hash big_endian from_bytes to_bytes to_bytes_len
set_5-hashes = (refl, (refl, tt))

set_5-keys : IsDict (map (entry simple_leaf) (calc_facts mix simple_leaf (commit new_root)))
unfolding commit edge_hash big_endian from_bytes to_bytes to_bytes_len db_key
set_5-keys = (refl, (refl, tt))

set_5-new :
    Dict.get
      (map (entry simple_leaf) (calc_facts mix simple_leaf (commit new_root)))
      (db_key simple_leaf.cls empty_node_hash)
    ≡ none
unfolding commit edge_hash big_endian from_bytes to_bytes to_bytes_len db_key empty_node_hash
set_5-new = refl

set_5-CollisionFree :
    CollisionFree mix mix-IsHashFunc simple_leaf schedule_3 empty_db no_leaf_tree set_5
set_5-CollisionFree c e =
    subst
      (λ x.
        NoCollision mix mix-IsHashFunc simple_leaf empty_db (calc_facts mix simple_leaf (commit x)))
      (same (sym build_updated_calculation_example ∙ e))
      (fresh-NoCollision (calc_facts mix simple_leaf (commit new_root)) set_5-hashes set_5-keys
        set_5-new)
  where
    same : {x y : VirtualCalculationNode ℕ} → some x ≡ some y → x ≡ y
    same e = cc e

set_5-weight :
    (u : UpdateTree ℕ) → build_update_tree 1 set_5 ≡ some u → weight u ≤ length schedule_3
unfolding build_update_tree only_root climb next_layer parents bottom_layer
set_5-weight u e = subst (λ v. weight v ≤ 3) (same e) (omega arith)
  where
    same : {x y : UpdateTree ℕ} → some x ≡ some y → x ≡ y
    same e = cc e

update_example :
    Updates mix mix-IsHashFunc simple_leaf schedule_3 empty_db no_leaf_tree set_5 1 no_leaf
update_example =
    update_lem mix mix-IsHashFunc simple_leaf schedule_3 empty_db no_leaf_tree 1 no_leaf set_5
      no_leaf-TreeStored (omega arith, tt) (leaf_5-LeafOk, tt) set_5-weight set_5-CollisionFree

empty_leaf_read : get_or_fail simple_leaf.cls empty_db empty_node_hash ≡ some 0
unfolding get_or_fail get_value db_key from_bytes empty_node_hash
empty_leaf_read = refl

empty_leaf_hash : digest simple_leaf 0 ≡ empty_node_hash
unfolding to_bytes to_bytes_len empty_node_hash big_endian
empty_leaf_hash = refl

no_leaf_read : (i : ℕ) → get_or_fail simple_leaf.cls empty_db (leaf_at 1 no_leaf i) ≡ some 0
no_leaf_read i = half (ltb i 1)
  where
    half :
        (b : Bool)
        → get_or_fail simple_leaf.cls empty_db (if b then empty_node_hash else empty_node_hash)
          ≡ some 0
    half true = empty_leaf_read
    half false = empty_leaf_read

in_tree : (i : ℕ) → elem i (1 ∷ 0 ∷ []) ≡ true → i < 2 ^ 1
in_tree i e = ground (arith, e)

no_leaf-LeavesStored : LeavesStored mix mix-IsHashFunc simple_leaf empty_db 1 no_leaf
no_leaf-LeavesStored = record {
  stored = λ i lt. (0, no_leaf_read i);
  empty = λ f e.
      subst (λ f. get_or_fail simple_leaf.cls empty_db (digest simple_leaf f) ≡ some f)
        (zero_of f e) (rw empty_leaf_hash empty_leaf_read);
}
  where
    zero_of : (f : ℕ) → simple_leaf.is_empty f ≡ true → 0 ≡ f
    zero_of f e = ground (arith, e)

get_leaf-update_example :
    ReadsAfter mix mix-IsHashFunc simple_leaf schedule_3 empty_db no_leaf_tree set_5 1
get_leaf-update_example =
    get_leaf-update mix mix-IsHashFunc simple_leaf schedule_3 empty_db no_leaf_tree 1 no_leaf set_5
      no_leaf-TreeStored no_leaf-LeavesStored (omega arith, tt) (leaf_5-LeafOk, tt) set_5-weight
      set_5-CollisionFree

get_leaves_example :
    (d : Dict ℕ ℕ) × (get_leaves simple_leaf.cls empty_db no_leaf_tree (1 ∷ 0 ∷ []) ≡ some d)
    × Reads simple_leaf.cls empty_db (leaf_at 1 no_leaf) (1 ∷ 0 ∷ []) d
get_leaves_example =
    get_leaves_lem mix mix-IsHashFunc simple_leaf empty_db no_leaf_tree 1 no_leaf (1 ∷ 0 ∷ [])
      no_leaf-TreeStored (λ i e. (in_tree i e, (0, no_leaf_read i)))
