-- ===== src/Merkle/Empty.antt =====
-- MerkleTree.empty_tree and empty_tree_roots: trees with one leaf at all indices.
use starkex_data_availabilit.Prelude.{
  ℕ, zero, suc, ◌+◌, ◌<◌, ◌≤◌, ◌≡◌, inl, inr, refl, sym, ap, ap₂, ◌∙◌, some, arith, List, [], ◌∷◌,
  map, List_eq, ℕ_eq, get_elem?,
}
use starkex_data_availabilit.Prelude.Dict
use starkex_data_availabilit.Prelude.Dict.Writes.{Listed, NoClash, get-update_new}
use starkex_data_availabilit.Bytes.{Bytes, IsHash}
use starkex_data_availabilit.Storage.{Db, db_key, get_or_fail, set_fact}
use starkex_data_availabilit.Storage.Objects.{set_lem}
use starkex_data_availabilit.CommitmentTree.Leaf.{LeafClass}
use starkex_data_availabilit.Patricia.Nodes.{HashFunc}
use starkex_data_availabilit.Patricia.Spec.{Tree, IsTree}
use starkex_data_availabilit.Patricia.Calculation.Meaning.{digest}
use starkex_data_availabilit.Patricia.Tree.Writes.{bytes_of-some}
use starkex_data_availabilit.Merkle.{
  MerkleTreeNode, make_node, make_fact, fact_hash, merkle_class, NodeFact, leaf, inner, grow,
  empty_tree, next_roots, empty_tree_roots,
}
use starkex_data_availabilit.Merkle.Hash.{
  GivesHashes, MerkleNodeFact-ReadsBack, merkle_root, TreeFacts, LeafHashes,
}
use starkex_data_availabilit.Merkle.Facts.{entry, fact_bytes, fact_of_entry, Listed-entry}
use starkex_data_availabilit.Merkle.Update.{TreeStored}

-- The tree with one leaf hash at all indices.
abbrev pub uniform : (h : ℕ) → Bytes → Tree h
uniform zero b = b
uniform (suc h) b = (uniform h b, uniform h b)

uniform-IsTree : (h : ℕ) (b : Bytes) → IsHash b → IsTree h (uniform h b)
uniform-IsTree zero b w = w
uniform-IsTree (suc h) b w = (uniform-IsTree h b w, uniform-IsTree h b w)

module _ (hash_func : HashFunc) where
  -- The root above `n` layers of equal children.
  abbrev top : ℕ → Bytes → Bytes
  top zero b = b
  top (suc n) b = top n (hash_func b b)

  top-hash : (n : ℕ) (b : Bytes) → hash_func (top n b) (top n b) ≡ top n (hash_func b b)
  top-hash zero b = refl
  top-hash (suc n) b = top-hash n (hash_func b b)

  merkle_root-uniform : (h : ℕ) (b : Bytes) → merkle_root hash_func h (uniform h b) ≡ top h b
  merkle_root-uniform zero b = refl
  merkle_root-uniform (suc h) b =
      let ih = merkle_root-uniform h b in ap₂ hash_func ih ih ∙ top-hash h b

  next_roots-get :
      (n k : ℕ) (b : Bytes) → k ≤ n → get_elem? (b ∷ next_roots hash_func n b) k ≡ some (top k b)
  unfolding next_roots
  next_roots-get n zero b le = refl
  next_roots-get zero (suc k) b le = absurd (omega (arith, le))
  next_roots-get (suc n) (suc k) b le = next_roots-get n k (hash_func b b) (omega (arith, le))

  module _ {L : Type 0} (good : GivesHashes hash_func) (lc : LeafClass L) where
    -- The facts that the loop writes.
    abbrev pub chain : ℕ → Bytes → List (Bytes × NodeFact L)
    chain zero b = []
    chain (suc n) b = (hash_func b b, inner (make_fact b b)) ∷ chain n (hash_func b b)

    abbrev pub empty_facts : ℕ → L → List (Bytes × NodeFact L)
    empty_facts n f = (digest lc f, leaf f) ∷ chain n (digest lc f)

    set_node_lem :
        (b : Bytes) (db : Db)
        → IsHash b
        → set_fact merkle_class (λ fact. some (fact_hash hash_func fact)) db (make_fact b b)
          ≡ some (
            hash_func b b,
            Dict.put db
                (db_key merkle_class (hash_func b b))
                (fact_bytes lc (inner (make_fact b b))),
          )
    unfolding set_fact
    set_node_lem b db w =
        let (bs, s, r) = MerkleNodeFact-ReadsBack b b w w in
        rw (set_lem merkle_class db (make_fact b b) (hash_func b b) bs s, bytes_of-some s)

    grow_lem :
        (n h height : ℕ) (b : Bytes) (db : Db)
        → IsHash b
        → h + n ≡ height
        → grow hash_func n (make_node b h) db
          ≡ some (make_node (top n b) height, Dict.update db (map (entry lc) (chain n b)))
    unfolding grow
    grow_lem zero h height b db w e =
        let same : h ≡ height = omega (arith, e) in ap (λ n. some (make_node b n, db)) same
    grow_lem (suc n) h height b db w e =
        rw (set_node_lem b db w)
          (grow_lem n (h + 1) height (hash_func b b) _ (good b b w w) (omega (arith, e)))

    chain-Listed :
        (n k : ℕ) (b : Bytes)
        → k < n
        → Listed (top (suc k) b) (inner (make_fact (top k b) (top k b))) (chain n b)
    chain-Listed zero k b lt = absurd (omega (arith, lt))
    chain-Listed (suc n) zero b lt = inl (refl, refl)
    chain-Listed (suc n) (suc k) b lt = inr (chain-Listed n k (hash_func b b) (omega (arith, lt)))

    top-IsHash : (n : ℕ) (b : Bytes) → IsHash b → IsHash (top n b)
    top-IsHash zero b w = w
    top-IsHash (suc n) b w = top-IsHash n (hash_func b b) (good b b w w)

    uniform-TreeFacts :
        (db : Db) (n h : ℕ) (b : Bytes) (f : L)
        → h ≤ n
        → get_or_fail lc.cls db b ≡ some f
        → ((k : ℕ)
            → k < n
            → get_or_fail merkle_class db (top (suc k) b) ≡ some (make_fact (top k b) (top k b)))
        → TreeFacts hash_func lc db h (uniform h b)
    uniform-TreeFacts db n zero b f le e nodes = (f, e)
    uniform-TreeFacts db n (suc h) b f le e nodes =
        let ih = uniform-TreeFacts db n h b f (omega (arith, le)) e nodes in
        let r = merkle_root-uniform h b in
        (
          ih,
          ih,
          ap (get_or_fail merkle_class db) (ap₂ hash_func r r ∙ top-hash h b)
              ∙ nodes h (omega (arith, le))
              ∙ ap₂ (λ x y. some (make_fact x y)) (sym r) (sym r),
        )

    -- What `empty_tree` returns, with the list of roots.
    pub record EmptyTree (db : Db) (height : ℕ) (f : L) : Type 0 where
      pub tree : MerkleTreeNode
      pub new_db : Db
      pub result : empty_tree hash_func lc db height f ≡ some (tree, new_db)
      pub stored : TreeStored hash_func good lc new_db tree height (uniform height (digest lc f))
      pub in_roots :
          (max_height : ℕ)
          → height ≤ max_height
          → (roots : List Bytes) × (empty_tree_roots hash_func lc max_height f ≡ some roots)
            × (get_elem? roots height ≡ some tree.root)

    set_leaf_lem :
        (db : Db) (f : L)
        → LeafHashes lc f
        → set_fact lc.cls lc.hash db f
          ≡ some (digest lc f, Dict.put db (db_key lc.cls (digest lc f)) (fact_bytes lc (leaf f)))
    unfolding set_fact
    set_leaf_lem db f ok =
        let (bs, s, r) = ok.reads_back in
        rw (ok.hashes, set_lem lc.cls db f (digest lc f) bs s, bytes_of-some s)

    -- For a leaf that hashes to 32 bytes and is read back, if no two of the written facts clash,
    -- `empty_tree` returns a tree of the given height with this leaf at all indices, all of whose
    -- facts the storage holds, and `empty_tree_roots` up to this height or a greater one lists the
    -- root of the tree at the index of its height.
    pub empty_tree_lem :
        (db : Db) (height : ℕ) (f : L)
        → LeafHashes lc f
        → NoClash db (map (entry lc) (empty_facts height f))
        → EmptyTree db height f
    unfolding empty_tree empty_tree_roots
    empty_tree_lem db height f ok nc =
        let b = digest lc f in
        let new = Dict.update db (map (entry lc) (empty_facts height f)) in
        record {
          tree = make_node (top height b) height;
          new_db = new;
          result = rw (set_leaf_lem db f ok) (grow_lem height 0 height b _ ok.hash (omega arith));
          stored = record {
            leaves = uniform-IsTree height b ok.hash;
            tree_eq = ap (λ r. make_node r height) (sym (merkle_root-uniform height b));
            facts =
                uniform-TreeFacts new height height b f (omega arith)
                  (fact_of_entry lc new b (leaf f) ok.reads_back
                    (get-update_new db _ _ _ nc (inl (refl, refl))))
                  (λ k lt.
                    fact_of_entry lc new (top (suc k) b) (inner (make_fact (top k b) (top k b)))
                      (MerkleNodeFact-ReadsBack (top k b) (top k b) (top-IsHash k b ok.hash)
                        (top-IsHash k b ok.hash))
                      (get-update_new db _ _ _ nc
                        (inr (Listed-entry lc (chain height b) _ _ (chain-Listed height k b lt)))));
          };
          in_roots =
              λ m le. (b ∷ next_roots hash_func m b, rw ok.hashes, next_roots-get m height b le);
        }
