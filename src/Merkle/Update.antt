-- ===== src/Merkle/Update.antt =====
-- MerkleTree.update on a stored tree.
use starkex_data_availabilit.Prelude.{
  ℕ, zero, suc, ◌+◌, ◌-◌, ◌^◌, ◌<◌, ◌≤◌, ◌≡◌, inl, inr, refl, sym, ap, ap₂, ◌∙◌, none, some, arith,
  List, [], ◌∷◌, ℕ_eq, Bool-cases, Option-cases, subst, All, length, ltb-false, lt→ltb, ◌==◌,
  ==_refl, eqb-suc,
}
use starkex_data_availabilit.Prelude.Dict
use starkex_data_availabilit.Bytes.{Bytes, IsHash}
use starkex_data_availabilit.Storage.{Db, get_or_fail}
use starkex_data_availabilit.CommitmentTree.Leaf.{LeafClass}
use starkex_data_availabilit.CommitmentTree.UpdateTree.{
  UpdateTree, no_update, leaf, pair, build_update_tree,
}
use starkex_data_availabilit.CommitmentTree.UpdateTree.Correct.{
  update_at, HasDepth, InRange, build_update_tree_lem, two_pow,
}
use starkex_data_availabilit.CommitmentTree.Traversal.{
  build_updated_calculation, updated_calculation,
}
use starkex_data_availabilit.CommitmentTree.Traversal.Queue.{weight}
use starkex_data_availabilit.CommitmentTree.Traversal.Result.{build_updated_calculation_lem}
use starkex_data_availabilit.Patricia.Nodes.{HashFunc}
use starkex_data_availabilit.Patricia.Spec.{Tree, IsTree}
use starkex_data_availabilit.Patricia.Update.{leaf_at, updated}
use starkex_data_availabilit.Patricia.Update.Subtree.{new_leaf, leaf_at-updated}
use starkex_data_availabilit.Merkle.{
  make_fact, merkle_class, MerkleTreeNode, make_node, get_children, constant, leaf_fact, binary,
  MerkleCalculationNode, make_calc, combine, merkle_ops, update,
}
use starkex_data_availabilit.Merkle.Hash.{
  GivesHashes, merkle_root, TreeFacts, LeafHashes, calc_hash, calc_facts, CalcOk,
}
use starkex_data_availabilit.Merkle.Facts.{
  Keeps, NoCollision, AllStored, Written, finish_update_lem,
}

module _ {L : Type 0} (lc : LeafClass L) where
  -- The leaves of an update hash as leaves should.
  abbrev pub LeavesHash : UpdateTree L → Type 0
  LeavesHash no_update = Unit
  LeavesHash (leaf fact) = LeafHashes lc fact
  LeavesHash (pair l r) = LeavesHash l × LeavesHash r

  LeavesHash-of_lookups :
      (h : ℕ) (u : UpdateTree L)
      → HasDepth u h
      → ((i : ℕ) (fact : L) → i < 2 ^ h → update_at u h i ≡ some fact → LeafHashes lc fact)
      → LeavesHash u
  LeavesHash-of_lookups h no_update d ok = tt
  LeavesHash-of_lookups zero (leaf fact) d ok = ok 0 fact (omega arith) refl
  LeavesHash-of_lookups (suc h) (leaf fact) d ok = absurd d
  LeavesHash-of_lookups zero (pair l r) d ok = absurd d
  LeavesHash-of_lookups (suc h) (pair l r) d ok = (
    LeavesHash-of_lookups h l d.0
        (λ i fact lt e. ok i fact (omega (arith, two_pow h)) (rw (lt→ltb i (2 ^ h) lt) e)),
    LeavesHash-of_lookups h r d.1 (λ i fact lt e.
        ok (2 ^ h + i) fact (omega (arith, two_pow h))
          (rw (ltb-false (2 ^ h + i) (2 ^ h) (omega arith), left_out (2 ^ h) i) e)),
  )
    where
      left_out : (p i : ℕ) → (p + i) - p ≡ i
      left_out p i = omega arith

  -- The last modification of an index is one of the modifications.
  last_of-All :
      (mods : List (ℕ × L)) (i : ℕ) (fact : L)
      → All (λ (m : ℕ × L). LeafHashes lc m.1) mods
      → Dict.last_of mods i ≡ some fact
      → LeafHashes lc fact
  last_of-All [] i fact ok e = absurd (cc e)
  last_of-All ((j, x) ∷ mods) i fact (ox, ok) e = elim (Option-cases (Dict.last_of mods i)) [
    | inl n ↦ elim (Bool-cases (j == i)) [
      | inl s ↦ let r : some x ≡ some fact = rw (n, s) at e in same r ox
      | inr s ↦ let r : none ≡ some fact = rw (n, s) at e in absurd (cc r)
    ]
    | inr (y, s) ↦ last_of-All mods i fact ok (let r : some y ≡ some fact = rw (s) at e in s ∙ r)
  ]
    where
      same : {x y : L} → some x ≡ some y → LeafHashes lc x → LeafHashes lc y
      same {x} {y} e ok = subst (LeafHashes lc) (cc e) ok

  updated-IsTree :
      (h : ℕ) (t : Tree h) (u : UpdateTree L)
      → IsTree h t
      → LeavesHash u
      → IsTree h (updated lc h t u)
  updated-IsTree zero t no_update w ok = w
  updated-IsTree zero t (leaf fact) w ok = ok.hash
  updated-IsTree zero t (pair l r) w ok = w
  updated-IsTree (suc h) t no_update w ok = w
  updated-IsTree (suc h) t (leaf fact) w ok = w
  updated-IsTree (suc h) t (pair l r) w ok =
      (updated-IsTree h t.0 l w.0 ok.0, updated-IsTree h t.1 r w.1 ok.1)

module _ {L : Type 0} (hash_func : HashFunc) (good : GivesHashes hash_func) (lc : LeafClass L) where
  merkle_root-IsHash : (h : ℕ) (t : Tree h) → IsTree h t → IsHash (merkle_root hash_func h t)
  merkle_root-IsHash zero t w = w
  merkle_root-IsHash (suc h) t w =
      good _ _ (merkle_root-IsHash h t.0 w.0) (merkle_root-IsHash h t.1 w.1)

  TreeFacts-Keeps :
      (db db' : Db) (h : ℕ) (t : Tree h)
      → Keeps lc db db'
      → TreeFacts hash_func lc db h t
      → TreeFacts hash_func lc db' h t
  TreeFacts-Keeps db db' zero t k (f, e) = (f, k.leaves t f e)
  TreeFacts-Keeps db db' (suc h) t k (l, r, e) =
      (TreeFacts-Keeps db db' h t.0 k l, TreeFacts-Keeps db db' h t.1 k r, k.nodes _ _ e)

  -- A calculation of the root of a tree, whose facts complete the storage of the tree.
  pub record Computes (db : Db) (h : ℕ) (t : Tree h) (c : MerkleCalculationNode L) : Type 0 where
    pub height : c.height ≡ h
    pub hash : calc_hash hash_func lc c.root_calculation ≡ merkle_root hash_func h t
    pub ok : CalcOk hash_func lc c.root_calculation
    pub stores :
        (db' : Db)
        → Keeps lc db db'
        → AllStored hash_func lc db' c.root_calculation
        → TreeFacts hash_func lc db' h t

  module _ (db : Db) where
    abbrev Runs : (h : ℕ) → Tree h → UpdateTree L → Type 0
    Runs h t u =
        (c : MerkleCalculationNode L) × (updated_calculation (merkle_ops db)
            (make_node (merkle_root hash_func h t) h) u
          ≡ some c)
        × Computes db h (updated lc h t u) c

    runs_no_update :
        (h : ℕ) (t : Tree h)
        → IsTree h t
        → TreeFacts hash_func lc db h t
        → (c : MerkleCalculationNode L) × (updated_calculation
              (merkle_ops db)
              (make_node (merkle_root hash_func h t) h)
              no_update
            ≡ some c)
          × Computes db h t c
    unfolding updated_calculation merkle_ops
    runs_no_update h t w st = (
      make_calc (constant (merkle_root hash_func h t)) h,
      refl,
      record {
        height = refl;
        hash = refl;
        ok = merkle_root-IsHash h t w;
        stores = λ db' k _. TreeFacts-Keeps db db' h t k st;
      },
    )

    get_children_lem :
        (h : ℕ) (b b0 b1 : Bytes)
        → get_or_fail merkle_class db b ≡ some (make_fact b0 b1)
        → get_children db (make_node b (suc h)) ≡ some (make_node b0 h, make_node b1 h)
    unfolding get_children
    get_children_lem h b b0 b1 e = let k : suc h - 1 ≡ h = omega arith in rw (e, k)

    combine_lem :
        (h : ℕ) (x y : MerkleCalculationNode L)
        → x.height ≡ h
        → y.height ≡ h
        → combine x y ≡ some (make_calc (binary x.root_calculation y.root_calculation) (h + 1))
    unfolding combine
    combine_lem h x y hx hy = rw (hx, hy, ==_refl h)

    pair_runs :
        (h : ℕ) (b b0 b1 : Bytes) (l r : UpdateTree L) (x y : MerkleCalculationNode L)
        → get_or_fail merkle_class db b ≡ some (make_fact b0 b1)
        → updated_calculation (merkle_ops db) (make_node b0 h) l ≡ some x
        → updated_calculation (merkle_ops db) (make_node b1 h) r ≡ some y
        → x.height ≡ h
        → y.height ≡ h
        → updated_calculation (merkle_ops db) (make_node b (suc h)) (pair l r)
          ≡ some (make_calc (binary x.root_calculation y.root_calculation) (h + 1))
    unfolding updated_calculation merkle_ops
    pair_runs h b b0 b1 l r x y e ex ey hx hy =
        rw (eqb-suc h, get_children_lem h b b0 b1 e, ex, ey, combine_lem h x y hx hy)

    pair-Computes :
        (h : ℕ) (t : Tree (suc h)) (x y : MerkleCalculationNode L)
        → Computes db h t.0 x
        → Computes db h t.1 y
        → Computes db (suc h) t (make_calc (binary x.root_calculation y.root_calculation) (h + 1))
    pair-Computes h t x y cx cy = record {
      height = omega arith;
      hash = ap₂ hash_func cx.hash cy.hash;
      ok = (cx.ok, cy.ok);
      stores = λ db' k all. (
        cx.stores db' k all.0,
        cy.stores db' k all.1,
        ap (get_or_fail merkle_class db') (sym (ap₂ hash_func cx.hash cy.hash))
            ∙ all.2
            ∙ ap₂ (λ a b. some (make_fact a b)) cx.hash cy.hash,
      );
    }

    -- Over a stored tree the update runs through, and its calculation is that of the updated tree.
    pub updated_calculation-Computes :
        (h : ℕ) (t : Tree h) (u : UpdateTree L)
        → IsTree h t
        → TreeFacts hash_func lc db h t
        → HasDepth u h
        → LeavesHash lc u
        → Runs h t u
    unfolding updated_calculation merkle_ops
    updated_calculation-Computes zero t no_update w st d ok = runs_no_update zero t w st
    updated_calculation-Computes (suc h) t no_update w st d ok = runs_no_update (suc h) t w st
    updated_calculation-Computes zero t (leaf fact) w st d ok = (
      make_calc (leaf_fact fact) 0,
      refl,
      record { height = refl; hash = refl; ok = ok; stores = λ db' k all. (fact, all) },
    )
    updated_calculation-Computes (suc h) t (leaf fact) w st d ok = absurd d
    updated_calculation-Computes zero t (pair l r) w st d ok = absurd d
    updated_calculation-Computes (suc h) t (pair l r) w st d ok =
        let (x, ex, cx) = updated_calculation-Computes h t.0 l w.0 st.0 d.0 ok.0 in
        let (y, ey, cy) = updated_calculation-Computes h t.1 r w.1 st.1 d.1 ok.1 in
        (
          make_calc (binary x.root_calculation y.root_calculation) (h + 1),
          pair_runs h _ _ _ l r x y st.2 ex ey cx.height cy.height,
          pair-Computes h (updated lc (suc h) t (pair l r)) x y cx cy,
        )

  -- A storage holds the tree with the given leaf hashes under the given root, with its leaves.
  pub record TreeStored (db : Db) (tree : MerkleTreeNode) (h : ℕ) (t : Tree h) : Type 0 where
    pub leaves : IsTree h t
    pub tree_eq : tree ≡ make_node (merkle_root hash_func h t) h
    pub facts : TreeFacts hash_func lc db h t

  -- The facts of the update, as far as the traversal gets: none collides.
  abbrev pub CollisionFree : List ℕ → Db → MerkleTreeNode → List (ℕ × L) → Type 0
  CollisionFree schedule db tree mods =
      (c : MerkleCalculationNode L)
      → build_updated_calculation (merkle_ops db) schedule tree tree.height mods ≡ some c
      → NoCollision hash_func lc db (calc_facts hash_func lc c.root_calculation)

  -- What an update returns: the tree of the new leaf hashes, in a storage that keeps all it had.
  pub record Updates (schedule : List ℕ) (db : Db) (tree : MerkleTreeNode) (mods : List (ℕ × L))
      (h : ℕ) (t : Tree h) : Type 0 where
    pub new_tree : MerkleTreeNode
    pub new_db : Db
    pub leaves : Tree h
    pub result : update hash_func lc schedule db tree mods ≡ some (new_tree, new_db)
    pub leaves_eq :
        (i : ℕ) → i < 2 ^ h → leaf_at h leaves i ≡ new_leaf lc (Dict.last_of mods i) (leaf_at h t i)
    pub stored : TreeStored new_db new_tree h leaves
    pub keeps : Keeps lc db new_db

  update_finishes :
      (schedule : List ℕ) (db : Db) (h : ℕ) (t t' : Tree h) (mods : List (ℕ × L))
      (c : MerkleCalculationNode L)
      → IsTree h t'
      → ((i : ℕ) → i < 2 ^ h → leaf_at h t' i ≡ new_leaf lc (Dict.last_of mods i) (leaf_at h t i))
      → build_updated_calculation
          (merkle_ops db)
          schedule
          (make_node (merkle_root hash_func h t) h)
          h
          mods
        ≡ some c
      → Computes db h t' c
      → Written hash_func lc db c
      → Updates schedule db (make_node (merkle_root hash_func h t) h) mods h t
  unfolding update
  update_finishes schedule db h t t' mods c w at built comp wr = record {
    new_tree = make_node (calc_hash hash_func lc c.root_calculation) c.height;
    new_db = wr.new_db;
    leaves = t';
    result = rw (built) (wr.result);
    leaves_eq = at;
    stored = record {
      leaves = w;
      tree_eq = λ i. make_node (comp.hash i) (comp.height i);
      facts = comp.stores wr.new_db wr.keeps wr.stored;
    };
    keeps = wr.keeps;
  }

  -- The update of a stored Merkle tree, by modifications with indices below `2 ^ height` and leaves
  -- that hash to 32 bytes and are read back, under every schedule that visits each node of the update
  -- tree, returns a tree and a storage, if no two of the facts collide. The storage holds the tree
  -- with the leaf hash of the last modification at each modified index, and the old leaf hash at each
  -- other one, with the facts of all its leaves, under the returned root, and it keeps all old facts.
  pub merkle_update_lem :
      (schedule : List ℕ) (db : Db) (tree : MerkleTreeNode) (h : ℕ) (t : Tree h)
      (mods : List (ℕ × L))
      → TreeStored db tree h t
      → InRange h mods
      → All (λ (m : ℕ × L). LeafHashes lc m.1) mods
      → ((u : UpdateTree L) → build_update_tree h mods ≡ some u → weight u ≤ length schedule)
      → CollisionFree schedule db tree mods
      → Updates schedule db tree mods h t
  merkle_update_lem schedule db tree h t mods ts range ok enough free =
      let free' = subst (λ x. CollisionFree schedule db x mods) ts.tree_eq free in
      let (u, built, deep, lookups) = build_update_tree_lem h mods range in
      let leaves_ok =
        LeavesHash-of_lookups lc h u deep
          (λ i fact lt e. last_of-All lc mods i fact ok (sym (lookups i lt) ∙ e)) in
      let (c, runs, comp) =
        updated_calculation-Computes db h t u ts.leaves ts.facts deep leaves_ok in
      let calc =
        build_updated_calculation_lem (merkle_ops db) schedule
          (make_node (merkle_root hash_func h t) h) h mods u c built runs (enough u built) in
      subst (λ x. Updates schedule db x mods h t) (sym ts.tree_eq)
        (update_finishes schedule db h t (updated lc h t u) mods c
          (updated-IsTree lc h t u ts.leaves leaves_ok)
          (λ i lt.
            leaf_at-updated lc h t u i deep
            ∙ ap (λ m. new_leaf lc m (leaf_at h t i)) (lookups i lt))
          calc comp (finish_update_lem hash_func lc db c good comp.ok (free' c calc)))
