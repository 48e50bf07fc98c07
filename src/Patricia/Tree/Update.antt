-- ===== src/Patricia/Tree/Update.antt =====
-- PatriciaTree.update on a stored tree: the new root, and the facts in the storage.
use starkex_data_availabilit.Prelude.{
  ℕ, zero, suc, ◌+◌, ◌-◌, ◌^◌, ◌<◌, ◌≤◌, ◌≡◌, inl, inr, refl, sym, ap, ◌∙◌, none, some, arith, List,
  [], ◌∷◌, List_eq, ℕ_eq, false, Bool-cases, Option-cases, subst, All, length, ltb-false, lt→ltb,
  ◌==◌,
}
use starkex_data_availabilit.Prelude.Dict
use starkex_data_availabilit.Bytes.{Bytes}
use starkex_data_availabilit.Storage.{Db, get_or_fail}
use starkex_data_availabilit.CommitmentTree.Leaf.{LeafClass}
use starkex_data_availabilit.CommitmentTree.UpdateTree.{
  UpdateTree, no_update, leaf, pair, build_update_tree,
}
use starkex_data_availabilit.CommitmentTree.UpdateTree.Correct.{
  update_at, HasDepth, InRange, build_update_tree_lem, two_pow,
}
use starkex_data_availabilit.CommitmentTree.Traversal.{build_updated_calculation}
use starkex_data_availabilit.CommitmentTree.Traversal.Queue.{weight}
use starkex_data_availabilit.CommitmentTree.Traversal.Result.{build_updated_calculation_lem}
use starkex_data_availabilit.Patricia.Nodes.{HashFunc}
use starkex_data_availabilit.Patricia.Spec.{Tree, IsTree, IsHashFunc, IsEdge, virtual, root}
use starkex_data_availabilit.Patricia.Spec.Bounds.{virtual-IsEdge}
use starkex_data_availabilit.Patricia.VirtualNode.{from_hash}
use starkex_data_availabilit.Patricia.VirtualNode.Represents.{EdgeStored, Stored}
use starkex_data_availabilit.Patricia.Calculation.{VirtualCalculationNode, commit}
use starkex_data_availabilit.Patricia.Calculation.Meaning.{LeafOk, digest, calc_hash, calc_facts}
use starkex_data_availabilit.Patricia.Calculation.Decommit.{Extends, CalcRepresents}
use starkex_data_availabilit.Patricia.Calculation.Combine.{commit_lem, height_of}
use starkex_data_availabilit.Patricia.Update.{patricia_ops, leaf_at, updated, LeavesOk}
use starkex_data_availabilit.Patricia.Update.Kept.{
  Has, Has-AllStored, commit-Has, updated_calculation-Has,
}
use starkex_data_availabilit.Patricia.Update.Subtree.{
  updated-IsTree, new_leaf, leaf_at-updated, updated_calculation-CalcRepresents,
}
use starkex_data_availabilit.Patricia.Tree.{PatriciaTree, update, update_tree}
use starkex_data_availabilit.Patricia.Tree.Facts.{NoCollision, written_lem, written-old}
use starkex_data_availabilit.Patricia.Tree.Finish.{tail, finish_lem}

module _ {L : Type 0} (lc : LeafClass L) where
  last_of-All :
      (mods : List (ℕ × L)) (i : ℕ) (fact : L)
      → All (λ (m : ℕ × L). LeafOk lc m.1) mods
      → Dict.last_of mods i ≡ some fact
      → LeafOk lc fact
  last_of-All [] i fact ok e = absurd (cc e)
  last_of-All ((j, x) ∷ mods) i fact (ox, ok) e = elim (Option-cases (Dict.last_of mods i)) [
    | inl n ↦ elim (Bool-cases (j == i)) [
      | inl s ↦ let r : some x ≡ some fact = rw (n, s) at e in same r ox
      | inr s ↦ let r : none ≡ some fact = rw (n, s) at e in absurd (cc r)
    ]
    | inr (y, s) ↦ last_of-All mods i fact ok (let r : some y ≡ some fact = rw (s) at e in s ∙ r)
  ]
    where
      same : {x y : L} → some x ≡ some y → LeafOk lc x → LeafOk lc y
      same {x} {y} e ok = subst (LeafOk lc) (cc e) ok

  LeavesOk-of_lookups :
      (h : ℕ) (u : UpdateTree L)
      → HasDepth u h
      → ((i : ℕ) (fact : L) → i < 2 ^ h → update_at u h i ≡ some fact → LeafOk lc fact)
      → LeavesOk lc u
  LeavesOk-of_lookups h no_update d ok = tt
  LeavesOk-of_lookups zero (leaf fact) d ok = ok 0 fact (omega arith) refl
  LeavesOk-of_lookups (suc h) (leaf fact) d ok = absurd d
  LeavesOk-of_lookups zero (pair l r) d ok = absurd d
  LeavesOk-of_lookups (suc h) (pair l r) d ok = (
    LeavesOk-of_lookups h l d.0
        (λ i fact lt e. ok i fact (omega (arith, two_pow h)) (rw (lt→ltb i (2 ^ h) lt) e)),
    LeavesOk-of_lookups h r d.1 (λ i fact lt e.
        ok (2 ^ h + i) fact (omega (arith, two_pow h))
          (rw (ltb-false (2 ^ h + i) (2 ^ h) (omega arith), left_out (2 ^ h) i) e)),
  )
    where
      left_out : (p i : ℕ) → (p + i) - p ≡ i
      left_out p i = omega arith

module _ {L : Type 0} (hash_func : HashFunc) (good : IsHashFunc hash_func) (lc : LeafClass L) where
  -- A storage holds the tree with the given leaf hashes under the given root.
  pub record TreeStored (db : Db) (tree : PatriciaTree) (h : ℕ) (t : Tree h) : Type 0 where
    pub small : h < 256
    pub leaves : IsTree h t
    pub tree_eq : tree ≡ record { root = root hash_func h t; height = h }
    pub below : Stored hash_func db h t
    pub top : EdgeStored hash_func db (virtual hash_func h t)

  -- The facts of the update, as far as the traversal gets: none collides.
  abbrev pub CollisionFree : List ℕ → Db → PatriciaTree → List (ℕ × L) → Type 0
  CollisionFree schedule db tree mods =
      (c : VirtualCalculationNode L)
      → build_updated_calculation (patricia_ops lc db) schedule (from_hash tree.root tree.height)
          tree.height mods
        ≡ some c
      → NoCollision hash_func good lc db (calc_facts hash_func lc (commit c))

  calc_path :
      (db : Db) (h : ℕ) (t : Tree h) (c : VirtualCalculationNode L)
      → IsTree h t
      → CalcRepresents hash_func lc db h t c
      → c.path < 2 ^ c.length
  calc_path db h t c w rep = elim rep.shape [
    | inl can ↦ (subst (IsEdge h) (sym can.triple_eq) (virtual-IsEdge hash_func good h t w)).path
    | inr comm ↦ rw (comm.path, comm.length) (omega arith)
  ]

  update_runs :
      (schedule : List ℕ) (db db' : Db) (tree tree' : PatriciaTree) (mods : List (ℕ × L))
      (c : VirtualCalculationNode L)
      → build_updated_calculation
          (patricia_ops lc db)
          schedule
          (from_hash tree.root tree.height)
          tree.height
          mods
        ≡ some c
      → tail hash_func good lc db c ≡ some (tree', db')
      → update hash_func lc schedule db tree mods ≡ some (tree', db')
  unfolding update update_tree
  update_runs schedule db db' tree tree' mods c e f = rw (e) f

  -- What an update returns: the tree of the new leaf hashes, in a storage that keeps all it had.
  pub record Updates (schedule : List ℕ) (db : Db) (tree : PatriciaTree) (mods : List (ℕ × L))
      (h : ℕ) (t : Tree h) : Type 0 where
    pub new_tree : PatriciaTree
    pub new_db : Db
    pub leaves : Tree h
    pub result : update hash_func lc schedule db tree mods ≡ some (new_tree, new_db)
    pub leaves_eq :
        (i : ℕ) → i < 2 ^ h → leaf_at h leaves i ≡ new_leaf lc (Dict.last_of mods i) (leaf_at h t i)
    pub stored : TreeStored new_db new_tree h leaves
    pub extends : Extends db new_db
    pub old_leaves :
        (k : Bytes) (f : L)
        → get_or_fail lc.cls db k ≡ some f
        → get_or_fail lc.cls new_db k ≡ some f
    pub new_leaves :
        (i : ℕ) (f : L)
        → i < 2 ^ h
        → Dict.last_of mods i ≡ some f
        → lc.is_empty f ≡ false
        → get_or_fail lc.cls new_db (digest lc f) ≡ some f

  update_finishes :
      (schedule : List ℕ) (db : Db) (h : ℕ) (t : Tree h) (mods : List (ℕ × L)) (u : UpdateTree L)
      (c : VirtualCalculationNode L)
      → TreeStored db (record { root = root hash_func h t; height = h }) h t
      → IsTree h (updated lc h t u)
      → ((i : ℕ)
          → i < 2 ^ h
          → leaf_at h (updated lc h t u) i ≡ new_leaf lc (Dict.last_of mods i) (leaf_at h t i))
      → build_updated_calculation
          (patricia_ops lc db)
          schedule
          (from_hash (root hash_func h t) h)
          h
          mods
        ≡ some c
      → CalcRepresents hash_func lc db h (updated lc h t u) c
      → NoCollision hash_func good lc db (calc_facts hash_func lc (commit c))
      → ((i : ℕ) (f : L)
          → i < 2 ^ h
          → Dict.last_of mods i ≡ some f
          → lc.is_empty f ≡ false
          → Has f c.bottom_calculation)
      → Updates schedule db (record { root = root hash_func h t; height = h }) mods h t
  unfolding root
  update_finishes schedule db h t mods u c ts w at built rep nc has =
      let t' : Tree h = updated lc h t u in
      let k = commit_lem hash_func good lc db h t' c ts.small w rep in
      let fin =
        finish_lem hash_func good lc db c rep.builds.ok k.ok (calc_path db h t' c w rep) nc in
      let db' = Dict.update db fin.writes in
      let (ext, all) =
        written_lem hash_func good lc db (commit c) k.ok nc fin.writes fin.sound fin.complete in
      let (below, top) = k.stored db' ext all in
      record {
        new_tree = record { root = calc_hash hash_func lc (commit c); height = c.height };
        new_db = db';
        leaves = t';
        result =
            update_runs schedule db db' (record { root = root hash_func h t; height = h }) _ mods c
              built fin.result;
        leaves_eq = at;
        stored = record {
          small = ts.small;
          leaves = w;
          tree_eq =
              λ i. record { root = k.hash i; height = height_of hash_func good lc db h t' c rep i };
          below = rep.builds.stores db' ext below;
          top = top;
        };
        extends = ext;
        old_leaves = written-old hash_func good lc db (commit c) k.ok nc fin.writes fin.sound;
        new_leaves = λ i f lt e ne.
            Has-AllStored f hash_func lc db' (commit c) (commit-Has f c (has i f lt e ne)) all;
      }

  -- The update of a stored tree, by modifications with indices below `2 ^ height` and leaves that
  -- hash to 32 bytes and are read back, under every schedule that visits each node of the update
  -- tree, returns a tree and a storage, if no two of the facts collide. The storage holds the tree
  -- with the leaf hash of the last modification at each modified index, and the old leaf hash at
  -- each other one, under the returned root, and it still holds every node fact it held before.
  pub update_lem :
      (schedule : List ℕ) (db : Db) (tree : PatriciaTree) (h : ℕ) (t : Tree h) (mods : List (ℕ × L))
      → TreeStored db tree h t
      → InRange h mods
      → All (λ (m : ℕ × L). LeafOk lc m.1) mods
      → ((u : UpdateTree L) → build_update_tree h mods ≡ some u → weight u ≤ length schedule)
      → CollisionFree schedule db tree mods
      → Updates schedule db tree mods h t
  update_lem schedule db tree h t mods ts range ok enough free =
      let root_tree : PatriciaTree = record { root = root hash_func h t; height = h } in
      let ts' = subst (λ x. TreeStored db x h t) ts.tree_eq ts in
      let free' = subst (λ x. CollisionFree schedule db x mods) ts.tree_eq free in
      let (u, built, deep, lookups) = build_update_tree_lem h mods range in
      let leaves_ok =
        LeavesOk-of_lookups lc h u deep
          (λ i fact lt e. last_of-All lc mods i fact ok (sym (lookups i lt) ∙ e)) in
      let (c, runs, rep) =
        updated_calculation-CalcRepresents hash_func good lc db h t
          (from_hash (root hash_func h t) h) u ts.small ts.leaves ts.below (inr (refl, ts.top)) deep
          leaves_ok in
      let calc =
        build_updated_calculation_lem (patricia_ops lc db) schedule
          (from_hash (root hash_func h t) h) h mods u c built runs (enough u built) in
      subst (λ x. Updates schedule db x mods h t) (sym ts.tree_eq)
        (update_finishes schedule db h t mods u c ts' (updated-IsTree lc h t u ts.leaves leaves_ok)
          (λ i lt.
            leaf_at-updated lc h t u i deep
            ∙ ap (λ m. new_leaf lc m (leaf_at h t i)) (lookups i lt))
          calc rep (free' c calc)
          (λ i f lt e ne.
            updated_calculation-Has f lc ne db h (from_hash (root hash_func h t) h) u c i runs
              (lookups i lt ∙ e)))
