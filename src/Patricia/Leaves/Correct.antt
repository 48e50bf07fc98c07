-- ===== src/Patricia/Leaves/Correct.antt =====
-- `_get_leaves` reads the leaves of the tree that its node stands for.
use starkex_data_availabilit.Prelude.{
  ℕ, zero, suc, ◌+◌, ◌^◌, ◌<◌, ◌≡◌, refl, sym, ap, ◌∙◌, subst, arith, false, inl, inr, Option, some,
  List, [], ◌∷◌, ◌==◌, ℕ_eq, eqb_iff, Bool-cases,
}
use starkex_data_availabilit.Prelude.Dict.{Dict}
use starkex_data_availabilit.Bytes.{Bytes}
use starkex_data_availabilit.Storage.{Db, DbClass, get_or_fail}
use starkex_data_availabilit.Patricia.Nodes.{HashFunc}
use starkex_data_availabilit.Patricia.Spec.{Tree, virtual, root, commitment, IsHashFunc}
use starkex_data_availabilit.Patricia.VirtualNode.{VirtualPatriciaNode, from_hash}
use starkex_data_availabilit.Patricia.VirtualNode.Represents.{node_of, Represents}
use starkex_data_availabilit.Patricia.Update.{leaf_at}
use starkex_data_availabilit.CommitmentTree.Leaf.{LeafClass}
use starkex_data_availabilit.Patricia.Tree.{PatriciaTree}
use starkex_data_availabilit.Patricia.Tree.Update.{TreeStored}
use starkex_data_availabilit.Patricia.Leaves.{
  get_edge_node_leaves, get_leaves_below, get_leaves, the_leaf, get_leaf,
}
use starkex_data_availabilit.Patricia.Leaves.Bottom.{bottom_lem}
use starkex_data_availabilit.Patricia.Leaves.Reads.{Reads, Readable}
use starkex_data_availabilit.Patricia.Leaves.Cases.{
  Answer, Correct, get_leaf_node_lem, get_binary_node_leaves_lem, get_edge_node_leaves_lem,
  get_leaves_below-nil, get_leaves_below-leaf, get_leaves_below-edge, get_leaves_below-binary,
}

module _ {L : Type 0} (hash_func : HashFunc) (good : IsHashFunc hash_func) (cls : DbClass L)
    (db : Db) where
  Answer-of_eq :
      (leaf_hash : ℕ → Bytes) (is : List ℕ) (a b : Option (Dict ℕ L))
      → a ≡ b
      → Answer hash_func good cls db leaf_hash is b
      → Answer hash_func good cls db leaf_hash is a
  Answer-of_eq leaf_hash is a b e ans = (ans.0, e ∙ ans.1, ans.2)

  leaf_of_rep :
      (t : Bytes) (node : VirtualPatriciaNode)
      → Represents hash_func db 0 t node
      → node ≡ from_hash t 0
  unfolding virtual root commitment
  leaf_of_rep t node (inl p) = p
  leaf_of_rep t node (inr (p, s)) = p

  height_of_rep :
      (h : ℕ) (t : Tree h) (node : VirtualPatriciaNode)
      → Represents hash_func db h t node
      → node.height ≡ h
  height_of_rep h t node (inl p) = ap (λ n. n.height) p
  height_of_rep h t node (inr (p, s)) = ap (λ n. n.height) p

  edge_of_rep :
      (h : ℕ) (t : Tree h) (node : VirtualPatriciaNode)
      → Represents hash_func db h t node
      → (node.length == 0) ≡ false
      → node ≡ node_of h (virtual hash_func h t)
  edge_of_rep h t node (inl p) e = p
  edge_of_rep h t node (inr (p, s)) e =
      let q : node.length ≡ 0 = ap (λ n. n.length) p in absurd (ground (arith, e))

  -- Given more fuel than the height, below 256, the call on a node that stands for a stored tree
  -- returns exactly the leaves at the indices, provided that those are in the tree and their leaves
  -- are stored.
  pub get_leaves_below_lem :
      (fuel : ℕ) → Correct hash_func good cls db fuel (get_leaves_below cls db fuel)
  get_leaves_below_lem zero h t node is lt small w st rep ok = absurd (omega (arith, lt))
  get_leaves_below_lem (suc fuel) h t node [] lt small w st rep ok = (
    [],
    get_leaves_below-nil hash_func good cls db (suc fuel) node,
    record { dict = tt; get = λ i. refl },
  )
  get_leaves_below_lem (suc fuel) zero t node (i ∷ is) lt small w st rep ok =
      subst
        (λ n.
          Answer hash_func good cls db (λ i. t) (i ∷ is)
            (get_leaves_below cls db (suc fuel) n (i ∷ is)))
        (sym (leaf_of_rep t node rep))
        (Answer-of_eq (λ i. t) (i ∷ is) _ _
          (get_leaves_below-leaf hash_func good cls db fuel t i is)
          (get_leaf_node_lem hash_func good cls db t i is ok))
  get_leaves_below_lem (suc fuel) (suc h) t node (i ∷ is) lt small w st rep ok =
      let eh = height_of_rep (suc h) t node rep in
      let below : Correct hash_func good cls db (suc h) (get_leaves_below cls db fuel) =
        λ k s n js kh ks. get_leaves_below_lem fuel k s n js (omega (arith, kh, lt)) ks in
      let nil = get_leaves_below-nil hash_func good cls db fuel in
      elim (Bool-cases (node.length == 0)) [
        | inl z ↦
            Answer-of_eq (leaf_at (suc h) t) (i ∷ is) _ _
              (get_leaves_below-binary hash_func good cls db fuel h node i is eh z)
              (get_binary_node_leaves_lem hash_func good cls db h _ t node (i ∷ is) below nil eh
                small w st rep ok)
        | inr z ↦
            let q = edge_of_rep (suc h) t node rep z in
            Answer-of_eq (leaf_at (suc h) t) (i ∷ is) _ _
              (get_leaves_below-edge hash_func good cls db fuel h node i is eh z
                ∙ ap (λ n. get_edge_node_leaves cls db (get_leaves_below cls db fuel) n (i ∷ is)) q)
              (get_edge_node_leaves_lem hash_func good cls db (suc h) _ t (i ∷ is) below
                (λ e. long (ap (λ n. n.length) q ∙ e) z) small
                (bottom_lem hash_func good db (suc h) t w st) ok)
      ]
    where
      long : {n : ℕ} → n ≡ 0 → (n == 0) ≡ false → ⊥
      long e z = absurd (ground (arith, e, z))

  -- `list(leaves.items())` has one item, at the index.
  the_leaf_lem :
      (leaf_hash : ℕ → Bytes) (i : ℕ) (f : L) (d : Dict ℕ L)
      → get_or_fail cls db (leaf_hash i) ≡ some f
      → Reads cls db leaf_hash (i ∷ []) d
      → the_leaf i d ≡ some f
  unfolding the_leaf
  the_leaf_lem leaf_hash i f [] e r = let q = r.get i in absurd (ground (arith, e, q, eqb_iff i i))
  the_leaf_lem leaf_hash i f ((j, v) ∷ []) e r =
      let q = r.get i in let p = r.get j in ground (arith, e, q, p, eqb_iff i i, eqb_iff j j)
  the_leaf_lem leaf_hash i f ((j, v) ∷ (k, w) ∷ d) e r =
      let q = r.get j in
      let p = r.get k in
      let u = r.dict.0 in absurd (ground (arith, q, p, u, eqb_iff j j, eqb_iff k k))

module _ {L : Type 0} (hash_func : HashFunc) (good : IsHashFunc hash_func) (lc : LeafClass L) where
  -- `get_leaves` of a stored tree, at indices that are in the tree and whose leaves are stored,
  -- returns a dictionary with exactly the leaves at these indices.
  pub get_leaves_lem :
      (db : Db) (tree : PatriciaTree) (h : ℕ) (t : Tree h) (is : List ℕ)
      → TreeStored hash_func good lc db tree h t
      → Readable lc.cls db (2 ^ h) (leaf_at h t) is
      → (d : Dict ℕ L) × (get_leaves lc.cls db tree is ≡ some d)
        × Reads lc.cls db (leaf_at h t) is d
  unfolding get_leaves
  get_leaves_lem db tree h t is st ok = rw st.tree_eq (
      get_leaves_below_lem hash_func good lc.cls db (h + 1) h t (from_hash (root hash_func h t) h)
        is (omega arith) st.small st.leaves st.below (inr (refl, st.top)) ok)

  -- One leaf of a stored tree.
  pub get_leaf_lem :
      (db : Db) (tree : PatriciaTree) (h : ℕ) (t : Tree h) (i : ℕ) (f : L)
      → TreeStored hash_func good lc db tree h t
      → i < 2 ^ h
      → get_or_fail lc.cls db (leaf_at h t i) ≡ some f
      → get_leaf lc.cls db tree i ≡ some f
  unfolding get_leaf
  get_leaf_lem db tree h t i f st lt e =
      let (d, q, r) = get_leaves_lem db tree h t (i ∷ []) st (λ j p. only j (ground (arith, p))) in
      rw q (the_leaf_lem hash_func good lc.cls db (leaf_at h t) i f d e r)
    where
      only :
          (j : ℕ)
          → i ≡ j
          → (j < 2 ^ h) × ((f : L) × (get_or_fail lc.cls db (leaf_at h t j) ≡ some f))
      only j p =
          subst (λ j. (j < 2 ^ h) × ((f : L) × (get_or_fail lc.cls db (leaf_at h t j) ≡ some f))) p
            (lt, (f, e))
