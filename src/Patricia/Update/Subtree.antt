-- ===== src/Patricia/Update/Subtree.antt =====
-- The traversal of an update over a stored Patricia tree, by recursion on the update.
use starkex_data_availabilit.Prelude.{
  ℕ, zero, suc, ◌-◌, ◌^◌, ◌<◌, ◌≡◌, inl, inr, refl, ap, Option, some, none, arith, Bool, true,
  false, ◌==◌, ℕ_eq, ltb, if◌then◌else◌,
}
use starkex_data_availabilit.Bytes.{Bytes}
use starkex_data_availabilit.Storage.{Db}
use starkex_data_availabilit.CommitmentTree.Leaf.{LeafClass}
use starkex_data_availabilit.CommitmentTree.UpdateTree.{UpdateTree, no_update, leaf, pair}
use starkex_data_availabilit.CommitmentTree.UpdateTree.Correct.{update_at, HasDepth}
use starkex_data_availabilit.CommitmentTree.Traversal.{updated_calculation}
use starkex_data_availabilit.Patricia.Nodes.{HashFunc}
use starkex_data_availabilit.Patricia.Spec.{Tree, virtual, IsTree, IsHashFunc}
use starkex_data_availabilit.Patricia.VirtualNode.{VirtualPatriciaNode, get_children}
use starkex_data_availabilit.Patricia.VirtualNode.Represents.{Stored, Represents}
use starkex_data_availabilit.Patricia.VirtualNode.Children.{get_children-Represents}
use starkex_data_availabilit.Patricia.Calculation.{
  VirtualCalculationNode, combine, create_from_node, create_from_fact,
}
use starkex_data_availabilit.Patricia.Calculation.Meaning.{digest, LeafOk}
use starkex_data_availabilit.Patricia.Calculation.Decommit.{CalcRepresents}
use starkex_data_availabilit.Patricia.Calculation.Combine.{combine-CalcRepresents}
use starkex_data_availabilit.Patricia.Update.{patricia_ops, leaf_at, updated, LeavesOk}
use starkex_data_availabilit.Patricia.Update.FromNode.{create_from_node_lem}

module _ {L : Type 0} (lc : LeafClass L) where
  pub updated-IsTree :
      (h : ℕ) (t : Tree h) (u : UpdateTree L)
      → IsTree h t
      → LeavesOk lc u
      → IsTree h (updated lc h t u)
  updated-IsTree zero t no_update w ok = w
  updated-IsTree zero t (leaf fact) w ok = ok.hash
  updated-IsTree zero t (pair l r) w ok = w
  updated-IsTree (suc h) t no_update w ok = w
  updated-IsTree (suc h) t (leaf fact) w ok = w
  updated-IsTree (suc h) t (pair l r) w ok =
      (updated-IsTree h t.0 l w.0 ok.0, updated-IsTree h t.1 r w.1 ok.1)

  -- The leaf hash by the modification of the leaf, if there is one.
  abbrev pub new_leaf : Option L → Bytes → Bytes
  new_leaf none old = old
  new_leaf (some fact) old = digest lc fact

  in_half :
      (b : Bool) (m n : Option L) (old_x old_y : Bytes) {x y : Bytes}
      → x ≡ new_leaf m old_x
      → y ≡ new_leaf n old_y
      → (if b then x else y) ≡ new_leaf (if b then m else n) (if b then old_x else old_y)
  in_half true m n old_x old_y p q = p
  in_half false m n old_x old_y p q = q

  -- After an update that has its leaves at the bottom, each leaf hash is that of the update's leaf
  -- at this index, and the old one where the update has none.
  pub leaf_at-updated :
      (h : ℕ) (t : Tree h) (u : UpdateTree L) (i : ℕ)
      → HasDepth u h
      → leaf_at h (updated lc h t u) i ≡ new_leaf (update_at u h i) (leaf_at h t i)
  leaf_at-updated zero t no_update i d = refl
  leaf_at-updated zero t (leaf fact) i d = refl
  leaf_at-updated zero t (pair l r) i d = absurd d
  leaf_at-updated (suc h) t no_update i d = refl
  leaf_at-updated (suc h) t (leaf fact) i d = absurd d
  leaf_at-updated (suc h) t (pair l r) i d =
      let hl = leaf_at-updated h t.0 l i d.0 in
      let hr = leaf_at-updated h t.1 r (i - 2 ^ h) d.1 in in_half (ltb i (2 ^ h)) _ _ _ _ hl hr

module _ {L : Type 0} (hash_func : HashFunc) (good : IsHashFunc hash_func) (lc : LeafClass L)
    (db : Db) where
  abbrev pub Runs : (h : ℕ) → Tree h → VirtualPatriciaNode → UpdateTree L → Type 0
  Runs h t node u =
      (c : VirtualCalculationNode L) × (updated_calculation (patricia_ops lc db) node u ≡ some c)
      × CalcRepresents hash_func lc db h (updated lc h t u) c

  height_of_node :
      (h : ℕ) (t : Tree h) (node : VirtualPatriciaNode)
      → Represents hash_func db h t node
      → node.height ≡ h
  height_of_node h t node rep = elim rep [
    | inl e ↦ ap (λ (n : VirtualPatriciaNode). n.height) e
    | inr (e, _) ↦ ap (λ (n : VirtualPatriciaNode). n.height) e
  ]

  leaf-Runs :
      (t : Tree zero) (node : VirtualPatriciaNode) (fact : L)
      → Represents hash_func db zero t node
      → LeafOk lc fact
      → Runs zero t node (leaf fact)
  unfolding updated_calculation patricia_ops create_from_fact virtual
  leaf-Runs t node fact rep ok = (
    create_from_fact fact,
    rw (height_of_node zero t node rep),
    record {
      shape = inl (record { height = refl; triple_eq = refl; bottom = tt });
      builds = record { ok = ok; stores = λ _ _ _. tt };
    },
  )

  runs_no_update :
      (node : VirtualPatriciaNode)
      → updated_calculation (patricia_ops lc db) node no_update ≡ some (create_from_node node)
  unfolding updated_calculation patricia_ops
  runs_no_update node = refl

  pair_runs :
      (node a b : VirtualPatriciaNode) (l r : UpdateTree L) (x y c : VirtualCalculationNode L)
      → (node.height == 0) ≡ false
      → get_children db node ≡ some (a, b)
      → updated_calculation (patricia_ops lc db) a l ≡ some x
      → updated_calculation (patricia_ops lc db) b r ≡ some y
      → combine lc db x y ≡ some c
      → updated_calculation (patricia_ops lc db) node (pair l r) ≡ some c
  unfolding updated_calculation patricia_ops
  pair_runs node a b l r x y c above kids ra rb cc = rw (above, kids, ra, rb, cc)

  -- Over a stored tree and a node that stands for it, the update runs through, and its calculation
  -- stands for the updated tree.
  pub updated_calculation-CalcRepresents :
      (h : ℕ) (t : Tree h) (node : VirtualPatriciaNode) (u : UpdateTree L)
      → h < 256
      → IsTree h t
      → Stored hash_func db h t
      → Represents hash_func db h t node
      → HasDepth u h
      → LeavesOk lc u
      → Runs h t node u
  updated_calculation-CalcRepresents zero t node no_update small w st rep d ok = (
    create_from_node node,
    runs_no_update node,
    create_from_node_lem hash_func good lc db zero t w st node small rep,
  )
  updated_calculation-CalcRepresents (suc h) t node no_update small w st rep d ok = (
    create_from_node node,
    runs_no_update node,
    create_from_node_lem hash_func good lc db (suc h) t w st node small rep,
  )
  updated_calculation-CalcRepresents zero t node (leaf fact) small w st rep d ok =
      leaf-Runs t node fact rep ok
  updated_calculation-CalcRepresents (suc h) t node (leaf fact) small w st rep d ok = absurd d
  updated_calculation-CalcRepresents zero t node (pair l r) small w st rep d ok = absurd d
  updated_calculation-CalcRepresents (suc h) t node (pair l r) small w st rep d ok =
      let (a, b, kids, ra, rb) =
        get_children-Represents hash_func good db h t node small w st rep in
      let (x, ex, rx) =
        updated_calculation-CalcRepresents h t.0 a l (omega arith) w.0 st.0 ra d.0 ok.0 in
      let (y, ey, ry) =
        updated_calculation-CalcRepresents h t.1 b r (omega arith) w.1 st.1 rb d.1 ok.1 in
      let (c, ec, rc) =
        combine-CalcRepresents hash_func good lc db h (updated lc (suc h) t (pair l r)) x y small
          (updated-IsTree lc (suc h) t (pair l r) w ok) rx ry in
      (
        c,
        pair_runs node a b l r x y c (above (height_of_node (suc h) t node rep)) kids ex ey ec,
        rc,
      )
    where
      above : {h n : ℕ} → n ≡ suc h → (n == 0) ≡ false
      above e = ground arith
