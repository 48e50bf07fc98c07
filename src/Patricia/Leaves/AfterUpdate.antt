-- ===== src/Patricia/Leaves/AfterUpdate.antt =====
-- The leaves that are read back after PatriciaTree.update.
use starkex_data_availabilit.Prelude.{
  ℕ, ◌^◌, ◌<◌, ◌≤◌, ◌≡◌, sym, ◌∙◌, true, inl, inr, Option, none, some, List, ℕ_eq, Bool-cases,
  Option-cases, All, length,
}
use starkex_data_availabilit.Prelude.Dict
use starkex_data_availabilit.Storage.{Db, get_or_fail}
use starkex_data_availabilit.CommitmentTree.Leaf.{LeafClass}
use starkex_data_availabilit.CommitmentTree.UpdateTree.{UpdateTree, build_update_tree}
use starkex_data_availabilit.CommitmentTree.UpdateTree.Correct.{InRange}
use starkex_data_availabilit.CommitmentTree.Traversal.Queue.{weight}
use starkex_data_availabilit.Patricia.Nodes.{HashFunc}
use starkex_data_availabilit.Patricia.Spec.{Tree, IsHashFunc}
use starkex_data_availabilit.Patricia.Calculation.Meaning.{LeafOk, digest}
use starkex_data_availabilit.Patricia.Update.{leaf_at}
use starkex_data_availabilit.Patricia.Tree.{PatriciaTree, update}
use starkex_data_availabilit.Patricia.Tree.Update.{TreeStored, CollisionFree, Updates, update_lem}
use starkex_data_availabilit.Patricia.Leaves.{get_leaf}
use starkex_data_availabilit.Patricia.Leaves.Correct.{get_leaf_lem}

module _ {L : Type 0} (hash_func : HashFunc) (good : IsHashFunc hash_func) (lc : LeafClass L) where
  -- The leaf of the modification, or else the leaf that was read before.
  abbrev pub read_after : Option L → Option L → Option L
  read_after none old = old
  read_after (some f) old = some f

  -- The facts of all leaves are stored, and that of every empty leaf.
  pub record LeavesStored (db : Db) (h : ℕ) (t : Tree h) : Type 0 where
    pub stored : (i : ℕ) → i < 2 ^ h → (f : L) × (get_or_fail lc.cls db (leaf_at h t i) ≡ some f)
    pub empty : (f : L) → lc.is_empty f ≡ true → get_or_fail lc.cls db (digest lc f) ≡ some f

  module _ (schedule : List ℕ) (db : Db) (tree : PatriciaTree) (h : ℕ) (t : Tree h)
      (mods : List (ℕ × L)) (ts : TreeStored hash_func good lc db tree h t)
      (ls : LeavesStored db h t) (u : Updates hash_func good lc schedule db tree mods h t) where
    new_leaf-stored :
        (i : ℕ) (f : L)
        → i < 2 ^ h
        → Dict.last_of mods i ≡ some f
        → get_or_fail lc.cls u.new_db (leaf_at h u.leaves i) ≡ some f
    new_leaf-stored i f lt e =
        let same : leaf_at h u.leaves i ≡ digest lc f = u.leaves_eq i lt ∙ rw e in
        rw same (elim (Bool-cases (lc.is_empty f)) [
          | inl b ↦ u.old_leaves (digest lc f) f (ls.empty f b)
          | inr b ↦ u.new_leaves i f lt e b
        ])

    old_leaf-stored :
        (i : ℕ) (f : L)
        → i < 2 ^ h
        → Dict.last_of mods i ≡ none
        → get_or_fail lc.cls db (leaf_at h t i) ≡ some f
        → get_or_fail lc.cls u.new_db (leaf_at h u.leaves i) ≡ some f
    old_leaf-stored i f lt e r =
        let same : leaf_at h u.leaves i ≡ leaf_at h t i = u.leaves_eq i lt ∙ rw e in
        rw same (u.old_leaves (leaf_at h t i) f r)

    get_leaf-after :
        (i : ℕ)
        → i < 2 ^ h
        → get_leaf lc.cls u.new_db u.new_tree i
          ≡ read_after (Dict.last_of mods i) (get_leaf lc.cls db tree i)
    get_leaf-after i lt = elim (Option-cases (Dict.last_of mods i)) [
      | inl e ↦
          let (f, r) = ls.stored i lt in
          get_leaf_lem hash_func good lc u.new_db u.new_tree h u.leaves i f u.stored lt
            (old_leaf-stored i f lt e r)
          ∙ sym (rw e (get_leaf_lem hash_func good lc db tree h t i f ts lt r))
      | inr (f, e) ↦
          get_leaf_lem hash_func good lc u.new_db u.new_tree h u.leaves i f u.stored lt
            (new_leaf-stored i f lt e)
          ∙ sym (rw e)
    ]

    leaves_stored : LeavesStored u.new_db h u.leaves
    leaves_stored = record {
      stored = λ i lt. elim (Option-cases (Dict.last_of mods i)) [
        | inl e ↦ let (f, r) = ls.stored i lt in (f, old_leaf-stored i f lt e r)
        | inr (f, e) ↦ (f, new_leaf-stored i f lt e)
      ];
      empty = λ f b. u.old_leaves (digest lc f) f (ls.empty f b);
    }

  -- The results of an update, read leaf by leaf.
  pub record ReadsAfter (schedule : List ℕ) (db : Db) (tree : PatriciaTree) (mods : List (ℕ × L))
      (h : ℕ) : Type 0 where
    pub new_tree : PatriciaTree
    pub new_db : Db
    pub leaves : Tree h
    pub result : update hash_func lc schedule db tree mods ≡ some (new_tree, new_db)
    pub tree_stored : TreeStored hash_func good lc new_db new_tree h leaves
    pub leaves_stored : LeavesStored new_db h leaves
    pub reads :
        (i : ℕ)
        → i < 2 ^ h
        → get_leaf lc.cls new_db new_tree i
          ≡ read_after (Dict.last_of mods i) (get_leaf lc.cls db tree i)

  -- The update of a stored tree, whose leaves are stored too, under the conditions of `update_lem`,
  -- returns a tree and a storage from which `get_leaf` reads, at each index of the tree, the last
  -- modification of the index, or else what it read from the old tree. All leaves are stored again.
  pub get_leaf-update :
      (schedule : List ℕ) (db : Db) (tree : PatriciaTree) (h : ℕ) (t : Tree h) (mods : List (ℕ × L))
      → TreeStored hash_func good lc db tree h t
      → LeavesStored db h t
      → InRange h mods
      → All (λ (m : ℕ × L). LeafOk lc m.1) mods
      → ((u : UpdateTree L) → build_update_tree h mods ≡ some u → weight u ≤ length schedule)
      → CollisionFree hash_func good lc schedule db tree mods
      → ReadsAfter schedule db tree mods h
  get_leaf-update schedule db tree h t mods ts ls range ok enough free =
      let u = update_lem hash_func good lc schedule db tree h t mods ts range ok enough free in
      record {
        new_tree = u.new_tree;
        new_db = u.new_db;
        leaves = u.leaves;
        result = u.result;
        tree_stored = u.stored;
        leaves_stored = leaves_stored schedule db tree h t mods ts ls u;
        reads = get_leaf-after schedule db tree h t mods ts ls u;
      }
