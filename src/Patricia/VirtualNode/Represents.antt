-- ===== src/Patricia/VirtualNode/Represents.antt =====
-- When a storage holds the facts of a tree, and when a virtual node stands for a tree.
use starkex_data_availabilit.Prelude.{ℕ, zero, suc, ◌<◌, ◌≡◌, ◌≢◌, ◌⊎◌, some}
use starkex_data_availabilit.Storage.{Db}
use starkex_data_availabilit.Patricia.Nodes.{HashFunc, empty_node_hash, edge_fact, binary_fact}
use starkex_data_availabilit.Patricia.Spec.{Tree, Edge, commitment, virtual, root}
use starkex_data_availabilit.Patricia.VirtualNode.{VirtualPatriciaNode, from_hash, read_node_fact}

-- The virtual node of a triple.
abbrev pub node_of : ℕ → Edge → VirtualPatriciaNode
node_of height e = record {
  bottom_node = e.bottom;
  path = e.path;
  length = e.length;
  height = height;
}

module _ (hash_func : HashFunc) (db : Db) where
  -- The fact of a committed edge is in the storage.
  abbrev pub EdgeStored : Edge → Type 0
  EdgeStored e =
      0 < e.length
      → read_node_fact db (commitment hash_func e) ≡ some (edge_fact e.bottom e.path e.length)

  -- A binary node is in the storage, with the edges of its children.
  abbrev pub BinaryStored : Edge → Edge → Type 0
  BinaryStored l r =
      l.bottom ≢ empty_node_hash
      → r.bottom ≢ empty_node_hash
      → (read_node_fact db (hash_func (commitment hash_func l) (commitment hash_func r))
          ≡ some (binary_fact (commitment hash_func l) (commitment hash_func r)))
        × EdgeStored l
        × EdgeStored r

  -- Every committed node below the root is in the storage.
  abbrev pub Stored : (h : ℕ) → Tree h → Type 0
  Stored zero b = Unit
  Stored (suc h) t =
      Stored h t.0 × Stored h t.1 × BinaryStored (virtual hash_func h t.0) (virtual hash_func h t.1)

  -- A virtual node stands for a tree by its triple, or by its hash with the root's fact stored.
  abbrev pub Represents : (h : ℕ) → Tree h → VirtualPatriciaNode → Type 0
  Represents h t node =
      (node ≡ node_of h (virtual hash_func h t))
      ⊎ ((node ≡ from_hash (root hash_func h t) h) × EdgeStored (virtual hash_func h t))
