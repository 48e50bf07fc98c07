-- ===== src/Patricia/Spec.antt =====
-- The Patricia-Merkle commitment of a full tree of leaf hashes, by recursion on the tree and with no
-- storage: what patricia_tree/ computes on its virtual nodes.
pub mod Bounds
use starkex_data_availabilit.Prelude.{
  ℕ, zero, suc, ◌+◌, ◌^◌, ◌<◌, ◌≤◌, ◌≡◌, ◌≢◌, Bool, ◌==◌, ℕ_eq, List_eq, if◌then◌else◌,
}
use starkex_data_availabilit.Bytes.{Bytes, IsHash, big_endian, from_bytes}
use starkex_data_availabilit.Patricia.Nodes.{HashFunc, empty_node_hash, is_empty_hash}

-- The leaf hashes of a full tree of the given height.
abbrev pub Tree : ℕ → Type 0
Tree zero = Bytes
Tree (suc h) = Tree h × Tree h

-- A subtree hash with the path that leads down to it: the triples of the source.
pub record Edge : Type 0 where
  pub bottom : Bytes
  pub path : ℕ
  pub length : ℕ

abbrev pub no_edge : Bytes → Edge
no_edge bottom = record { bottom = bottom; path = 0; length = 0 }

module _ (hash_func : HashFunc) where
  -- hash(bottom, path) + length
  unfoldable pub edge_hash : Edge → Bytes
  edge_hash e = big_endian 32 (from_bytes (hash_func e.bottom (big_endian 32 e.path)) + e.length)

  unfoldable pub commitment : Edge → Bytes
  commitment e = if e.length == 0 then e.bottom else edge_hash e

  -- The parent of two subtrees: empty, an edge that is one step longer, or a binary node.
  unfoldable pub join : Edge → Edge → Edge
  join l r =
      if is_empty_hash l.bottom
      then (if is_empty_hash r.bottom
          then no_edge empty_node_hash
          else record { bottom = r.bottom; path = r.path + 2 ^ r.length; length = r.length + 1 })
      else (if is_empty_hash r.bottom
          then record { bottom = l.bottom; path = l.path; length = l.length + 1 }
          else no_edge (hash_func (commitment l) (commitment r)))

  unfoldable pub virtual : (h : ℕ) → Tree h → Edge
  virtual zero b = no_edge b
  virtual (suc h) t = join (virtual h t.0) (virtual h t.1)

  unfoldable pub root : (h : ℕ) → Tree h → Bytes
  root h t = commitment (virtual h t)

-- Every leaf hash is 32 bytes.
abbrev pub IsTree : (h : ℕ) → Tree h → Type 0
IsTree zero b = IsHash b
IsTree (suc h) t = IsTree h t.0 × IsTree h t.1

-- What the code relies on about the hash function: on hashes it gives hashes, never the zero hash,
-- and below the top 256 values of 32 bytes (Pedersen hashes have 252 bits).
pub record IsHashFunc (hash_func : HashFunc) : Type 0 where
  pub hash : (x y : Bytes) → IsHash x → IsHash y → IsHash (hash_func x y)
  pub nonzero : (x y : Bytes) → IsHash x → IsHash y → hash_func x y ≢ empty_node_hash
  pub bound : (x y : Bytes) → IsHash x → IsHash y → from_bytes (hash_func x y) + 256 ≤ 256 ^ 32

-- The bounds of a triple over a subtree of height `h`.
pub record IsEdge (h : ℕ) (e : Edge) : Type 0 where
  pub hash : IsHash e.bottom
  pub path : e.path < 2 ^ e.length
  pub length : e.length ≤ h
  pub empty : e.bottom ≡ empty_node_hash → (e.path ≡ 0) × (e.length ≡ 0)
