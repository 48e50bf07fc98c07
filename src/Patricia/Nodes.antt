-- ===== src/Patricia/Nodes.antt =====
-- src/starkware/starkware_utils/commitment_tree/patricia_tree/nodes.py: the facts of a
-- Patricia-Merkle tree. A constructor of the source that asserts is a function into Option here.
pub mod RoundTrip
use starkex_data_availabilit.Prelude.{
  ℕ, ◌+◌, ◌^◌, Option, none, some, List, [], ◌∷◌, ◌++◌, Bool, not, ◌&&◌, ltb, eqb, ◌==◌, List_eq,
  ℕ_eq, ◌>>=◌, ◌>>◌, guard, if◌then◌else◌, length, take, drop,
}
use starkex_data_availabilit.Bytes.{Bytes, hash_bytes, to_bytes_len, to_bytes, from_bytes, blockify}
use starkex_data_availabilit.Storage.{DbClass, ascii}

-- HashFunctionType
abbrev pub HashFunc : Type 0
HashFunc = Bytes → Bytes → Bytes

pub data PatriciaNodeFact : Type 0 where
  empty_fact : PatriciaNodeFact
  -- left_node, right_node
  binary_fact : Bytes → Bytes → PatriciaNodeFact
  -- bottom_node, edge_path, edge_length
  edge_fact : Bytes → ℕ → ℕ → PatriciaNodeFact

-- `bytes(HASH_BYTES)`
abbrev zeros : ℕ → Bytes
zeros ℕ.zero = []
zeros (ℕ.suc n) = 0 ∷ zeros n

unfoldable pub empty_node_hash : Bytes
empty_node_hash = zeros hash_bytes

unfoldable pub is_empty_hash : Bytes → Bool
unfolding empty_node_hash
is_empty_hash h = h == empty_node_hash

-- A path is a natural number here, so that only the upper bound is left to test.
unfoldable pub verify_path_value : ℕ → ℕ → Option (Unit {0})
verify_path_value path len = guard (ltb path (2 ^ len))

-- BinaryNodeFact(left_node, right_node), with `__post_init__`
unfoldable pub make_binary : Bytes → Bytes → Option PatriciaNodeFact
make_binary left_node right_node = do
  guard (not (is_empty_hash left_node) && not (is_empty_hash right_node))
  some (binary_fact left_node right_node)

-- EdgeNodeFact(bottom_node, edge_path, edge_length), with `__post_init__`
unfoldable pub make_edge : Bytes → ℕ → ℕ → Option PatriciaNodeFact
unfolding verify_path_value
make_edge bottom_node edge_path edge_length = do
  guard (ltb 0 edge_length)
  verify_path_value edge_path edge_length
  some (edge_fact bottom_node edge_path edge_length)

unfoldable pub serialize : PatriciaNodeFact → Option Bytes
serialize empty_fact = some []
serialize (binary_fact left_node right_node) = some (left_node ++ right_node)
serialize (edge_fact bottom_node edge_path edge_length) = do
  path ← to_bytes edge_path
  len ← to_bytes_len edge_length 1
  some (bottom_node ++ (path ++ len))

pub data NodeType : Type 0 where
  binary edge empty : NodeType

-- `none` is NotImplementedError.
unfoldable pub get_node_type : Bytes → Option NodeType
get_node_type fact_preimage =
    let preimage_length = length fact_preimage in
    if preimage_length == 64
    then some binary
    else if preimage_length == 65
    then some edge
    else if preimage_length == 0
    then some empty
    else none

-- Unpacking the chunks into three names raises on any other number of chunks.
unfoldable edge_of_chunks : List Bytes → Option PatriciaNodeFact
edge_of_chunks (bottom_node ∷ edge_path ∷ edge_length ∷ []) =
    make_edge bottom_node (from_bytes edge_path) (from_bytes edge_length)
edge_of_chunks _ = none

unfoldable deserialize_as : NodeType → Bytes → Option PatriciaNodeFact
unfolding edge_of_chunks
deserialize_as binary bytes = make_binary (take hash_bytes bytes) (drop hash_bytes bytes)
deserialize_as edge bytes = do chunks ← blockify bytes hash_bytes; edge_of_chunks chunks
deserialize_as empty bytes = some empty_fact

-- PatriciaNodeFact.deserialize
unfoldable pub deserialize : Bytes → Option PatriciaNodeFact
unfolding deserialize_as get_node_type
deserialize bytes = do t ← get_node_type bytes; deserialize_as t bytes

-- The class methods of PatriciaNodeFact.
abbrev pub patricia_class : DbClass PatriciaNodeFact
patricia_class = record {
  prefix = ascii "patricia_node";
  serialize = serialize;
  deserialize = deserialize;
}

-- `_hash` of each class of facts.
unfoldable pub fact_hash : HashFunc → PatriciaNodeFact → Option Bytes
fact_hash hash_func empty_fact = some empty_node_hash
fact_hash hash_func (binary_fact left_node right_node) = some (hash_func left_node right_node)
fact_hash hash_func (edge_fact bottom_node edge_path edge_length) = do
  path ← to_bytes edge_path
  to_bytes (from_bytes (hash_func bottom_node path) + edge_length)

-- `to_tuple`
abbrev pub to_tuple : PatriciaNodeFact → List ℕ
to_tuple empty_fact = []
to_tuple (binary_fact left_node right_node) = from_bytes left_node ∷ from_bytes right_node ∷ []
to_tuple (edge_fact bottom_node edge_path edge_length) =
    edge_length ∷ edge_path ∷ from_bytes bottom_node ∷ []
