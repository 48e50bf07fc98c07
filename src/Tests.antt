-- ===== src/Tests.antt =====
-- A concrete hash function and leaf class, and the theorems at concrete inputs.
pub mod Codes
pub mod Trees
pub mod Updates
pub mod Merkles
pub mod Vaults
pub mod Positions
pub mod Inputs
pub mod Batches
use starkex_data_availabilit.Prelude.{
  ℕ, zero, suc, ◌+◌, ◌*◌, ◌%◌, ◌^◌, ◌<◌, ◌≤◌, ◌≡◌, ◌≢◌, refl, sym, ap, ◌∙◌, Option, none, some,
  arith, Bool, List, [], ◌∷◌, ◌==◌, ℕ_eq,
}
use starkex_data_availabilit.Bytes.{Bytes, IsHash, big_endian, from_bytes, to_bytes}
use starkex_data_availabilit.Bytes.RoundTrip.{from_bytes-big_endian}
use starkex_data_availabilit.Storage.{ascii}
use starkex_data_availabilit.CommitmentTree.Leaf.{LeafClass}
use starkex_data_availabilit.Patricia.Nodes.{HashFunc, empty_node_hash}
use starkex_data_availabilit.Patricia.Spec.{IsHashFunc}
use starkex_data_availabilit.Patricia.Spec.Bounds.{big_endian-IsHash, from_bytes_empty}

-- A function with the bounds of the Pedersen hash.
abbrev pub mix_value : ℕ → ℕ → ℕ
mix_value x y = (x * 31 + y * 7 + 3) % (2 ^ 251) + 1

abbrev pub mix : HashFunc
mix x y = big_endian 32 (mix_value (from_bytes x) (from_bytes y))

mix_value_small : (x y : ℕ) → mix_value x y + 256 ≤ 256 ^ 32
mix_value_small x y = omega arith

from_bytes-mix : (x y : Bytes) → from_bytes (mix x y) ≡ mix_value (from_bytes x) (from_bytes y)
from_bytes-mix x y =
    from_bytes-big_endian 32 (mix_value (from_bytes x) (from_bytes y))
      (omega (arith, mix_value_small (from_bytes x) (from_bytes y)))

pub mix-IsHashFunc : IsHashFunc mix
mix-IsHashFunc = record {
  hash = λ x y hx hy. big_endian-IsHash (mix_value (from_bytes x) (from_bytes y));
  nonzero =
      λ x y hx hy e. absurd (omega (arith, from_bytes-mix x y, ap from_bytes e, from_bytes_empty));
  bound =
      λ x y hx hy. omega (arith, from_bytes-mix x y, mix_value_small (from_bytes x) (from_bytes y));
}

-- SimpleLeafFact of src/starkware/storage/storage_utils.py.
abbrev pub simple_leaf : LeafClass ℕ
simple_leaf = record {
  cls = record {
    prefix = ascii "leaf";
    serialize = to_bytes;
    deserialize = λ bs. some (from_bytes bs);
  };
  hash = to_bytes;
  is_empty = λ value. value == 0;
}
