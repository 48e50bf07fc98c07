-- ===== src/Tests/Codes.antt =====
-- The theorems on bytes, node facts and the update tree, at concrete inputs.
use starkex_data_availabilit.Prelude.{ℕ, ◌<◌, ◌≡◌, ◌^◌, some, arith, List, [], ◌∷◌, length, ℕ_eq}
use starkex_data_availabilit.Prelude.Dict
use starkex_data_availabilit.Bytes.{Bytes, IsBytes, big_endian, from_bytes, to_bytes_len}
use starkex_data_availabilit.Bytes.RoundTrip.{to_bytes_len-fits, big_endian-from_bytes}
use starkex_data_availabilit.Storage.Objects.{ReadsBack}
use starkex_data_availabilit.Storage.Gated.{GatedStorage, get_value, set_value}
use starkex_data_availabilit.Storage.Gated.RoundTrip.{get_value-set_value}
use starkex_data_availabilit.CommitmentTree.UpdateTree.{UpdateTree, build_update_tree}
use starkex_data_availabilit.CommitmentTree.UpdateTree.Correct.{
  update_at, HasDepth, build_update_tree_lem,
}
use starkex_data_availabilit.Patricia.Nodes.{PatriciaNodeFact, edge_fact, patricia_class}
use starkex_data_availabilit.Patricia.Nodes.RoundTrip.{IsFact, PatriciaNodeFact-ReadsBack}
use starkex_data_availabilit.Patricia.Spec.Bounds.{big_endian-IsHash}

to_bytes_len-fits_example :
    (bs : Bytes) × (to_bytes_len 258 2 ≡ some bs)
    × (from_bytes bs ≡ 258)
    × (length bs ≡ 2)
    × IsBytes bs
to_bytes_len-fits_example = to_bytes_len-fits 258 2 (omega arith)

abbrev two_bytes : Bytes
two_bytes = 1 ∷ 2 ∷ []

big_endian-from_bytes_example : big_endian (length two_bytes) (from_bytes two_bytes) ≡ two_bytes
big_endian-from_bytes_example = big_endian-from_bytes two_bytes (omega arith, (omega arith, tt))

an_edge : PatriciaNodeFact
an_edge = edge_fact (big_endian 32 5) 2 3

an_edge-IsFact : IsFact an_edge
unfolding an_edge
an_edge-IsFact = (big_endian-IsHash 5, omega arith, omega arith, omega arith)

PatriciaNodeFact-ReadsBack_example : ReadsBack patricia_class an_edge
PatriciaNodeFact-ReadsBack_example = PatriciaNodeFact-ReadsBack an_edge an_edge-IsFact

abbrev two_leaves : List (ℕ × ℕ)
two_leaves = (1, 5) ∷ (3, 7) ∷ (1, 6) ∷ []

build_update_tree_example :
    (t : UpdateTree ℕ) × (build_update_tree 2 two_leaves ≡ some t)
    × HasDepth t 2
    × ((i : ℕ) → i < 2 ^ 2 → update_at t 2 i ≡ Dict.last_of two_leaves i)
build_update_tree_example =
    build_update_tree_lem 2 two_leaves (omega arith, (omega arith, (omega arith, tt)))

abbrev a_store : GatedStorage
a_store = record { limit = 4; storage0 = []; storage1 = [] }

-- A value over the limit.
get_value-set_value_example :
    get_value (9 ∷ []) (set_value (9 ∷ []) a_store two_bytes (1 ∷ []) (5 ∷ 6 ∷ 7 ∷ 8 ∷ [])) (1 ∷ [])
    ≡ some (5 ∷ 6 ∷ 7 ∷ 8 ∷ [])
get_value-set_value_example =
    get_value-set_value (9 ∷ []) a_store two_bytes (1 ∷ []) (5 ∷ 6 ∷ 7 ∷ 8 ∷ [])
