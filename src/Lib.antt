-- ===== src/Lib.antt =====
-- The StarkEx data availability committee: its commitment trees over a fact storage, its state
-- objects, and its check of a batch.
--
-- The committee keeps the vaults and orders of an exchange in commitment trees. A tree is a root
-- hash and a height; its nodes are facts, objects that a storage holds under their hash. An update
-- takes a list of modified leaves, reads the facts that it needs, builds a calculation of the new
-- root, computes the hashes, and writes the new facts.
--
-- The parts, and the files that model them:
-- - Bytes: to_bytes, from_bytes and blockify of src/starkware/python/utils.py.
-- - Storage: DictStorage (src/starkware/storage/dict_storage.py), DBObject and Fact (storage.py),
--   IndexedDBObject in Storage/Indexed, strings, singletons and IntToIntMapping in Storage/Values,
--   with is_subsequence of starkware_utils/subsequence.py; Storage/Gated: gated_storage.py beside them.
-- - CommitmentTree/UpdateTree: build_update_tree of commitment_tree/update_tree.py, in
--   src/starkware/starkware_utils. CommitmentTree/Traversal: update_tree's traversal with the
--   dictionary updated_nodes, over merkle_tree/traverse_tree.py. The node classes are a parameter,
--   a record of operations.
-- - Patricia/Nodes: the facts of patricia_tree/nodes.py. Patricia/VirtualNode: get_children and
--   commit of virtual_patricia_node.py. Patricia/Calculation: calculation.py and
--   virtual_calculation_node.py. Patricia/Tree: patricia_tree.py, and the end of update_tree.
-- - Patricia/Spec: the abstract view, a full tree of leaf hashes with its root by recursion and no
--   storage; Patricia/Update: what an update does to it. Patricia/Leaves: get_leaves and get_leaf
--   of binary_fact_tree.py, with _get_leaves of the nodes, on the height plus one as fuel.
-- - Merkle: the second kind of tree, merkle_tree/ of the same directory, over the same traversal.
-- - Errors: error codes and assertions of starkware_utils/error_handling.py. Objects: vaults, orders
--   and state updates of starkware_utils/objects/starkex_state.py.
-- - Fields: the checks of the field classes in starkware_utils/validated_fields.py.
--   Validators: validate_dict and validate_power_of_two of field_validators.py beside it, whose loop
--   halves its value and runs on the value as fuel.
-- - Perpetual: positions and orders of src/services/perpetual/public/business_logic/state_objects.py,
--   with their bounds and fields in definitions/ beside it; Perpetual/Packing: messages of assets;
--   Perpetual/Funding: funding.
-- - Committee: batch infos and their migration in src/starkware/committee/committee/committee/
--   committee.py; Committee/Validate: validate_data_availability, up to the inputs of the claim that
--   is signed. How each object makes and updates its tree is a parameter.
-- - Math: src/starkware/python/math_utils.py, without ec_mult, is_power_of_2 and what calls
--   sympy or uses floats.
-- - Prelude: shared names, tests, lists and dictionaries. Tests: concrete inputs.
--
-- A failed assertion or an exception is `none`. The state of the storage is passed on explicitly.
-- The workers of the traversal are modelled by a schedule, a list that says which queued node is
-- visited next; the theorems hold for each schedule that has a visit for every node of the update
-- tree. A visit is one step, as on DictStorage, whose operations never give way to another worker:
-- there the order in which the workers take the nodes does not matter. Visits that overlap, on a
-- storage that suspends its callers, are not modelled. The loop of update_necessary halves its index
-- and runs on the index plus one as fuel.
--
-- The hash function is a parameter: on 32-byte hashes it gives 32-byte hashes, never the zero hash,
-- and below 256 ^ 32 - 256, as Pedersen hashes are. Leaves are a parameter: a leaf hashes to 32
-- bytes, to zero exactly when it is empty, and is read back from its bytes. The update theorem
-- assumes that no two facts collide. In a Merkle tree the hash function only has to give 32-byte
-- hashes, and every leaf is stored. Heights are below 256, since the length of an edge is one byte.
--
-- Not modelled: the optional dictionary of facts that is filled along the way, hashing by
-- executors, the difference of two trees, the leaves of a Merkle tree, the committee's loop over the
-- gateway, the hashes of positions, vaults and orders, the values of positions, the serialization of
-- the state objects, the caching, batch, immediate and Aerospike storages, signatures, HTTP and
-- configuration.
pub mod Prelude
pub mod Bytes
pub mod Storage
pub mod Math
pub mod Committee
pub mod Patricia
pub mod Merkle
pub mod Errors
pub mod Objects
pub mod Fields
pub mod Validators
pub mod Perpetual
pub mod CommitmentTree
pub mod Tests
