-- ===== src/Committee/Validate.antt =====
-- validate_data_availability and compute_hash_availability_claim of
-- src/starkware/committee/committee/committee/committee.py. The Keccak hash of the claim and the
-- signature of the account are left to the caller: the result is the arguments of the hash. Where the
-- code raises, what it has written by then stays in its storages, and is not part of the result.
pub mod Checks
use starkex_data_availabilit.Prelude.{
  ℕ, Option, none, some, Bool, true, false, not, ◌&&◌, ◌||◌, List, [], ◌∷◌, map, ◌==◌, ℕ_eq,
  List_eq, ◌>>=◌, ◌>>◌, guard, if◌then◌else◌, length,
}
use starkex_data_availabilit.Prelude.Dict.{Dict}
use starkex_data_availabilit.Prelude.Dict
use starkex_data_availabilit.Bytes.{Bytes}
use starkex_data_availabilit.Storage.{Db, ascii, set_value}
use starkex_data_availabilit.Prelude.Int.{ℤ, add_one}
use starkex_data_availabilit.Committee.{
  hex, from_hex, rollup_vault, order, CommitteeBatchInfo, Codec, CommitteeObjectInfo, StateUpdate,
  Storages, committee_batch_info_key, get_committee_batch_info_or_fail, compute_empty_root,
}

abbrev pub contains : Bytes → List Bytes → Bool
contains name [] = false
contains name (x ∷ xs) = x == name || contains name xs

-- `list.remove`, which raises ValueError where there is nothing to remove.
unfoldable pub remove : Bytes → List Bytes → Option (List Bytes)
remove name [] = none
remove name (x ∷ xs) =
    let rest = remove name xs in if x == name then some xs else (do ys ← rest; some (x ∷ ys))

abbrev pub obsolete_order_tree_root_str : Bytes
obsolete_order_tree_root_str =
    ascii "DEADBEEFDEADBEEFDEADBEEFDEADBEEFDEADBEEFDEADBEEFDEADBEEFDEADBEEF"

-- The arguments of hash_availability_claim.
pub record Claim : Type 0 where
  pub vaults_root : Bytes
  pub vaults_height : ℕ
  pub trades_root : Bytes
  pub trades_height : ℕ
  pub seq_num : ℤ

module _ {L : Type 0} (committee_objects_info : Dict Bytes (CommitteeObjectInfo L)) where
  -- The roots of the previous batch, with an empty rollup tree where there is none.
  unfoldable pub with_rollup : Db → Dict Bytes Bytes → Option (Dict Bytes Bytes × Db)
  unfolding compute_empty_root
  with_rollup fact_storage merkle_roots =
      if Dict.has committee_objects_info rollup_vault && not (Dict.has merkle_roots rollup_vault)
      then (do
        (root, fact_storage) ← compute_empty_root committee_objects_info fact_storage rollup_vault
        some (Dict.put merkle_roots rollup_vault root, fact_storage))
      else some (merkle_roots, fact_storage)

  unfoldable pub compute_merkle_root :
      Db → Dict Bytes Bytes → StateUpdate L → Bytes → Option (Bytes × Db)
  compute_merkle_root fact_storage merkle_roots state_update object_name = do
    info ← Dict.get committee_objects_info object_name
    object_state_update ← Dict.get state_update.objects object_name
    root ← Dict.get merkle_roots object_name
    info.update fact_storage root info.tree_height object_state_update

  -- `asyncio.gather` of the roots, in the order of the names.
  unfoldable pub compute_roots :
      Dict Bytes Bytes → StateUpdate L → List Bytes → Db → Option (List (Bytes × Bytes) × Db)
  unfolding compute_merkle_root
  compute_roots merkle_roots state_update [] fact_storage = some ([], fact_storage)
  compute_roots merkle_roots state_update (object_name ∷ names) fact_storage = do
    (root, fact_storage) ← compute_merkle_root fact_storage merkle_roots state_update object_name
    (roots, fact_storage) ← compute_roots merkle_roots state_update names fact_storage
    some ((object_name, root) ∷ roots, fact_storage)

  -- `validate_rollup` is True, False or None.
  unfoldable pub validated_object_names : Bool → Option Bool → Option (List Bytes)
  unfolding remove
  validated_object_names validate_orders validate_rollup = do
    let names = Dict.keys committee_objects_info
    names ← if validate_orders then some names else remove order names
    elim validate_rollup [
      | some true ↦ some names
      | some false ↦ remove rollup_vault names
      | none ↦ (do guard (not (contains rollup_vault names)); some names)
    ]

  -- The body of the loop that compares the roots.
  unfoldable pub check_root :
      Dict Bytes Bytes → List Bytes → Dict Bytes Bytes → Bytes → Option (Unit {0})
  check_root expected_roots names roots_dict object_name = do
    expected_root ← Dict.get expected_roots object_name
    if object_name == order && expected_root == obsolete_order_tree_root_str
        then some tt
        else if contains object_name names
        then (do root ← Dict.get roots_dict object_name; guard (hex root == expected_root))
        else some tt

  unfoldable pub check_roots :
      Dict Bytes Bytes → List Bytes → Dict Bytes Bytes → List Bytes → Option (Unit {0})
  unfolding check_root
  check_roots expected_roots names roots_dict [] = some tt
  check_roots expected_roots names roots_dict (object_name ∷ rest) = do
    check_root expected_roots names roots_dict object_name
    check_roots expected_roots names roots_dict rest

  -- `{key: bytes.fromhex(value) for key, value in roots.items()}`
  unfoldable pub decode_roots : Dict Bytes Bytes → Option (Dict Bytes Bytes)
  decode_roots [] = some []
  decode_roots ((key, value) ∷ roots) = do
    root ← from_hex value
    rest ← decode_roots roots
    some ((key, root) ∷ rest)

  unfoldable pub compute_hash_availability_claim : CommitteeBatchInfo → Option Claim
  compute_hash_availability_claim batch_info = do
    let names = without_rollup (Dict.keys committee_objects_info)
    guard (length names == 2)
    let vaults_object_name =
        if contains (ascii "vault") names then ascii "vault" else ascii "position"
    guard (contains order names)
    vaults_root ← Dict.get batch_info.merkle_roots vaults_object_name
    vaults ← Dict.get committee_objects_info vaults_object_name
    trades_root ← Dict.get batch_info.merkle_roots order
    trades ← Dict.get committee_objects_info order
    some (record {
      vaults_root = vaults_root;
      vaults_height = vaults.tree_height;
      trades_root = trades_root;
      trades_height = trades.tree_height;
      seq_num = batch_info.sequence_number;
    })
    where
      without_rollup : List Bytes → List Bytes
      without_rollup [] = []
      without_rollup (x ∷ xs) =
          let rest = without_rollup xs in if x == rollup_vault then rest else x ∷ rest

  -- The claim that is signed, and the storages after it.
  unfoldable pub validate_data_availability :
      Codec → Storages → ℤ → StateUpdate L → Bool → Option Bool → Option (Claim × Storages)
  unfolding with_rollup compute_roots validated_object_names check_roots decode_roots
      compute_hash_availability_claim get_committee_batch_info_or_fail committee_batch_info_key
  validate_data_availability codec storages batch_id state_update validate_orders validate_rollup =
      do
        (prev_batch_info, storage) ←
            get_committee_batch_info_or_fail codec storages.storage state_update.prev_batch_id
        (merkle_roots, fact_storage) ←
            with_rollup storages.fact_storage prev_batch_info.merkle_roots
        names ← validated_object_names validate_orders validate_rollup
        (roots_list, fact_storage) ← compute_roots merkle_roots state_update names fact_storage
        let roots_dict = Dict.update [] roots_list
        check_roots state_update.roots names roots_dict (Dict.keys committee_objects_info)
        roots ← decode_roots state_update.roots
        let batch_info : CommitteeBatchInfo = record {
          merkle_roots = Dict.update roots roots_dict;
          sequence_number = add_one prev_batch_info.sequence_number;
        }
        let storage =
            set_value storage (committee_batch_info_key batch_id) (codec.serialize batch_info)
        claim ← compute_hash_availability_claim batch_info
        some (claim, record { storage = storage; fact_storage = fact_storage })
