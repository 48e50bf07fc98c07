-- ===== src/Tests/Batches.antt =====
-- The theorems on batches and integer helpers, at concrete inputs.
use starkex_data_availabilit.Prelude.{
  ℕ, ◌<◌, ◌≤◌, ◌*◌, ◌^◌, ◌≡◌, ◌↔◌, refl, none, some, inr, All, arith, List, [], ◌∷◌, List_eq, ℕ_eq,
}
use starkex_data_availabilit.Prelude.Dict.{Dict}
use starkex_data_availabilit.Bytes.{Bytes}
use starkex_data_availabilit.Storage.{Db, ascii, get_value}
use starkex_data_availabilit.Math.{next_power_of_2}
use starkex_data_availabilit.Math.Laws.{next_power_of_2_lem}
use starkex_data_availabilit.Prelude.Int.{pos}
use starkex_data_availabilit.Committee.{
  hex, order, CommitteeBatchInfo, Codec, get_committee_batch_info, committee_batch_info_key,
  old_committee_batch_info_key, str, digits,
}
use starkex_data_availabilit.Committee.BatchInfo.{
  IsStored, HoldsCopy, get_committee_batch_info_migrates,
}
use starkex_data_availabilit.Committee.Validate.{
  check_root, check_roots, obsolete_order_tree_root_str,
}
use starkex_data_availabilit.Committee.Validate.Checks.{RootPasses, check_roots_iff}

next_power_of_2_example :
    (k : ℕ) × (next_power_of_2 5 ≡ some (2 ^ k)) × (5 ≤ 2 ^ k) × (2 ^ k < 2 * 5)
next_power_of_2_example = next_power_of_2_lem 5 (omega arith)

abbrev an_info : CommitteeBatchInfo
an_info = record { merkle_roots = []; sequence_number = pos 4 }

abbrev constant_codec : Codec
constant_codec = record { serialize = λ _. 1 ∷ []; deserialize = λ _. some an_info }

-- The batch info stands under the old key only.
old_storage : Db
old_storage = (old_committee_batch_info_key (pos 4), 1 ∷ []) ∷ []

old_storage-IsStored : IsStored old_storage (pos 4) (1 ∷ [])
unfolding old_storage get_value committee_batch_info_key old_committee_batch_info_key str digits
old_storage-IsStored = inr (refl, refl)

get_committee_batch_info_example :
    (db : Db) × (get_committee_batch_info constant_codec old_storage (pos 4)
      ≡ some (some an_info, db))
    × HoldsCopy old_storage (pos 4) (1 ∷ []) db
    × (get_committee_batch_info constant_codec db (pos 4) ≡ some (some an_info, db))
get_committee_batch_info_example =
    get_committee_batch_info_migrates constant_codec old_storage (pos 4) (1 ∷ []) an_info
      old_storage-IsStored refl

-- The orders have the obsolete mark; the vaults have the root 0x12.
abbrev vaults : Bytes
vaults = ascii "vault"

abbrev two_objects : List Bytes
two_objects = vaults ∷ order ∷ []

abbrev expected_roots : Dict Bytes Bytes
expected_roots = (vaults, 49 ∷ 50 ∷ []) ∷ (order, obsolete_order_tree_root_str) ∷ []

abbrev computed_roots : Dict Bytes Bytes
computed_roots = (vaults, 18 ∷ []) ∷ (order, 7 ∷ []) ∷ []

check_roots_example :
    (check_roots {L = ℕ} [] expected_roots two_objects computed_roots two_objects ≡ some tt)
    ↔ All (RootPasses {L = ℕ} [] expected_roots two_objects computed_roots) two_objects
check_roots_example =
    check_roots_iff {L = ℕ} [] expected_roots two_objects computed_roots two_objects

-- These roots pass the check.
two_objects_pass :
    check_roots {L = ℕ} [] expected_roots two_objects computed_roots two_objects ≡ some tt
unfolding check_roots check_root hex
two_objects_pass = refl

-- On the vaults the mark is compared, and does not pass.
marked_vaults_fail :
    check_roots {L = ℕ} []
      ((vaults, obsolete_order_tree_root_str) ∷ (order, obsolete_order_tree_root_str) ∷ [])
      two_objects
      computed_roots
      two_objects
    ≡ none
unfolding check_roots check_root hex
marked_vaults_fail = refl
