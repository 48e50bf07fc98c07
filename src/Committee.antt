-- ===== src/Committee.antt =====
-- src/starkware/committee/committee/committee/committee.py: the batch info in the storage, and the
-- check of a batch by its tree roots. The trees are a parameter: for each object, how its class
-- makes an empty tree and updates a tree. The storage of the batch infos and that of the facts are
-- states of their own; where the program opens one storage for both, their keys are apart, since a
-- fact's key starts with the prefix of its class and a batch info's with one of the two names below.
pub mod BatchInfo
pub mod Validate
use starkex_data_availabilit.Prelude.{
  ℕ, zero, suc, ◌+◌, ◌-◌, ◌*◌, ◌/◌, ◌%◌, Option, none, some, Bool, true, false, not, ◌&&◌, ◌||◌,
  List, [], ◌∷◌, ◌++◌, map, ltb, leb, ◌==◌, ℕ_eq, List_eq, ◌>>=◌, ◌>>◌, guard, if◌then◌else◌,
}
use starkex_data_availabilit.Prelude.Int.{ℤ, pos, negsuc}
use starkex_data_availabilit.Prelude.Dict.{Dict}
use starkex_data_availabilit.Prelude.Dict
use starkex_data_availabilit.Bytes.{Bytes}
use starkex_data_availabilit.Storage.{Db, ascii, get_value, set_value}

-- The decimal digits of a number, which is itself enough fuel.
unfoldable pub digits : ℕ → ℕ → Bytes
digits zero n = []
digits (suc fuel) n =
    let rest = digits fuel (n / 10) in
    if ltb n 10 then (48 + n) ∷ [] else rest ++ (48 + n % 10) ∷ []

-- `str(batch_id)`
unfoldable pub str : ℤ → Bytes
unfolding digits
str (pos n) = digits (n + 1) n
str (negsuc n) = 45 ∷ digits (n + 2) (n + 1)

-- `bytes.hex()`, by its digits.
abbrev pub hex_digit : ℕ → ℕ
hex_digit d = if ltb d 10 then 48 + d else 87 + d

unfoldable pub hex : Bytes → Bytes
hex [] = []
hex (b ∷ bs) = hex_digit (b / 16) ∷ hex_digit (b % 16) ∷ hex bs

unfoldable pub hex_value : ℕ → Option ℕ
hex_value c =
    if leb 48 c && leb c 57
    then some (c - 48)
    else if leb 97 c && leb c 102
    then some (c - 87)
    else if leb 65 c && leb c 70
    then some (c - 55)
    else none

abbrev pub is_space : ℕ → Bool
is_space c = c == 32 || (leb 9 c && leb c 13)

-- `bytes.fromhex`, which skips white space between the bytes.
unfoldable pub from_hex : Bytes → Option Bytes
unfolding hex_value
from_hex [] = some []
from_hex (c ∷ []) = if is_space c then some [] else none
from_hex (c ∷ d ∷ cs) = elim (is_space c) [
  | true ↦ from_hex (d ∷ cs)
  | false ↦ (do
    high ← hex_value c
    low ← hex_value d
    rest ← from_hex cs
    some ((high * 16 + low) ∷ rest))
]

abbrev pub rollup_vault : Bytes
rollup_vault = ascii "rollup_vault"

abbrev pub order : Bytes
order = ascii "order"

-- CommitteeBatchInfo
pub record CommitteeBatchInfo : Type 0 where
  pub merkle_roots : Dict Bytes Bytes
  pub sequence_number : ℤ

-- The marshmallow code of CommitteeBatchInfo.
pub record Codec : Type 0 where
  pub serialize : CommitteeBatchInfo → Bytes
  pub deserialize : Bytes → Option CommitteeBatchInfo

-- CommitteeObjectInfo: the height, the empty tree of the object, and the update of a tree from its
-- root and height, on the fact storage.
pub record CommitteeObjectInfo (L : Type 0) : Type 0 where
  pub tree_height : ℕ
  pub empty_tree : Db → ℕ → Option (Bytes × Db)
  pub update : Db → Bytes → ℕ → List (ℕ × L) → Option (Bytes × Db)

-- StateUpdateBase: the modified leaves and the expected roots, in hex, of each object.
pub record StateUpdate (L : Type 0) : Type 0 where
  pub prev_batch_id : ℤ
  pub objects : Dict Bytes (List (ℕ × L))
  pub roots : Dict Bytes Bytes

abbrev pub next_batch_id_key : Bytes
next_batch_id_key = ascii "committee_next_batch_id"

unfoldable pub committee_batch_info_key : ℤ → Bytes
unfolding str
committee_batch_info_key batch_id = ascii "new_committee_batch_info:" ++ str batch_id

unfoldable pub old_committee_batch_info_key : ℤ → Bytes
unfolding str
old_committee_batch_info_key batch_id = ascii "committee_batch_info:" ++ str batch_id

-- The value under the new key, or under the old one, which is then copied.
unfoldable pub read_batch_info : Db → ℤ → Option Bytes × Db
read_batch_info storage batch_id = elim (get_value storage (committee_batch_info_key batch_id)) [
  | some batch_info ↦ (some batch_info, storage)
  | none ↦ elim (get_value storage (old_committee_batch_info_key batch_id)) [
    | some batch_info ↦
        (some batch_info, set_value storage (committee_batch_info_key batch_id) batch_info)
    | none ↦ (none, storage)
  ]
]

unfoldable pub decode_batch_info :
    Codec → Option Bytes × Db → Option (Option CommitteeBatchInfo × Db)
decode_batch_info codec (none, storage) = some (none, storage)
decode_batch_info codec (some batch_info, storage) = do
  info ← codec.deserialize batch_info
  some (some info, storage)

-- get_committee_batch_info: the outer `none` is an error of `deserialize`.
unfoldable pub get_committee_batch_info : Codec → Db → ℤ → Option (Option CommitteeBatchInfo × Db)
unfolding read_batch_info decode_batch_info
get_committee_batch_info codec storage batch_id =
    decode_batch_info codec (read_batch_info storage batch_id)

-- get_committee_batch_info_or_fail
unfoldable pub get_committee_batch_info_or_fail : Codec → Db → ℤ → Option (CommitteeBatchInfo × Db)
unfolding get_committee_batch_info
get_committee_batch_info_or_fail codec storage batch_id = do
  (batch_info, storage) ← get_committee_batch_info codec storage batch_id
  info ← batch_info
  some (info, storage)

unfoldable pub compute_empty_root :
    {L : Type 0} → Dict Bytes (CommitteeObjectInfo L) → Db → Bytes → Option (Bytes × Db)
compute_empty_root committee_objects_info fact_storage object_name = do
  info ← Dict.get committee_objects_info object_name
  info.empty_tree fact_storage info.tree_height

-- The roots of the empty trees, in the order of the objects.
unfoldable pub compute_empty_roots :
    {L : Type 0}
    → Dict Bytes (CommitteeObjectInfo L)
    → Db
    → List Bytes
    → Option (List (Bytes × Bytes) × Db)
unfolding compute_empty_root
compute_empty_roots committee_objects_info fact_storage [] = some ([], fact_storage)
compute_empty_roots committee_objects_info fact_storage (object_name ∷ names) = do
  (root, fact_storage) ← compute_empty_root committee_objects_info fact_storage object_name
  (roots, fact_storage) ← compute_empty_roots committee_objects_info fact_storage names
  some ((object_name, root) ∷ roots, fact_storage)

-- The storage of the batch infos, and that of the facts.
pub record Storages : Type 0 where
  pub storage : Db
  pub fact_storage : Db

unfoldable pub compute_initial_batch_info :
    {L : Type 0} → Codec → Dict Bytes (CommitteeObjectInfo L) → Storages → Option Storages
unfolding compute_empty_roots committee_batch_info_key
compute_initial_batch_info codec committee_objects_info storages = do
  (roots, fact_storage) ←
      compute_empty_roots committee_objects_info storages.fact_storage
        (Dict.keys committee_objects_info)
  let info : CommitteeBatchInfo = record {
    merkle_roots = Dict.update [] roots;
    sequence_number = negsuc 0;
  }
  some (record {
    storage =
        set_value storages.storage (committee_batch_info_key (negsuc 0)) (codec.serialize info);
    fact_storage = fact_storage;
  })
