-- ===== src/Committee/BatchInfo.antt =====
-- Reading a batch info moves it from the old key to the new one, once.
use starkex_data_availabilit.Prelude.{
  ◌≡◌, ◌⊎◌, refl, sym, ap, ◌∙◌, Option, none, some, List_eq, list_beq_iff, ℕ_eq, ◌==◌, ==_refl,
  if◌then◌else◌, Bool-cases, inl, inr,
}
use starkex_data_availabilit.Prelude.Dict
use starkex_data_availabilit.Prelude.Dict.{get-put}
use starkex_data_availabilit.Bytes.{Bytes}
use starkex_data_availabilit.Storage.{Db, get_value, set_value}
use starkex_data_availabilit.Prelude.Int.{ℤ}
use starkex_data_availabilit.Committee.{
  CommitteeBatchInfo, Codec, read_batch_info, decode_batch_info, get_committee_batch_info,
  committee_batch_info_key, old_committee_batch_info_key,
}

module _ (storage : Db) (batch_id : ℤ) where
  abbrev new_value : Option Bytes
  new_value = Dict.get storage (committee_batch_info_key batch_id)

  abbrev old_value : Option Bytes
  old_value = Dict.get storage (old_committee_batch_info_key batch_id)

  read_batch_info-new :
      (value : Bytes)
      → new_value ≡ some value
      → read_batch_info storage batch_id ≡ (some value, storage)
  unfolding read_batch_info get_value
  read_batch_info-new value e = rw (e, read_batch_info)

  -- What is read without the new key.
  abbrev migrated : Option Bytes → Option Bytes × Db
  migrated none = (none, storage)
  migrated (some value) = (some value, Dict.put storage (committee_batch_info_key batch_id) value)

  read_batch_info-old : new_value ≡ none → read_batch_info storage batch_id ≡ migrated old_value
  unfolding read_batch_info get_value set_value
  read_batch_info-old e = rw (e, read_batch_info) (by_old old_value)
    where
      by_old :
          (o : Option Bytes)
          → (elim o [
            | some value ↦ (some value, Dict.put storage (committee_batch_info_key batch_id) value)
            | none ↦ (none, storage)
          ])
            ≡ migrated o
      by_old none = refl
      by_old (some value) = refl

  -- The value stands under the new key, or under the old key and nothing under the new one.
  abbrev pub IsStored : Bytes → Type 0
  IsStored value =
      (get_value storage (committee_batch_info_key batch_id) ≡ some value)
      ⊎ ((get_value storage (committee_batch_info_key batch_id) ≡ none)
          × (get_value storage (old_committee_batch_info_key batch_id) ≡ some value))

  -- The storage holds the value under the new key, and what it held under every other key.
  abbrev pub HoldsCopy : Bytes → Db → Type 0
  HoldsCopy value db =
      (key : Bytes)
      → get_value db key
        ≡ (if committee_batch_info_key batch_id == key then some value else get_value storage key)

  kept-HoldsCopy : (value : Bytes) → new_value ≡ some value → HoldsCopy value storage
  unfolding get_value
  kept-HoldsCopy value e key = elim (Bool-cases (committee_batch_info_key batch_id == key)) [
    | inl same ↦ rw same (
        ap (Dict.get storage) (sym ((list_beq_iff (committee_batch_info_key batch_id) key).0 same))
        ∙ e)
    | inr other ↦ rw other refl
  ]

  -- A stored value is read, and stands under the new key afterwards.
  read_batch_info_stored :
      (value : Bytes)
      → IsStored value
      → (db : Db) × (read_batch_info storage batch_id ≡ (some value, db)) × HoldsCopy value db
  unfolding get_value
  read_batch_info_stored value (inl new) =
      (storage, read_batch_info-new value new, kept-HoldsCopy value new)
  read_batch_info_stored value (inr (missing, old)) = (
    Dict.put storage (committee_batch_info_key batch_id) value,
    read_batch_info-old missing ∙ ap migrated old,
    λ key. get-put storage (committee_batch_info_key batch_id) key value,
  )

decode_some :
    (codec : Codec) (value : Bytes) (db : Db) (info : CommitteeBatchInfo)
    → codec.deserialize value ≡ some info
    → decode_batch_info codec (some value, db) ≡ some (some info, db)
unfolding decode_batch_info
decode_some codec value db info d = rw (d)

-- Where a value is stored under the new key, or only under the old one, and is deserialized to a batch
-- info, get_committee_batch_info returns this batch info. In the storage that it leaves the value
-- stands under the new key and every other key is as before, and a second read there returns the same
-- batch info and writes nothing more.
pub get_committee_batch_info_migrates :
    (codec : Codec) (storage : Db) (batch_id : ℤ) (value : Bytes) (info : CommitteeBatchInfo)
    → IsStored storage batch_id value
    → codec.deserialize value ≡ some info
    → (db : Db) × (get_committee_batch_info codec storage batch_id ≡ some (some info, db))
      × HoldsCopy storage batch_id value db
      × (get_committee_batch_info codec db batch_id ≡ some (some info, db))
unfolding get_committee_batch_info get_value
get_committee_batch_info_migrates codec storage batch_id value info stored d =
    let (db, read, copy) = read_batch_info_stored storage batch_id value stored in
    let own = ==_refl (committee_batch_info_key batch_id) in
    let new = copy (committee_batch_info_key batch_id) in
    (
      db,
      ap (decode_batch_info codec) read ∙ decode_some codec value db info d,
      copy,
      ap (decode_batch_info codec) (read_batch_info-new db batch_id value (rw own at new))
          ∙ decode_some codec value db info d,
    )
