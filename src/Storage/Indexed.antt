-- ===== src/Storage/Indexed.antt =====
-- The rest of src/starkware/storage/storage.py on values that are bytes: mset and mget, and
-- objects with an index for a key. setnx is left out: a DictStorage does not implement it.
use starkex_data_availabilit.Prelude.{
  ℕ, zero, suc, ◌+◌, ◌/◌, ◌%◌, Option, none, some, List, [], ◌∷◌, ◌++◌, map, ltb, List_eq, ℕ_eq,
  ◌>>=◌, if◌then◌else◌,
}
use starkex_data_availabilit.Bytes.{Bytes}
use starkex_data_availabilit.Storage.{Db, DbClass, get_value, set_value, db_key, set}

-- Storage.mset and mget
unfoldable pub mset : Db → List (Bytes × Bytes) → Db
unfolding set_value
mset db [] = db
mset db ((key, value) ∷ updates) = mset (set_value db key value) updates

unfoldable pub mget : Db → List Bytes → List (Option Bytes)
unfolding get_value
mget db keys = map (get_value db) keys

-- The decimal digits of an index, which is itself enough fuel.
unfoldable pub decimal : ℕ → ℕ → Bytes
decimal zero n = []
decimal (suc fuel) n =
    let rest = decimal fuel (n / 10) in
    if ltb n 10 then (48 + n) ∷ [] else rest ++ (48 + n % 10) ∷ []

-- `str(index).encode("ascii")`
unfoldable pub index_suffix : ℕ → Bytes
unfolding decimal
index_suffix index = decimal (index + 1) index

module _ {A : Type 0} (cls : DbClass A) where
  -- DBObject.get: the outer `none` is an error of `deserialize`.
  unfoldable pub get : Db → Bytes → Option (Option A)
  unfolding db_key get_value
  get db suffix = elim (get_value db (db_key cls suffix)) [
    | none ↦ some none
    | some value ↦ (do obj ← cls.deserialize value; some (some obj))
  ]

  unfoldable pub get_update_for_mset : A → Bytes → Option (Bytes × Bytes)
  unfolding db_key
  get_update_for_mset obj suffix = do
    serialized ← cls.serialize obj
    some (db_key cls suffix, serialized)

  -- IndexedDBObject
  unfoldable pub key : ℕ → Bytes
  unfolding db_key index_suffix
  key index = db_key cls (index_suffix index)

  unfoldable pub get_obj : Db → ℕ → Option (Option A)
  unfolding get index_suffix
  get_obj db index = get db (index_suffix index)

  unfoldable pub get_obj_or_fail : Db → ℕ → Option A
  unfolding get_obj
  get_obj_or_fail db index = do db_object_or_aborted ← get_obj db index; db_object_or_aborted

  unfoldable pub set_obj : Db → A → ℕ → Option Db
  unfolding set index_suffix
  set_obj db obj index = set cls db obj (index_suffix index)

  unfoldable pub get_indexed_update_for_mset : A → ℕ → Option (Bytes × Bytes)
  unfolding key
  get_indexed_update_for_mset obj index = do
    serialized ← cls.serialize obj
    some (key index, serialized)
