-- ===== src/Storage.antt =====
-- src/starkware/storage/storage.py and dict_storage.py: a storage that maps keys to values, and the
-- objects and facts that are kept in it under the key `prefix:suffix`.
pub mod Objects
pub mod Gated
pub mod Indexed
pub mod Values
pub mod Integers
pub mod Subsequence
use Prim.Native.Char.{code}
use Prim.Native.String.{String}
use starkex_data_availabilit.Prelude.{
  ℕ, Option, none, some, List, [], ◌∷◌, ◌++◌, ◌>>=◌, List_eq, ℕ_eq, Bool, true, false,
}
use starkex_data_availabilit.Prelude.Dict.{Dict}
use starkex_data_availabilit.Prelude.Dict
use starkex_data_availabilit.Bytes.{Bytes}

-- `DictStorage.db`
abbrev pub Db : Type 0
Db = Dict Bytes Bytes

-- DictStorage.get_value, set_value and del_value.
unfoldable pub get_value : Db → Bytes → Option Bytes
get_value db key = Dict.get db key

unfoldable pub set_value : Db → Bytes → Bytes → Db
set_value db key value = Dict.put db key value

unfoldable pub del_value : Db → Bytes → Db
del_value db key = Dict.del db key

-- An ASCII literal, as in `b"patricia_node"`.
abbrev pub ascii : String → Bytes
ascii String.[] = []
ascii (String.◌∷◌ c s) = code c ∷ ascii s

-- The class methods of a `DBObject`. `serialize` may raise, as `to_bytes` does.
pub record DbClass (A : Type 0) : Type 0 where
  pub prefix : Bytes
  pub serialize : A → Option Bytes
  pub deserialize : Bytes → Option A

module _ {A : Type 0} (cls : DbClass A) where
  unfoldable pub db_key : Bytes → Bytes
  db_key suffix = cls.prefix ++ 58 ∷ suffix

  -- DBObject.get_or_fail: an absent key fails the assertion of `get_value_or_fail`.
  unfoldable pub get_or_fail : Db → Bytes → Option A
  get_or_fail db suffix = do value ← get_value db (db_key suffix); cls.deserialize value

  -- DBObject.set
  unfoldable pub set : Db → A → Bytes → Option Db
  set db obj suffix = do
    serialized ← cls.serialize obj
    some (set_value db (db_key suffix) serialized)

-- Fact.set_fact: the key of a fact is its hash.
unfoldable pub set_fact :
    {A : Type 0} → DbClass A → (A → Option Bytes) → Db → A → Option (Bytes × Db)
set_fact cls hash db fact = do
  hash_val ← hash fact
  db' ← set cls db fact hash_val
  some (hash_val, db')
