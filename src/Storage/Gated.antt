-- ===== src/Storage/Gated.antt =====
-- src/starkware/storage/gated_storage.py: small values in one storage, large ones in another. The
-- magic header (a SHA-256 digest) is a parameter, and each write is given the unique key that the
-- code would generate.
pub mod RoundTrip
use starkex_data_availabilit.Prelude.{
  ℕ, ◌+◌, Option, none, some, Bool, not, ◌&&◌, List, ◌++◌, leb, length, take, drop, ◌==◌, List_eq,
  ℕ_eq, if◌then◌else◌,
}
use starkex_data_availabilit.Bytes.{Bytes}
use starkex_data_availabilit.Storage.{Db}
use starkex_data_availabilit.Storage

pub record GatedStorage : Type 0 where
  pub limit : ℕ
  pub storage0 : Db
  pub storage1 : Db

module _ (magic_header : Bytes) where
  abbrev pub has_header : Bytes → Bool
  has_header value = take (length magic_header) value == magic_header

  -- The value to store in the first storage, and the second storage.
  unfoldable pub compress_value : GatedStorage → Bytes → Bytes → Bytes → Bytes × Db
  unfolding Storage.set_value
  compress_value gated ukey key value =
      if not (has_header value) && leb (length key + length value) gated.limit
      then (value, gated.storage1)
      else (magic_header ++ ukey, Storage.set_value gated.storage1 ukey value)

  unfoldable pub set_value : GatedStorage → Bytes → Bytes → Bytes → GatedStorage
  unfolding compress_value Storage.set_value
  set_value gated ukey key value =
      let (new_value, storage1) = compress_value gated ukey key value in
      record {
        limit = gated.limit;
        storage0 = Storage.set_value gated.storage0 key new_value;
        storage1 = storage1;
      }

  -- The value for what the first storage has.
  unfoldable pub resolve : Db → Option Bytes → Option Bytes
  unfolding Storage.get_value
  resolve storage1 none = none
  resolve storage1 (some value) =
      if has_header value
      then Storage.get_value storage1 (drop (length magic_header) value)
      else some value

  unfoldable pub get_value : GatedStorage → Bytes → Option Bytes
  unfolding resolve Storage.get_value
  get_value gated key = resolve gated.storage1 (Storage.get_value gated.storage0 key)

  -- The second storage without the value that belongs to a value of the first.
  unfoldable pub drop_large : Db → Bytes → Db
  unfolding Storage.del_value
  drop_large storage1 value =
      if has_header value
      then Storage.del_value storage1 (drop (length magic_header) value)
      else storage1

  unfoldable pub del_value : GatedStorage → Bytes → GatedStorage
  unfolding drop_large Storage.get_value Storage.del_value
  del_value gated key = elim (Storage.get_value gated.storage0 key) [
    | none ↦ gated
    | some value ↦ record {
      limit = gated.limit;
      storage0 = Storage.del_value gated.storage0 key;
      storage1 = drop_large gated.storage1 value;
    }
  ]
