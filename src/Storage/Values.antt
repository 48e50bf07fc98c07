-- ===== src/Storage/Values.antt =====
-- More of src/starkware/storage/storage.py: strings, singletons and mappings of integers; and
-- is_subsequence of src/starkware/starkware_utils/subsequence.py.
use starkex_data_availabilit.Prelude.{
  ℕ, ◌+◌, ◌/◌, Option, none, some, Bool, true, false, List, [], ◌∷◌, ltb, ◌==◌, Eq, ◌&&◌, ◌>>◌,
  guard, if◌then◌else◌, List_eq, ℕ_eq,
}
use starkex_data_availabilit.Bytes.{Bytes, from_bytes, to_bytes_len}
use starkex_data_availabilit.Storage.{Db, DbClass, get_value, set_value, get_or_fail, set}
use starkex_data_availabilit.Storage.Indexed.{get, get_update_for_mset, index_suffix}
use starkex_data_availabilit.Math.{bit_length}

-- Storage.get_value_or_fail
unfoldable pub get_value_or_fail : Db → Bytes → Option Bytes
unfolding get_value
get_value_or_fail db key = get_value db key

-- A string is the list of its code points; `encode` and `decode` raise on those outside ASCII.
unfoldable pub is_ascii : Bytes → Bool
is_ascii [] = true
is_ascii (c ∷ cs) = ltb c 128 && is_ascii cs

unfoldable pub set_str : Db → Bytes → Bytes → Option Db
unfolding is_ascii set_value
set_str db key value = do guard (is_ascii value); some (set_value db key value)

-- The outer `none` is an error of `decode`; `default` stands for an absent key.
unfoldable pub get_str : Db → Bytes → Option Bytes → Option (Option Bytes)
unfolding is_ascii get_value
get_str db key default = elim (get_value db key) [
  | none ↦ some default
  | some result ↦ (do guard (is_ascii result); some (some result))
]

-- SingletonDBObject: the suffix is empty.
module _ {A : Type 0} (cls : DbClass A) where
  unfoldable pub get_singleton : Db → Option (Option A)
  unfolding get
  get_singleton db = get cls db []

  unfoldable pub get_singleton_or_fail : Db → Option A
  unfolding get_or_fail
  get_singleton_or_fail db = get_or_fail cls db []

  unfoldable pub set_singleton : Db → A → Option Db
  unfolding set
  set_singleton db obj = set cls db obj []

  unfoldable pub get_singleton_update_for_mset : A → Option (Bytes × Bytes)
  unfolding get_update_for_mset
  get_singleton_update_for_mset obj = get_update_for_mset cls obj []

-- Storage.set_int, of a number that is not negative.
unfoldable pub set_int : Db → Bytes → ℕ → Db
unfolding set_value index_suffix
set_int db key value = set_value db key (index_suffix value)

-- IntToIntMapping.serialize and deserialize, of a value that is not negative.
unfoldable pub serialize_int : ℕ → Option Bytes
unfolding bit_length to_bytes_len
serialize_int value = to_bytes_len value ((bit_length value + 7) / 8)

unfoldable pub deserialize_int : Bytes → ℕ
unfolding from_bytes
deserialize_int bytes = from_bytes bytes

-- The offset is kept as the part of the subsequence that is not yet found.
unfoldable pub is_subsequence : {A : Type 0} ⦃e : Eq A⦄ → List A → List A → Bool
is_subsequence [] [] = true
is_subsequence (x ∷ xs) [] = false
is_subsequence [] (item ∷ sequence) = true
is_subsequence (x ∷ xs) (item ∷ sequence) =
    let found = is_subsequence xs sequence in
    let skipped = is_subsequence (x ∷ xs) sequence in if item == x then found else skipped
