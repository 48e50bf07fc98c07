-- ===== src/Bytes.antt =====
-- src/starkware/python/utils.py: conversions between integers and bytes, and chunking.
-- A `bytes` object is a list of numbers; what is a byte is said by `IsBytes`.
pub mod RoundTrip
use starkex_data_availabilit.Prelude.{
  ℕ, zero, suc, ◌+◌, ◌-◌, ◌*◌, ◌/◌, ◌%◌, ◌^◌, ◌<◌, Option, none, some, List, [], ◌∷◌, ◌++◌, ltb,
  eqb, if◌then◌else◌, length, take, drop, All, ◌≡◌,
}

abbrev pub Bytes : Type 0
Bytes = List ℕ

abbrev pub hash_bytes : ℕ
hash_bytes = 32

-- `int.to_bytes(value, length, "big")` without its range check.
unfoldable pub big_endian : ℕ → ℕ → Bytes
big_endian zero value = []
big_endian (suc n) value = big_endian n (value / 256) ++ (value % 256) ∷ []

-- `int.to_bytes` raises OverflowError on a value that does not fit.
unfoldable pub to_bytes_len : ℕ → ℕ → Option Bytes
to_bytes_len value len = if ltb value (256 ^ len) then some (big_endian len value) else none

-- `to_bytes(value)`, at the default length.
unfoldable pub to_bytes : ℕ → Option Bytes
to_bytes value = to_bytes_len value hash_bytes

unfoldable pub from_bytes_acc : ℕ → Bytes → ℕ
from_bytes_acc acc [] = acc
from_bytes_acc acc (b ∷ bs) = from_bytes_acc (acc * 256 + b) bs

unfoldable pub from_bytes : Bytes → ℕ
unfolding from_bytes_acc
from_bytes = from_bytes_acc 0

-- `data[i : i + chunk_size] for i in range(0, len(data), chunk_size)`, with the rounds as fuel.
unfoldable pub blockify_rounds : ℕ → Bytes → ℕ → List Bytes
blockify_rounds zero bytes chunk_size = []
blockify_rounds (suc n) [] chunk_size = []
blockify_rounds (suc n) (b ∷ bs) chunk_size =
    take chunk_size (b ∷ bs) ∷ blockify_rounds n (drop chunk_size (b ∷ bs)) chunk_size

-- A chunk size of zero fails the assertion.
unfoldable pub blockify : Bytes → ℕ → Option (List Bytes)
unfolding blockify_rounds
blockify bytes chunk_size =
    if eqb chunk_size 0 then none else some (blockify_rounds (length bytes) bytes chunk_size)

-- Every element is a byte.
abbrev pub IsBytes : Bytes → Type 0
IsBytes = All (λ b. b < 256)

-- A hash: 32 bytes.
pub record IsHash (h : Bytes) : Type 0 where
  pub size : length h ≡ 32
  pub bytes : IsBytes h
