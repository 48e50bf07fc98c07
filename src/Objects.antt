-- ===== src/Objects.antt =====
-- src/starkware/starkware_utils/objects/starkex_state.py: vaults and orders, as leaves of the StarkEx
-- trees. A constructor call or an `add` that raises gives the code; the check of the types of the
-- fields is one of types here.
pub mod Vault
pub mod Undo
pub mod Raises
pub mod Order
use starkex_data_availabilit.Prelude.{
  ℕ, ◌^◌, Bool, true, false, not, ◌&&◌, List, [], ◌∷◌, ◌==◌, List_eq, ℕ_eq, if◌then◌else◌,
}
use starkex_data_availabilit.Prelude.Int.{ℤ, pos, ◌+ℤ◌, leb_int, ltb_int, ℤ_eq}
use starkex_data_availabilit.Prelude.Dict.{Dict}
use starkex_data_availabilit.Prelude.Dict
use starkex_data_availabilit.Bytes.{Bytes}
use starkex_data_availabilit.Storage.{ascii}
use starkex_data_availabilit.Errors.{
  StarkErrorCode, out_of_range_balance, invalid_vault, out_of_range_amount, Checked, returned,
  stark_assert, stark_assert_eq, stark_assert_ne, stark_assert_le, ◌>>=◌, ◌>>◌,
}

abbrev pub max_amount : ℕ
max_amount = 2 ^ 63

-- `0 <= amount < MAX_AMOUNT`
abbrev pub in_range : ℤ → Bool
in_range amount = leb_int (pos 0) amount && ltb_int amount (pos max_amount)

pub record VaultUpdateData : Type 0 where
  pub vault_id : ℤ
  pub stark_key : ℤ
  pub token : ℤ
  pub diff : ℤ

pub record VaultState : Type 0 where
  pub stark_key : ℤ
  pub token : ℤ
  pub balance : ℤ

abbrev pub vault : ℤ → ℤ → ℤ → VaultState
vault stark_key token balance = record { stark_key = stark_key; token = token; balance = balance }

-- VaultState(stark_key, token, balance), with `__post_init__`
unfoldable pub make_vault : ℤ → ℤ → ℤ → Checked StarkErrorCode VaultState
make_vault stark_key token balance = do
  stark_assert (in_range balance) out_of_range_balance
  if balance == pos 0 then returned (vault (pos 0) (pos 0) balance) else (do
    stark_assert_ne (pos 0) stark_key invalid_vault
    stark_assert_ne (pos 0) token invalid_vault
    returned (vault stark_key token balance))

-- VaultState.empty
unfoldable pub empty_vault : Checked StarkErrorCode VaultState
unfolding make_vault
empty_vault = make_vault (pos 0) (pos 0) (pos 0)

abbrev pub is_empty_vault : VaultState → Bool
is_empty_vault v = v.stark_key == pos 0 && v.token == pos 0 && v.balance == pos 0

-- A non-empty vault has to match the update.
unfoldable pub check_update : VaultState → VaultUpdateData → Checked StarkErrorCode (Unit {0})
check_update v change =
    if ltb_int (pos 0) v.balance
    then (do
      stark_assert_eq v.stark_key change.stark_key invalid_vault
      stark_assert_eq v.token change.token invalid_vault)
    else returned tt

-- VaultState.add
unfoldable pub add : VaultState → VaultUpdateData → Checked StarkErrorCode VaultState
unfolding check_update make_vault
add v change = do
  check_update v change
  let new_balance = v.balance +ℤ change.diff
  stark_assert (in_range new_balance) out_of_range_balance
  make_vault change.stark_key change.token new_balance

-- OrderUpdateData; the transaction is used in messages only.
pub record OrderUpdateData : Type 0 where
  pub tree_index : ℤ
  pub diff : ℤ
  pub capacity : ℤ

pub record OrderState : Type 0 where
  pub fulfilled_amount : ℤ

-- OrderState(fulfilled_amount), with `__post_init__`
unfoldable pub make_order : ℤ → Checked StarkErrorCode OrderState
make_order fulfilled_amount = do
  stark_assert (in_range fulfilled_amount) out_of_range_amount
  returned (record { fulfilled_amount = fulfilled_amount })

unfoldable pub empty_order : Checked StarkErrorCode OrderState
unfolding make_order
empty_order = make_order (pos 0)

abbrev pub is_empty_order : OrderState → Bool
is_empty_order o = o.fulfilled_amount == pos 0

-- OrderState.add
unfoldable pub add_order : OrderState → OrderUpdateData → Checked StarkErrorCode OrderState
unfolding make_order
add_order o change = do
  stark_assert (in_range change.diff) out_of_range_amount
  stark_assert_le (o.fulfilled_amount +ℤ change.diff) change.capacity out_of_range_amount
  make_order (o.fulfilled_amount +ℤ change.diff)

-- StateUpdateVersion1 and its subclass, with volition.
pub record StateUpdateVersion1 : Type 0 where
  pub prev_batch_id : ℤ
  pub vaults : Dict ℤ VaultState
  pub orders : Dict ℤ OrderState
  pub vault_root : Bytes
  pub order_root : Bytes

pub record StateUpdateVersion2 : Type 0 where
  pub version_1 : StateUpdateVersion1
  pub rollup_vaults : Dict ℤ VaultState
  pub rollup_vault_root : Bytes

-- The values of `objects`.
pub data Objects : Type 0 where
  of_vaults : Dict ℤ VaultState → Objects
  of_orders : Dict ℤ OrderState → Objects

unfoldable pub objects_version_1 : StateUpdateVersion1 → Dict Bytes Objects
objects_version_1 u = (ascii "vault", of_vaults u.vaults) ∷ (ascii "order", of_orders u.orders) ∷ []

unfoldable pub roots_version_1 : StateUpdateVersion1 → Dict Bytes Bytes
roots_version_1 u = (ascii "vault", u.vault_root) ∷ (ascii "order", u.order_root) ∷ []

unfoldable pub objects : StateUpdateVersion2 → Dict Bytes Objects
unfolding objects_version_1
objects u =
    Dict.put (objects_version_1 u.version_1) (ascii "rollup_vault") (of_vaults u.rollup_vaults)

unfoldable pub roots : StateUpdateVersion2 → Dict Bytes Bytes
unfolding roots_version_1
roots u = Dict.put (roots_version_1 u.version_1) (ascii "rollup_vault") u.rollup_vault_root
