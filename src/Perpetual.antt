-- ===== src/Perpetual.antt =====
-- src/services/perpetual/public/business_logic/state_objects.py: positions and orders of the
-- perpetual contracts, with the bounds of definitions/constants.py and the fields of
-- definitions/fields.py that they use. Messages are left out.
pub mod Funding
pub mod Packing
use starkex_data_availabilit.Prelude.{
  ℕ, zero, suc, ◌+◌, ◌-◌, ◌*◌, ◌/◌, ◌^◌, Option, none, some, Bool, true, false, not, ◌&&◌, List, [],
  ◌∷◌, ◌++◌, map, ltb, length, ◌==◌, ℕ_eq, if◌then◌else◌,
}
use starkex_data_availabilit.Prelude.Int.{
  ℤ, pos, negsuc, ◌+ℤ◌, ◌-ℤ◌, ◌*ℤ◌, floor_div, negate, leb_int, ltb_int, ℤ_eq,
}
use starkex_data_availabilit.Prelude.Dict.{Dict}
use starkex_data_availabilit.Prelude.Dict
use starkex_data_availabilit.Errors.{
  ErrorCode, stark, perpetual, out_of_range_amount, out_of_range_balance, out_of_range_public_key,
  out_of_range_asset_id, out_of_range_funding_index, invalid_fulfillment_info,
  missing_global_funding_index, Checked, returned, raised, stark_assert, ◌>>=◌, ◌>>◌,
}
use starkex_data_availabilit.Fields.{Range, in_bounds}
use starkex_data_availabilit.Bytes.{Bytes, to_bytes}

abbrev pub balance_bound : ℕ
balance_bound = 2 ^ 63

abbrev pub asset_id_upper_bound : ℕ
asset_id_upper_bound = 2 ^ 120

-- FIXED_POINT_UNIT
abbrev pub fixed_point_unit : ℕ
fixed_point_unit = 2 ^ 32

abbrev pub amount_upper_bound : ℕ
amount_upper_bound = 2 ^ 64

-- FIELD_PRIME of pedersen_params.json, the bound of public keys.
abbrev pub field_prime : ℕ
field_prime = 3618502788666131213697322783095070105623107215331596699973092056135872020481

abbrev pub from_zero : ℕ → Range
from_zero upper_bound = record { lower_bound = pos 0; upper_bound = pos upper_bound }

abbrev pub amount_range : Range
amount_range = from_zero amount_upper_bound

abbrev pub asset_id_range : Range
asset_id_range = from_zero asset_id_upper_bound

abbrev pub public_key_range : Range
public_key_range = from_zero field_prime

-- The range of balances and that of funding indices, which are the same.
abbrev pub signed_range : Range
signed_range = record { lower_bound = negate (pos balance_bound); upper_bound = pos balance_bound }

pub record PositionAsset : Type 0 where
  pub balance : ℤ
  pub cached_funding_index : ℤ

abbrev pub asset : ℤ → ℤ → PositionAsset
asset balance cached_funding_index = record {
  balance = balance;
  cached_funding_index = cached_funding_index;
}

-- PositionAsset(balance, cached_funding_index), with the validation of its fields
unfoldable pub make_asset : ℤ → ℤ → Checked ErrorCode PositionAsset
make_asset balance cached_funding_index = do
  stark_assert (in_bounds signed_range balance) (stark out_of_range_balance)
  stark_assert (in_bounds signed_range cached_funding_index) (perpetual out_of_range_funding_index)
  returned (asset balance cached_funding_index)

pub record PositionState : Type 0 where
  pub public_key : ℤ
  pub collateral_balance : ℤ
  pub assets : Dict ℤ PositionAsset

abbrev pub position : ℤ → ℤ → Dict ℤ PositionAsset → PositionState
position public_key collateral_balance assets = record {
  public_key = public_key;
  collateral_balance = collateral_balance;
  assets = assets;
}

-- The validation of the keys of a mapping of assets.
unfoldable pub check_asset_ids : Dict ℤ PositionAsset → Checked ErrorCode (Unit {0})
check_asset_ids [] = returned tt
check_asset_ids ((asset_id, a) ∷ assets) = do
  stark_assert (in_bounds asset_id_range asset_id) (perpetual out_of_range_asset_id)
  check_asset_ids assets

-- The validation of the values of a mapping of assets.
unfoldable pub check_asset_values : Dict ℤ PositionAsset → Checked ErrorCode (Unit {0})
unfolding make_asset
check_asset_values [] = returned tt
check_asset_values ((asset_id, a) ∷ assets) = do
  make_asset a.balance a.cached_funding_index
  check_asset_values assets

-- PositionState(public_key, collateral_balance, assets), with the validation of its fields
unfoldable pub make_position : ℤ → ℤ → Dict ℤ PositionAsset → Checked ErrorCode PositionState
unfolding check_asset_ids check_asset_values
make_position public_key collateral_balance assets = do
  stark_assert (in_bounds public_key_range public_key) (stark out_of_range_public_key)
  stark_assert (in_bounds signed_range collateral_balance) (stark out_of_range_balance)
  check_asset_ids assets
  check_asset_values assets
  returned (position public_key collateral_balance assets)

unfoldable pub empty_position : Checked ErrorCode PositionState
unfolding make_position
empty_position = make_position (pos 0) (pos 0) []

abbrev pub is_empty_position : PositionState → Bool
is_empty_position p = p.public_key == pos 0 && p.collateral_balance == pos 0 && length p.assets == 0

-- `verify_asset_index_exists`, and the lookup after it.
unfoldable pub index_of : Dict ℤ ℤ → ℤ → Checked ErrorCode ℤ
index_of indices asset_id = elim (Dict.get indices asset_id) [
  | none ↦ raised (perpetual missing_global_funding_index)
  | some index ↦ returned index
]

-- The loop of `apply_funding`, from the funding so far. The ids of a mapping are distinct, so each
-- new asset is one more entry.
unfoldable pub charge :
    Dict ℤ ℤ → Dict ℤ PositionAsset → ℤ → Checked ErrorCode (ℤ × Dict ℤ PositionAsset)
unfolding index_of make_asset
charge indices [] funding_delta = returned (funding_delta, [])
charge indices ((asset_id, a) ∷ assets) funding_delta = do
  global_funding_index ← index_of indices asset_id
  let funding_diff = global_funding_index -ℤ a.cached_funding_index
  updated_asset ← make_asset a.balance global_funding_index
  (total, updated_assets) ← charge indices assets (funding_delta -ℤ a.balance *ℤ funding_diff)
  returned (total, (asset_id, updated_asset) ∷ updated_assets)

-- PositionState.apply_funding, with the indices of a FundingIndicesState.
unfoldable pub apply_funding : PositionState → Dict ℤ ℤ → Checked ErrorCode PositionState
unfolding charge make_position
apply_funding p indices = do
  (funding_delta, updated_assets) ← charge indices p.assets (pos 0)
  make_position p.public_key (p.collateral_balance +ℤ floor_div funding_delta fixed_point_unit)
      updated_assets

pub record OrderState : Type 0 where
  pub fulfilled_amount : ℤ

unfoldable pub make_order : ℤ → Checked ErrorCode OrderState
make_order fulfilled_amount = do
  stark_assert (in_bounds amount_range fulfilled_amount) (stark out_of_range_amount)
  returned (record { fulfilled_amount = fulfilled_amount })

-- OrderState.add
unfoldable pub add : OrderState → ℤ → ℤ → Checked ErrorCode OrderState
unfolding make_order
add o fulfilled_amount capacity = do
  stark_assert (leb_int (pos 0) fulfilled_amount) (perpetual invalid_fulfillment_info)
  stark_assert (leb_int (o.fulfilled_amount +ℤ fulfilled_amount) capacity)
      (perpetual invalid_fulfillment_info)
  make_order (o.fulfilled_amount +ℤ fulfilled_amount)

-- `to_bytes(value)` of a Python integer: a negative one does not fit.
unfoldable pub to_bytes_int : ℤ → Option Bytes
unfolding to_bytes
to_bytes_int (pos n) = to_bytes n
to_bytes_int (negsuc n) = none

-- The upper bound of `signed_range` less its lower one.
abbrev pub signed_range_size : ℤ
signed_range_size = signed_range.upper_bound -ℤ signed_range.lower_bound

-- PositionAsset.calculate_message, whose assertion is on constants and holds.
unfoldable pub calculate_message : PositionAsset → ℤ → Option Bytes
unfolding to_bytes_int
calculate_message a asset_id =
    let asset_packed =
      asset_id *ℤ signed_range_size +ℤ (a.cached_funding_index -ℤ signed_range.lower_bound) in
    let shifted_balance = a.balance -ℤ signed_range.lower_bound in
    to_bytes_int (asset_packed *ℤ signed_range_size +ℤ shifted_balance)
