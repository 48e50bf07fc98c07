-- ===== src/Tests/Positions.antt =====
-- The theorems on fields and on perpetual positions, at small numbers.
use starkex_data_availabilit.Prelude.{ℕ, some, ◌≡◌, refl, arith, [], ◌∷◌}
use starkex_data_availabilit.Prelude.Int.{ℤ, pos, negsuc}
use starkex_data_availabilit.Prelude.Dict.{Dict}
use starkex_data_availabilit.Errors.{returned}
use starkex_data_availabilit.Fields.{
  Range, range_field, multi_range_field, bytes_length_field, optional_field,
}
use starkex_data_availabilit.Fields.Invalid.{ListsInvalid, ListsInvalid_lem}
use starkex_data_availabilit.Perpetual.{
  PositionAsset, calculate_message, asset, PositionState, position, make_asset, index_of,
  check_asset_ids, check_asset_values, make_position, charge, apply_funding,
}
use starkex_data_availabilit.Perpetual.Packing.{IsAsset, calculate_message-injective}
use starkex_data_availabilit.Bytes.{Bytes}
use starkex_data_availabilit.Perpetual.Funding.{apply_funding-again}

abbrev digits : Range
digits = record { lower_bound = pos 0; upper_bound = pos 10 }

abbrev negative_digits : Range
negative_digits = record { lower_bound = negsuc 8; upper_bound = pos 0 }

ListsInvalid_example :
    ListsInvalid (range_field {E = ℕ} 7 digits)
    × ListsInvalid (multi_range_field {E = ℕ} 7 digits (negative_digits ∷ []))
    × ListsInvalid (bytes_length_field {E = ℕ} 7 4)
    × ListsInvalid (optional_field (range_field {E = ℕ} 7 digits))
ListsInvalid_example =
    ListsInvalid_lem 7 digits (negative_digits ∷ []) 4 (range_field {E = ℕ} 7 digits) (omega arith)
      (refl, (refl, tt))

-- Three units of asset 5, whose index goes up by one unit of the fixed point.
abbrev indices : Dict ℤ ℤ
indices = (pos 5, pos 4294967297) ∷ []

abbrev a_position : PositionState
a_position = position (pos 9) (pos 10) ((pos 5, asset (pos 3) (pos 1)) ∷ [])

abbrev funded_position : PositionState
funded_position = position (pos 9) (pos 7) ((pos 5, asset (pos 3) (pos 4294967297)) ∷ [])

funded : apply_funding a_position indices ≡ returned funded_position
unfolding apply_funding charge index_of make_asset make_position check_asset_ids check_asset_values
funded = refl

apply_funding-again_example : apply_funding funded_position indices ≡ returned funded_position
apply_funding-again_example = apply_funding-again a_position funded_position indices funded

abbrev an_asset : PositionAsset
an_asset = asset (pos 3) (negsuc 0)

an_asset-IsAsset : IsAsset an_asset (pos 5)
an_asset-IsAsset = record { balance_ok = refl; index_ok = refl; id_ok = refl }

calculate_message-injective_example :
    (m : Bytes) × (calculate_message an_asset (pos 5) ≡ some m)
    × (calculate_message an_asset (pos 5) ≡ some m
        → (pos 5 ≡ pos 5) × (negsuc 0 ≡ negsuc 0) × (pos 3 ≡ pos 3))
calculate_message-injective_example =
    calculate_message-injective an_asset an_asset (pos 5) (pos 5) an_asset-IsAsset an_asset-IsAsset
