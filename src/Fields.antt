-- ===== src/Fields.antt =====
-- src/starkware/starkware_utils/validated_fields.py: the checks of the field classes. Names, messages
-- and marshmallow fields are left out; a random choice is a parameter.
pub mod Invalid
use starkex_data_availabilit.Prelude.{
  ℕ, zero, suc, ◌-◌, ◌+◌, Option, none, some, Bool, true, false, ◌&&◌, ◌||◌, List, [], ◌∷◌, map,
  ◌==◌, ℕ_eq, ltb, length, if◌then◌else◌,
}
use starkex_data_availabilit.Prelude.Int.{ℤ, pos, negsuc, ◌+ℤ◌, leb_int, ltb_int}
use starkex_data_availabilit.Bytes.{Bytes}
use starkex_data_availabilit.Errors.{Checked, stark_assert}

-- The methods of a Field that its wrapper and `validate` use.
pub record Field (E T : Type 0) : Type 0 where
  pub error_code : E
  pub is_valid : T → Bool
  pub get_invalid_values : List T

module _ {E T : Type 0} where
  -- Field.validate
  abbrev pub validate : Field E T → T → Checked E (Unit {0})
  validate field value = stark_assert (field.is_valid value) field.error_code

  abbrev pub optional_is_valid : Field E T → Option T → Bool
  optional_is_valid field none = true
  optional_is_valid field (some value) = field.is_valid value

  -- OptionalField; a value of the wrapped field is never None.
  abbrev pub optional_field : Field E T → Field E (Option T)
  optional_field field = record {
    error_code = field.error_code;
    is_valid = optional_is_valid field;
    get_invalid_values = map some field.get_invalid_values;
  }

-- The bounds of a RangeValidatedField, the upper one excluded.
pub record Range : Type 0 where
  pub lower_bound : ℤ
  pub upper_bound : ℤ

abbrev pub in_bounds : Range → ℤ → Bool
in_bounds range value = leb_int range.lower_bound value && ltb_int value range.upper_bound

-- RangeValidatedField
abbrev pub range_field : {E : Type 0} → E → Range → Field E ℤ
range_field code range = record {
  error_code = code;
  is_valid = in_bounds range;
  get_invalid_values = (range.lower_bound +ℤ negsuc 0) ∷ range.upper_bound ∷ [];
}

abbrev pub any_in_bounds : List Range → ℤ → Bool
any_in_bounds [] value = false
any_in_bounds (range ∷ ranges) value = in_bounds range value || any_in_bounds ranges value

abbrev pub min_int : ℤ → ℤ → ℤ
min_int x y = if leb_int x y then x else y

abbrev pub max_int : ℤ → ℤ → ℤ
max_int x y = if leb_int x y then y else x

abbrev pub min_lower : Range → List Range → ℤ
min_lower range [] = range.lower_bound
min_lower range (next ∷ ranges) = min_int range.lower_bound (min_lower next ranges)

abbrev pub max_upper : Range → List Range → ℤ
max_upper range [] = range.upper_bound
max_upper range (next ∷ ranges) = max_int range.upper_bound (max_upper next ranges)

-- MultiRangeValidatedField, with at least one range: `min` and `max` of no values raise.
abbrev pub multi_range_field : {E : Type 0} → E → Range → List Range → Field E ℤ
multi_range_field code range ranges = record {
  error_code = code;
  is_valid = any_in_bounds (range ∷ ranges);
  get_invalid_values =
      (min_lower range ranges +ℤ negsuc 0) ∷ (max_upper range ranges +ℤ pos 1) ∷ [];
}

abbrev pub zeros : ℕ → Bytes
zeros zero = []
zeros (suc n) = 0 ∷ zeros n

-- BytesLengthField; its constructor asserts a length above 0.
abbrev pub bytes_length_field : {E : Type 0} → E → ℕ → Field E Bytes
bytes_length_field code len = record {
  error_code = code;
  is_valid = λ value. length value == len;
  get_invalid_values = zeros (len - 1) ∷ zeros (len + 1) ∷ [];
}
