-- ===== src/Validators.antt =====
-- src/starkware/starkware_utils/field_validators.py: the validators that do not call a library.
-- Field names and messages are left out, but for those that validate_dict passes on. A validator returns True or raises.
pub mod PowerOfTwo
pub mod Dictionary
use starkex_data_availabilit.Prelude.{
  ℕ, zero, suc, ◌/◌, ◌%◌, Option, none, some, Bool, true, false, not, ◌&&◌, [], ◌∷◌, ltb, ◌==◌,
  ℕ_eq, if◌then◌else◌,
}
use starkex_data_availabilit.Prelude.Int.{ℤ, pos, negsuc, leb_int, ℤ_eq}
use starkex_data_availabilit.Prelude.Dict.{Dict}
use starkex_data_availabilit.Bytes.{Bytes}
use starkex_data_availabilit.Errors.{Checked, returned, raised, ◌>>=◌, ◌>>◌}

-- marshmallow.ValidationError
pub data ValidationError : Type 0 where
  validation_error : ValidationError

-- ValidatorType
abbrev pub Validator : Type 0 → Type 0 → Type 0
Validator E T = T → Checked E Bool

abbrev pub validate_positive_or_infinity : Validator ValidationError ℤ
validate_positive_or_infinity value =
    if leb_int value (pos 0) && not (value == negsuc 0)
    then raised validation_error
    else returned true

-- The loop of validate_power_of_two, on fuel.
unfoldable pub halve : ℕ → ℕ → ℕ
halve zero tmp_value = tmp_value
halve (suc fuel) tmp_value =
    let rest = halve fuel (tmp_value / 2) in
    if ltb 1 tmp_value then (if tmp_value % 2 == 1 then tmp_value else rest) else tmp_value

-- What is left of the value after the loop; the value itself is fuel enough.
abbrev pub halved : ℤ → ℤ
halved (pos n) = pos (halve n n)
halved (negsuc n) = negsuc n

unfoldable pub validate_power_of_two : Validator ValidationError ℤ
unfolding halve
validate_power_of_two value =
    if not (halved value == pos 1) then raised validation_error else returned true

-- A validator for the field of a given name.
abbrev pub NamedValidator : Type 0 → Type 0 → Type 0
NamedValidator E T = Bytes → Validator E T

-- `key_validator` and `value_validator`, by default validators that return True.
abbrev pub default : {E T : Type 0} → Option (NamedValidator E T) → NamedValidator E T
default none name value = returned true
default (some validator) name value = validator name value

-- `raise type(e)(...)` in place of an exception `e`.
abbrev pub raised_again : {E A : Type 0} → (E → E) → Checked E A → Checked E A
raised_again again (returned a) = returned a
raised_again again (raised e) = raised (again e)

-- `str(key)`, and the exception of the same type with the longer message.
module _ {E K V : Type 0} (str : K → Bytes) (again : E → E) where
  -- The loop of the validator of validate_dict.
  unfoldable pub validate_items : NamedValidator E K → NamedValidator E V → Validator E (Dict K V)
  validate_items key_validator value_validator [] = returned true
  validate_items key_validator value_validator ((key, value) ∷ items) = do
    raised_again again (do key_validator (str key) key; value_validator (str key) value)
    validate_items key_validator value_validator items

  -- validate_dict. Without `allow_none`, None has no items: AttributeError.
  unfoldable pub validate_dict :
      E
      → Option (NamedValidator E K)
      → Option (NamedValidator E V)
      → Bool
      → Validator E (Option (Dict K V))
  unfolding validate_items
  validate_dict attribute_error key_validator value_validator true none = returned true
  validate_dict attribute_error key_validator value_validator false none = raised attribute_error
  validate_dict attribute_error key_validator value_validator allow_none (some items) =
      validate_items (default key_validator) (default value_validator) items
