-- ===== src/Tests/Inputs.antt =====
-- The theorems on validators, stored integers and subsequences, at small values.
use starkex_data_availabilit.Prelude.{
  Option, ℕ_eq, List, ℕ, ◌≤◌, ◌^◌, ◌%◌, ◌≡◌, ◌≢◌, ◌⊎◌, ◌↔◌, arith, some, none, true, [], ◌∷◌, All,
}
use starkex_data_availabilit.Prelude.Int.{ℤ, pos, negsuc}
use starkex_data_availabilit.Prelude.Dict.{Dict}
use starkex_data_availabilit.Errors.{returned, raised}
use starkex_data_availabilit.Validators.{
  NamedValidator, ValidationError, validation_error, halve, default, validate_dict,
  validate_power_of_two, validate_positive_or_infinity,
}
use mathlib.Core.List.{Sublistᴰ}
use starkex_data_availabilit.Bytes.{Bytes}
use starkex_data_availabilit.Committee.{str}
use starkex_data_availabilit.Storage.Values.{serialize_int, deserialize_int, is_subsequence}
use starkex_data_availabilit.Storage.Integers.{deserialize_int-serialize_int}
use starkex_data_availabilit.Storage.Subsequence.{is_subsequence_iff}
use starkex_data_availabilit.Validators.PowerOfTwo.{halve_terminates, validate_power_of_two_lem}
use starkex_data_availabilit.Validators.Dictionary.{ItemAccepts, validate_dict_iff}

halve_terminates_example : ((halve 9 8 ≤ 1) ⊎ (halve 9 8 % 2 ≡ 1)) × (halve 9 8 ≡ halve 8 8)
halve_terminates_example = halve_terminates 9 8 (omega arith)

validate_power_of_two_example :
    ((k : ℕ) × (pos 8 ≡ pos (2 ^ k)) × (validate_power_of_two (pos 8) ≡ returned true))
    ⊎ (((k : ℕ) → pos 8 ≢ pos (2 ^ k)) × (validate_power_of_two (pos 8) ≡ raised validation_error))
validate_power_of_two_example = validate_power_of_two_lem (pos 8)

abbrev limits : Dict ℤ ℤ
limits = (pos 1, negsuc 0) ∷ (pos 2, pos 4) ∷ []

abbrev limits_validator : Option (NamedValidator ValidationError ℤ)
limits_validator = some (λ name. validate_positive_or_infinity)

validate_dict_example :
    (validate_dict {V = ℤ} str (λ e. e) validation_error none limits_validator true (some limits)
      ≡ returned true)
    ↔ All (ItemAccepts str (λ e. e) (default none) (default limits_validator)) limits
validate_dict_example =
    validate_dict_iff str (λ e. e) validation_error none limits_validator true limits

deserialize_int-serialize_int_example :
    (bs : Bytes) × (serialize_int 300 ≡ some bs) × (deserialize_int bs ≡ 300)
deserialize_int-serialize_int_example = deserialize_int-serialize_int 300

abbrev evens : List ℕ
evens = 2 ∷ 4 ∷ []

abbrev counting : List ℕ
counting = 1 ∷ 2 ∷ 3 ∷ 4 ∷ []

is_subsequence_example : (is_subsequence evens counting ≡ true) ↔ Sublistᴰ evens counting
is_subsequence_example = is_subsequence_iff evens counting
