-- ===== src/Validators/Dictionary.antt =====
-- validate_dict against its two validators.
use starkex_data_availabilit.Prelude.{◌≡◌, ◌↔◌, refl, Option, some, Bool, true, [], ◌∷◌, All}
use starkex_data_availabilit.Prelude.Dict.{Dict}
use starkex_data_availabilit.Errors.{Checked, returned, raised, ◌>>◌, >>=-returned}
use starkex_data_availabilit.Bytes.{Bytes}
use starkex_data_availabilit.Validators.{
  Validator, NamedValidator, default, raised_again, validate_items, validate_dict,
}

-- The validator returns.
abbrev pub Accepts : {E T : Type 0} → Validator E T → T → Type 0
Accepts validator value = (b : Bool) × (validator value ≡ returned b)

-- What returns where an exception would have been raised again.
raised_again-returned :
    {E A : Type 0} (again : E → E) (m : Checked E A) (a : A)
    → raised_again again m ≡ returned a
    → m ≡ returned a
raised_again-returned again (returned x) a e = e
raised_again-returned again (raised c) a e = absurd (cc e)

module _ {E K V : Type 0} (str : K → Bytes) (again : E → E) (key_validator : NamedValidator E K)
    (value_validator : NamedValidator E V) where
  -- Both validators return on the item, each made with the key's string as its name.
  abbrev pub ItemAccepts : K × V → Type 0
  ItemAccepts item =
      Accepts (key_validator (str item.0)) item.0 × Accepts (value_validator (str item.0)) item.1

  accepted :
      (items : Dict K V)
      → validate_items str again key_validator value_validator items ≡ returned true
      → All ItemAccepts items
  unfolding validate_items
  accepted [] e = tt
  accepted ((k, v) ∷ items) e =
      let (b, pq, e1) =
        >>=-returned (raised_again again (key_validator (str k) k >> value_validator (str k) v)) _
          true e in
      let (a, p, q) =
        >>=-returned (key_validator (str k) k) _ b (raised_again-returned again _ b pq) in
      (((a, p), (b, q)), accepted items e1)

  accepts :
      (items : Dict K V)
      → All ItemAccepts items
      → validate_items str again key_validator value_validator items ≡ returned true
  unfolding validate_items
  accepts [] h = refl
  accepts ((k, v) ∷ items) (((a, p), (b, q)), h) = rw (p, q) (accepts items h)

-- On a dictionary the validator of validate_dict returns True exactly when the key validator returns
-- on each key and the value validator on each value, each made with the key's string as its name; a
-- validator that is None accepts everything.
pub validate_dict_iff :
    {E K V : Type 0} (str : K → Bytes) (again : E → E) (attribute_error : E)
    (key_validator : Option (NamedValidator E K)) (value_validator : Option (NamedValidator E V))
    (allow_none : Bool) (items : Dict K V)
    → (validate_dict str again attribute_error key_validator value_validator allow_none (some items)
        ≡ returned true)
      ↔ All (ItemAccepts str again (default key_validator) (default value_validator)) items
unfolding validate_dict
validate_dict_iff str again attribute_error key_validator value_validator allow_none items = (
  (λ e. accepted str again (default key_validator) (default value_validator) items e),
  (λ h. accepts str again (default key_validator) (default value_validator) items h),
)
