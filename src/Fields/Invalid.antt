-- ===== src/Fields/Invalid.antt =====
-- The values that a field class lists as invalid are invalid.
use starkex_data_availabilit.Prelude.{
  ℕ, zero, suc, ◌-◌, ◌+◌, ◌<◌, ◌≡◌, refl, ap, arith, some, true, false, List, [], ◌∷◌, map, ℕ_eq,
  leb, length, All, Bool-cases, inl, inr,
}
use starkex_data_availabilit.Prelude.Int.{ℤ, pos, negsuc, ◌+ℤ◌, leb_int, ltb_int}
use starkex_data_availabilit.Fields.{
  Field, optional_field, Range, in_bounds, range_field, any_in_bounds, min_int, max_int, min_lower,
  max_upper, multi_range_field, zeros, bytes_length_field,
}

leb_int_refl : (x : ℤ) → leb_int x x ≡ true
leb_int_refl (pos n) = ground arith
leb_int_refl (negsuc n) = ground arith

leb_int_trans : (x y z : ℤ) → leb_int x y ≡ true → leb_int y z ≡ true → leb_int x z ≡ true
leb_int_trans (pos a) (pos b) (pos c) p q = ground (arith, p, q)
leb_int_trans (pos a) (pos b) (negsuc c) p q = absurd (cc q)
leb_int_trans (pos a) (negsuc b) z p q = absurd (cc p)
leb_int_trans (negsuc a) y (pos c) p q = refl
leb_int_trans (negsuc a) (pos b) (negsuc c) p q = absurd (cc q)
leb_int_trans (negsuc a) (negsuc b) (negsuc c) p q = ground (arith, p, q)

leb_int_total : (x y : ℤ) → leb_int x y ≡ false → leb_int y x ≡ true
leb_int_total (pos a) (pos b) p = ground (arith, p)
leb_int_total (pos a) (negsuc b) p = refl
leb_int_total (negsuc a) (pos b) p = absurd (cc p)
leb_int_total (negsuc a) (negsuc b) p = ground (arith, p)

-- One less than a number is below every number from it on.
one_less : (m l : ℤ) → leb_int m l ≡ true → leb_int l (m +ℤ negsuc 0) ≡ false
one_less (pos zero) (pos b) p = refl
one_less (pos (suc a)) (pos b) p =
    let d : leb 1 (suc a) ≡ true = ground arith in rw d (ground (arith, p))
one_less (pos a) (negsuc b) p = absurd (cc p)
one_less (negsuc a) (pos b) p = refl
one_less (negsuc a) (negsuc b) p = ground (arith, p)

one_more : (u m : ℤ) → leb_int u m ≡ true → ltb_int (m +ℤ pos 1) u ≡ false
one_more (pos a) (pos b) p = ground (arith, p)
one_more (pos a) (negsuc b) p = absurd (cc p)
one_more (negsuc a) (pos b) p = refl
one_more (negsuc a) (negsuc zero) p = refl
one_more (negsuc a) (negsuc (suc b)) p =
    let d : leb (suc (suc b)) 1 ≡ false = ground arith in rw d (ground (arith, p))

min_le : (x y : ℤ) → (leb_int (min_int x y) x ≡ true) × (leb_int (min_int x y) y ≡ true)
min_le x y = elim (Bool-cases (leb_int x y)) [
  | inl e ↦ rw e (leb_int_refl x, e)
  | inr e ↦ rw e (leb_int_total x y e, leb_int_refl y)
]

max_le : (x y : ℤ) → (leb_int x (max_int x y) ≡ true) × (leb_int y (max_int x y) ≡ true)
max_le x y = elim (Bool-cases (leb_int x y)) [
  | inl e ↦ rw e (e, leb_int_refl y)
  | inr e ↦ rw e (leb_int_refl x, leb_int_total x y e)
]

below_all :
    (m : ℤ) (range : Range) (ranges : List Range)
    → leb_int m (min_lower range ranges) ≡ true
    → any_in_bounds (range ∷ ranges) (m +ℤ negsuc 0) ≡ false
below_all m range [] e = rw (one_less m range.lower_bound e)
below_all m range (next ∷ ranges) e =
    let (p, q) = min_le range.lower_bound (min_lower next ranges) in
    rw (
      one_less m range.lower_bound (leb_int_trans m _ _ e p),
      below_all m next ranges (leb_int_trans m _ _ e q),
    )

above_all :
    (m : ℤ) (range : Range) (ranges : List Range)
    → leb_int (max_upper range ranges) m ≡ true
    → any_in_bounds (range ∷ ranges) (m +ℤ pos 1) ≡ false
above_all m range [] e = ground (arith, one_more range.upper_bound m e)
above_all m range (next ∷ ranges) e =
    let (p, q) = max_le range.upper_bound (max_upper next ranges) in
    ground (
      arith,
      one_more range.upper_bound m (leb_int_trans _ _ m p e),
      above_all m next ranges (leb_int_trans _ _ m q e),
    )

length-zeros : (n : ℕ) → length (zeros n) ≡ n
length-zeros zero = refl
length-zeros (suc n) = ap suc (length-zeros n)

-- Every value that the field lists is invalid.
abbrev pub ListsInvalid : {E T : Type 0} → Field E T → Type 0
ListsInvalid field = All (λ value. field.is_valid value ≡ false) field.get_invalid_values

optional-ListsInvalid :
    {E T : Type 0} (field : Field E T) → ListsInvalid field → ListsInvalid (optional_field field)
optional-ListsInvalid {T = T} field h = each field.get_invalid_values h
  where
    each :
        (values : List T)
        → All (λ value. field.is_valid value ≡ false) values
        → All (λ value. (optional_field field).is_valid value ≡ false) (map some values)
    each [] h = tt
    each (v ∷ vs) (p, h) = (p, each vs h)

-- The invalid values that a range field, a field of several ranges, a field of bytes of a length
-- above 0, and an optional field over a field that does, list for tests, are all rejected by the
-- field.
pub ListsInvalid_lem :
    {E T : Type 0} (code : E) (range : Range) (ranges : List Range) (len : ℕ) (field : Field E T)
    → 0 < len
    → ListsInvalid field
    → ListsInvalid (range_field code range)
      × ListsInvalid (multi_range_field code range ranges)
      × ListsInvalid (bytes_length_field code len)
      × ListsInvalid (optional_field field)
ListsInvalid_lem code range ranges len field pos_len h = (
  (at_lower, (at_upper, tt)),
  (
    below_all (min_lower range ranges) range ranges (leb_int_refl (min_lower range ranges)),
    (above_all (max_upper range ranges) range ranges (leb_int_refl (max_upper range ranges)), tt),
  ),
  (ground (arith, length-zeros (len - 1), pos_len), (ground (arith, length-zeros (len + 1)), tt)),
  optional-ListsInvalid field h,
)
  where
    at_lower : in_bounds range (range.lower_bound +ℤ negsuc 0) ≡ false
    at_lower =
        let e = one_less range.lower_bound range.lower_bound (leb_int_refl range.lower_bound) in
        rw e

    at_upper : in_bounds range range.upper_bound ≡ false
    at_upper = ground (arith, leb_int_refl range.upper_bound)
