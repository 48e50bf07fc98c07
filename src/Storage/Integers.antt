-- ===== src/Storage/Integers.antt =====
-- IntToIntMapping: the round trip of its values.
use starkex_data_availabilit.Prelude.{
  ℕ, zero, suc, ◌+◌, ◌*◌, ◌/◌, ◌^◌, ◌≤◌, ◌≡◌, refl, ap, ◌∙◌, arith, some,
}
use native.Mathlib.Nat.{pow-suc, pow-le-pow_right}
use starkex_data_availabilit.Bytes.{Bytes}
use starkex_data_availabilit.Bytes.RoundTrip.{to_bytes_len-fits}
use starkex_data_availabilit.Math.{bit_length, bit_length_rounds}
use starkex_data_availabilit.Math.Laws.{bit_length_rounds-Bits}
use starkex_data_availabilit.Storage.Values.{serialize_int, deserialize_int}

double : (k n : ℕ) → n ≡ k + 1 → 2 ^ n ≡ 2 * 2 ^ k
double k n e = let f : n ≡ suc k = omega arith in ap (λ m. 2 ^ m) f ∙ omega (arith, pow-suc 2 k)

four_fold : (k n : ℕ) → n ≡ k + 2 → 2 ^ n ≡ 4 * 2 ^ k
four_fold k n e = omega (arith, double k (k + 1) refl, double (k + 1) n (omega arith))

-- Eight bits make a byte.
eight_bits : (k : ℕ) → 2 ^ (k + 8) ≡ 256 * 2 ^ k
eight_bits k = omega (
  arith,
  four_fold k (k + 2) refl,
  four_fold (k + 2) (k + 4) (omega arith),
  four_fold (k + 4) (k + 6) (omega arith),
  four_fold (k + 6) (k + 8) (omega arith),
)

pow_bytes : (m : ℕ) → 2 ^ (m * 8) ≡ 256 ^ m
pow_bytes zero = refl
pow_bytes (suc m) =
    let e : suc m * 8 ≡ m * 8 + 8 = omega arith in
    ap (λ k. 2 ^ k) e ∙ omega (arith, eight_bits (m * 8), pow-suc 256 m, pow_bytes m)

pow_le : (m b : ℕ) → b ≤ m * 8 → 2 ^ b ≤ 256 ^ m
pow_le m b h =
    let p : 2 ^ b ≤ 2 ^ (m * 8) = pow-le-pow_right (omega arith) h in omega (arith, pow_bytes m)

-- serialize of IntToIntMapping never fails on a natural number, and its deserialize reads the number
-- back.
pub deserialize_int-serialize_int :
    (value : ℕ) → (bs : Bytes) × (serialize_int value ≡ some bs) × (deserialize_int bs ≡ value)
unfolding serialize_int deserialize_int bit_length
deserialize_int-serialize_int value =
    let b = bit_length_rounds-Bits value value (omega arith) in
    let fit =
      pow_le ((bit_length_rounds value value + 7) / 8) (bit_length_rounds value value)
        (omega arith) in
    let (bs, e, r, _, _) =
      to_bytes_len-fits value ((bit_length_rounds value value + 7) / 8)
        (omega (arith, b.above, fit)) in
    (bs, e, r)
