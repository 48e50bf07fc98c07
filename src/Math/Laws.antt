-- ===== src/Math/Laws.antt =====
-- The powers of two that the integer helpers return.
use starkex_data_availabilit.Prelude.{
  ℕ, zero, suc, ◌+◌, ◌-◌, ◌*◌, ◌/◌, ◌^◌, ◌<◌, ◌≤◌, ◌≡◌, refl, ap, ◌∙◌, some, arith, true, ◌==◌,
  ℕ_eq, inl, inr, Bool-cases, leb, lt→ltb,
}
use native.Mathlib.Nat.{pow-suc}
use starkex_data_availabilit.Math.{bit_length_rounds, bit_length, next_power_of_2}

-- A number is below the power of its bit length, and from 1 on at least half of it.
pub record Bits (x power : ℕ) : Type 0 where
  pub above : x < power
  tight : 0 < x → power ≤ 2 * x
  none_set : x ≡ 0 → power ≡ 1

next-Bits : (x power : ℕ) → 0 < x → Bits (x / 2) power → Bits x (2 * power)
next-Bits x power pos b =
    let a = b.above in
    let t = b.tight in
    let n = b.none_set in
    record { above = omega arith; tight = λ _. ground arith; none_set = λ z. absurd (omega arith) }

pub bit_length_rounds-Bits : (n x : ℕ) → x ≤ n → Bits x (2 ^ bit_length_rounds n x)
unfolding bit_length_rounds
bit_length_rounds-Bits zero x le = record {
  above = omega arith;
  tight = λ pos. absurd (omega arith);
  none_set = λ _. refl;
}
bit_length_rounds-Bits (suc n) x le = elim (Bool-cases (x == 0)) [
  | inl z ↦
      let e : x ≡ 0 = ground arith in
      rw (z)
        (record { above = omega arith; tight = λ pos. absurd (omega arith); none_set = λ _. refl })
  | inr z ↦
      let pos : 0 < x = ground arith in
      rw (z, pow_succ (bit_length_rounds n (x / 2)))
        (next-Bits x _ pos (bit_length_rounds-Bits n (x / 2) (omega arith)))
]
  where
    pow_succ : (k : ℕ) → 2 ^ (k + 1) ≡ 2 * 2 ^ k
    pow_succ k =
        let e : k + 1 ≡ suc k = omega arith in
        let d : 2 ^ suc k ≡ 2 * 2 ^ k = omega (arith, pow-suc 2 k) in ap (λ n. 2 ^ n) e ∙ d

-- Of a number above 0, `next_power_of_2` passes its own assertion and returns a power of two that is
-- at least the number and below its double, so the smallest one that is not below the number.
pub next_power_of_2_lem :
    (x : ℕ) → 0 < x → (k : ℕ) × (next_power_of_2 x ≡ some (2 ^ k)) × (x ≤ 2 ^ k) × (2 ^ k < 2 * x)
unfolding next_power_of_2 bit_length
next_power_of_2_lem x pos =
    let b = bit_length_rounds-Bits (x - 1) (x - 1) (omega arith) in
    let (lo, hi) = bounds x (2 ^ bit_length_rounds (x - 1) (x - 1)) pos b in
    (
      bit_length_rounds (x - 1) (x - 1),
      rw (lt→ltb 0 x pos, le→leb x _ lo, lt→ltb _ (2 * x) hi),
      lo,
      hi,
    )
  where
    bounds : (x power : ℕ) → 0 < x → Bits (x - 1) power → (x ≤ power) × (power < 2 * x)
    bounds x power pos b = let a = b.above in let t = b.tight in let n = b.none_set in ground arith

    le→leb : (a b : ℕ) → a ≤ b → leb a b ≡ true
    le→leb a b h = ground arith
