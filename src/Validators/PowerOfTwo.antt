-- ===== src/Validators/PowerOfTwo.antt =====
-- validate_power_of_two against the powers of two.
use starkex_data_availabilit.Prelude.{
  ℕ, zero, suc, ◌*◌, ◌/◌, ◌%◌, ◌^◌, ◌<◌, ◌≤◌, ◌≡◌, refl, ap, ◌∙◌, arith, true, false, ltb, ◌⊎◌, ◌≢◌,
  inl, inr, Bool-cases, ◌==◌, ℕ_eq,
}
use native.Mathlib.Nat.{pow-suc}
use starkex_data_availabilit.Prelude.Int.{ℤ, pos, negsuc, pos-injective, ℤ_eq}
use starkex_data_availabilit.Errors.{returned, raised}
use starkex_data_availabilit.Validators.{validation_error, halve, validate_power_of_two}

-- Any fuel from the number on gives the same.
halve-fuel : (f g n : ℕ) → n ≤ f → n ≤ g → halve f n ≡ halve g n
unfolding halve
halve-fuel zero zero n p q = refl
halve-fuel zero (suc g) n p q = ground arith
halve-fuel (suc f) zero n p q = ground arith
halve-fuel (suc f) (suc g) n p q = rw (halve-fuel f g (n / 2) (omega arith) (omega arith)) refl

pow_suc : (k : ℕ) → 2 ^ suc k ≡ 2 * 2 ^ k
pow_suc k = omega (arith, pow-suc 2 k)

halve-power : (f n : ℕ) → n ≤ f → halve f n ≡ 1 → (k : ℕ) × (n ≡ 2 ^ k)
unfolding halve
halve-power zero n p e = absurd (omega arith)
halve-power (suc f) n p e = elim (Bool-cases (ltb 1 n)) [
  | inr small ↦ (zero, (rw small at e))
  | inl large ↦ elim (Bool-cases (n % 2 == 1)) [
    | inl odd ↦ let r : n ≡ 1 = rw (large, odd) at e in absurd (ground (arith, r, large))
    | inr even ↦
        let r : halve f (n / 2) ≡ 1 = rw (large, even) at e in
        let (k, q) = halve-power f (n / 2) (omega arith) r in
        (suc k, ground (arith, pow_suc k, even, q))
  ]
]

pow_pos : (k : ℕ) → 0 < 2 ^ k
pow_pos zero = omega arith
pow_pos (suc k) = omega (arith, pow_suc k, pow_pos k)

power-halve : (k f : ℕ) → 2 ^ k ≤ f → halve f (2 ^ k) ≡ 1
unfolding halve
power-halve zero zero p = absurd (omega arith)
power-halve zero (suc f) p = ground arith
power-halve (suc k) zero p = absurd (omega (arith, pow_suc k, pow_pos k))
power-halve (suc k) (suc f) p =
    let t = pow_suc k in
    let d : 2 ^ suc k / 2 ≡ 2 ^ k = omega arith in
    let l : ltb 1 (2 ^ suc k) ≡ true = ground (arith, t, pow_pos k) in
    let o : (2 ^ suc k % 2 == 1) ≡ false = ground (arith, t) in
    rw (l, o, d) (power-halve k f (omega (arith, pow_pos k)))

halve-exits : (f n : ℕ) → n ≤ f → (halve f n ≤ 1) ⊎ (halve f n % 2 ≡ 1)
unfolding halve
halve-exits zero n p = inl (omega arith)
halve-exits (suc f) n p = elim (Bool-cases (ltb 1 n)) [
  | inr small ↦ rw small (inl (ground (arith, small)))
  | inl large ↦ elim (Bool-cases (n % 2 == 1)) [
    | inl odd ↦ rw (large, odd) (inr (ground (arith, odd)))
    | inr even ↦ rw (large, even) (halve-exits f (n / 2) (omega arith))
  ]
]

-- The loop of validate_power_of_two ends: with the value as fuel, or any fuel from it on, the loop
-- stops on a number that is at most 1 or odd, which does not depend on the fuel.
pub halve_terminates :
    (fuel n : ℕ)
    → n ≤ fuel
    → ((halve fuel n ≤ 1) ⊎ (halve fuel n % 2 ≡ 1)) × (halve fuel n ≡ halve n n)
halve_terminates fuel n p = (halve-exits fuel n p, halve-fuel fuel n n p (omega arith))

-- validate_power_of_two accepts exactly the powers of two: a number is either a power of two, and
-- then the validator returns True, or it is not, and then the validator raises.
pub validate_power_of_two_lem :
    (value : ℤ)
    → ((k : ℕ) × (value ≡ pos (2 ^ k)) × (validate_power_of_two value ≡ returned true))
      ⊎ (((k : ℕ) → value ≢ pos (2 ^ k)) × (validate_power_of_two value ≡ raised validation_error))
unfolding validate_power_of_two
validate_power_of_two_lem (negsuc n) = inr ((λ k e. absurd (cc e)), refl)
validate_power_of_two_lem (pos n) = elim (Bool-cases (halve n n == 1)) [
  | inl one ↦
      let (k, e) = halve-power n n (omega arith) (ground (arith, one)) in
      inl (k, ap pos e, rw one refl)
  | inr other ↦ inr (
    (λ k e.
        let q = pos-injective n (2 ^ k) e in
        let h = power-halve k n (omega (arith, q)) in
        let r : halve n n ≡ 1 = ap (halve n) q ∙ h in absurd (ground (arith, r, other))),
    rw other refl,
  )
]
