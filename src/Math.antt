-- ===== src/Math.antt =====
-- src/starkware/python/math_utils.py: integer helpers, and elliptic curves over a prime field.
-- A coordinate is a number below the prime, so that a difference modulo the prime adds the prime
-- first. `div_mod` rests on igcdex of sympy, and is a parameter of the curve functions.
pub mod Laws
use starkex_data_availabilit.Prelude.{
  ℕ, zero, suc, ◌+◌, ◌-◌, ◌*◌, ◌/◌, ◌%◌, ◌^◌, Option, none, some, Bool, true, false, not, ◌&&◌,
  List, [], ◌∷◌, ltb, leb, ◌==◌, ℕ_eq, ◌>>=◌, ◌>>◌, guard, if◌then◌else◌,
}

-- The arguments are not negative here.
unfoldable pub safe_div : ℕ → ℕ → Option ℕ
safe_div x y = do guard (not (y == 0)); guard (x % y == 0); some (x / y)

-- `-((-x) // y)` rounds the negated quotient down: it is the quotient, plus one with a remainder.
-- A divisor of zero raises ZeroDivisionError.
unfoldable pub div_ceil : ℕ → ℕ → Option ℕ
div_ceil x y = do guard (not (y == 0)); some (if x % y == 0 then x / y else x / y + 1)

-- `int.bit_length`, with the number itself as enough fuel.
unfoldable pub bit_length_rounds : ℕ → ℕ → ℕ
bit_length_rounds zero x = 0
bit_length_rounds (suc n) x =
    let rest = bit_length_rounds n (x / 2) in if x == 0 then 0 else rest + 1

unfoldable pub bit_length : ℕ → ℕ
unfolding bit_length_rounds
bit_length x = bit_length_rounds x x

unfoldable pub next_power_of_2 : ℕ → Option ℕ
unfolding bit_length
next_power_of_2 x = do
  guard (ltb 0 x)
  let res = 2 ^ bit_length (x - 1)
  guard (leb x res && ltb res (2 * x))
  some res

unfoldable pub prev_power_of_2 : ℕ → Option ℕ
unfolding next_power_of_2
prev_power_of_2 x = do guard (ltb 0 x); res ← next_power_of_2 (x + 1); some (res / 2)

-- The loop of Newton's method, from `x` and `y`; `y` falls in each round, so that `y` itself is
-- enough fuel.
unfoldable pub isqrt_loop : ℕ → ℕ → ℕ → ℕ → ℕ
isqrt_loop zero n x y = x
isqrt_loop (suc fuel) n x y =
    let rest = isqrt_loop fuel n y ((y + n / y) / 2) in if ltb y x then rest else x

unfoldable pub isqrt : ℕ → Option ℕ
unfolding isqrt_loop
isqrt n = do
  let x = isqrt_loop (n + 1) n n ((n + 1) / 2)
  guard (leb (x * x) n && ltb n ((x + 1) * (x + 1)))
  some x

-- `coefs[::-1]` folded: the first coefficient is the last one added.
unfoldable pub horner_eval : List ℕ → ℕ → ℕ → ℕ
horner_eval [] point prime = 0
horner_eval (coef ∷ coefs) point prime = (horner_eval coefs point prime * point + coef) % prime

-- A point in affine form, or EC_INFINITY.
pub data EcPoint : Type 0 where
  infinity : EcPoint
  affine : ℕ → ℕ → EcPoint

-- `(a - b) % p` of numbers of which the second is below `p` times some bound.
abbrev pub sub_mod : ℕ → ℕ → ℕ → ℕ
sub_mod a b p = (a + (p - b % p)) % p

module _ (div_mod : ℕ → ℕ → ℕ → Option ℕ) where
  -- The differences are passed on modulo the prime, where `div_mod` gives the same result.
  unfoldable pub line_slope : ℕ → ℕ → ℕ → ℕ → ℕ → Option ℕ
  line_slope x1 y1 x2 y2 p = do
    guard (not (sub_mod x1 x2 p == 0))
    div_mod (sub_mod y1 y2 p) (sub_mod x1 x2 p) p

  unfoldable pub ec_add : ℕ → ℕ → ℕ → ℕ → ℕ → Option EcPoint
  unfolding line_slope
  ec_add x1 y1 x2 y2 p = do
    m ← line_slope x1 y1 x2 y2 p
    let x = sub_mod (m * m) (x1 + x2) p
    some (affine x (sub_mod (m * sub_mod x1 x p) y1 p))

  unfoldable pub ec_double_slope : ℕ → ℕ → ℕ → ℕ → Option ℕ
  ec_double_slope x1 y1 alpha p = do
    guard (not (y1 % p == 0))
    div_mod (3 * x1 * x1 + alpha) (2 * y1) p

  unfoldable pub ec_double : ℕ → ℕ → ℕ → ℕ → Option EcPoint
  unfolding ec_double_slope
  ec_double x1 y1 alpha p = do
    m ← ec_double_slope x1 y1 alpha p
    let x = sub_mod (m * m) (2 * x1) p
    some (affine x (sub_mod (m * sub_mod x1 x p) y1 p))

  unfoldable pub ec_safe_add : EcPoint → EcPoint → ℕ → ℕ → Option EcPoint
  unfolding ec_add ec_double
  ec_safe_add infinity point2 alpha p = some point2
  ec_safe_add (affine x y) infinity alpha p = some (affine x y)
  ec_safe_add (affine x y) (affine z w) alpha p =
      if x % p == z % p
      then (if y % p == (p - w % p) % p then some infinity else ec_double (x % p) (y % p) alpha p)
      else ec_add (x % p) (y % p) (z % p) (w % p) p

  -- The multiplier falls in each call, so that itself is enough fuel. A multiplier of zero recurses
  -- without end in the source, and runs out here.
  unfoldable pub ec_safe_mult : ℕ → ℕ → EcPoint → ℕ → ℕ → Option EcPoint
  unfolding ec_safe_add
  ec_safe_mult zero m point alpha p = none
  ec_safe_mult (suc fuel) m point alpha p = elim (m == 1) [
    | true ↦ some point
    | false ↦ elim (m % 2 == 0) [
      | true ↦ (do
        doubled ← ec_safe_add point point alpha p
        ec_safe_mult fuel (m / 2) doubled alpha p)
      | false ↦ (do rest ← ec_safe_mult fuel (m - 1) point alpha p; ec_safe_add rest point alpha p)
    ]
  ]
