-- ===== src/Bytes/RoundTrip.antt =====
-- `from_bytes` and `to_bytes` are inverse to one another on their ranges.
use starkex_data_availabilit.Prelude.{
  ℕ, zero, suc, ◌+◌, ◌*◌, ◌/◌, ◌%◌, ◌^◌, ◌<◌, ◌≤◌, ◌≡◌, ◌⊎◌, inl, inr, refl, ap, ap₂, sym, ◌∙◌,
  some, [], ◌∷◌, ◌++◌, arith, lt→ltb, length, length-append, All,
}
use native.Mathlib.Nat.{pow-suc}
use starkex_data_availabilit.Bytes.{
  Bytes, IsBytes, big_endian, to_bytes_len, from_bytes_acc, from_bytes,
}

pow_256 : (n : ℕ) → 256 ^ suc n ≡ 256 * 256 ^ n
pow_256 n = omega (arith, pow-suc 256 n)

pub length-big_endian : (n v : ℕ) → length (big_endian n v) ≡ n
unfolding big_endian
length-big_endian zero v = refl
length-big_endian (suc n) v =
    length-append (big_endian n (v / 256)) _ ∙ omega (arith, length-big_endian n (v / 256))

All-append : (P : ℕ → Type 0) (xs ys : Bytes) → All P xs → All P ys → All P (xs ++ ys)
All-append P [] ys h k = k
All-append P (x ∷ xs) ys h k = (h.0, All-append P xs ys h.1 k)

pub big_endian-IsBytes : (n v : ℕ) → IsBytes (big_endian n v)
unfolding big_endian
big_endian-IsBytes zero v = tt
big_endian-IsBytes (suc n) v =
    All-append _ (big_endian n (v / 256)) _ (big_endian-IsBytes n (v / 256)) (omega arith)

from_bytes_acc-snoc :
    (acc : ℕ) (xs : Bytes) (b : ℕ)
    → from_bytes_acc acc (xs ++ b ∷ []) ≡ from_bytes_acc acc xs * 256 + b
unfolding from_bytes_acc
from_bytes_acc-snoc acc [] b = refl
from_bytes_acc-snoc acc (x ∷ xs) b = from_bytes_acc-snoc (acc * 256 + x) xs b

pub from_bytes-big_endian : (n v : ℕ) → v < 256 ^ n → from_bytes (big_endian n v) ≡ v
unfolding from_bytes big_endian
from_bytes-big_endian zero v h = omega arith
from_bytes-big_endian (suc n) v h =
    from_bytes_acc-snoc 0 (big_endian n (v / 256)) (v % 256)
    ∙ omega (arith, pow_256 n, from_bytes-big_endian n (v / 256) (omega (arith, pow_256 n)))

shift_digit :
    (acc x p q f g : ℕ)
    → q ≡ 256 * p
    → g ≡ (0 * 256 + x) * p + f
    → (acc * 256 + x) * p + f ≡ acc * q + g
shift_digit acc x p q f g hq hg = rw (hq, hg) (omega arith)

from_bytes_acc_digit :
    (acc x : ℕ) (xs : Bytes)
    → from_bytes_acc (acc * 256 + x) xs ≡ (acc * 256 + x) * 256 ^ length xs + from_bytes_acc 0 xs
    → from_bytes_acc (0 * 256 + x) xs ≡ (0 * 256 + x) * 256 ^ length xs + from_bytes_acc 0 xs
    → from_bytes_acc (acc * 256 + x) xs
      ≡ acc * 256 ^ suc (length xs) + from_bytes_acc (0 * 256 + x) xs
from_bytes_acc_digit acc x xs e f =
    e ∙ shift_digit acc x (256 ^ length xs) _ (from_bytes_acc 0 xs) _ (pow_256 (length xs)) f

from_bytes_acc-eq :
    (acc : ℕ) (xs : Bytes) → from_bytes_acc acc xs ≡ acc * 256 ^ length xs + from_bytes_acc 0 xs
unfolding from_bytes_acc
from_bytes_acc-eq acc [] = omega arith
from_bytes_acc-eq acc (x ∷ xs) =
    from_bytes_acc_digit acc x xs (from_bytes_acc-eq (acc * 256 + x) xs)
      (from_bytes_acc-eq (0 * 256 + x) xs)

from_bytes-cons : (x : ℕ) (xs : Bytes) → from_bytes (x ∷ xs) ≡ x * 256 ^ length xs + from_bytes xs
unfolding from_bytes from_bytes_acc
from_bytes-cons x xs = from_bytes_acc-eq (0 * 256 + x) xs ∙ omega arith

digit_lt : (x p q f : ℕ) → x < 256 → f < p → q ≡ 256 * p → x * p + f < q
digit_lt x p q f hx hf hq = rw hq (grind arith)

pub from_bytes-lt : (xs : Bytes) → IsBytes xs → from_bytes xs < 256 ^ length xs
from_bytes-lt [] h = unfold from_bytes from_bytes_acc in omega arith
from_bytes-lt (x ∷ xs) h = rw (from_bytes-cons x xs) (
    digit_lt x (256 ^ length xs) _ (from_bytes xs) h.0 (from_bytes-lt xs h.1) (pow_256 (length xs)))

mul_step : (x y p : ℕ) → x < y → x * p + p ≤ y * p
mul_step x y p h = grind arith

lt_eq_gt : (x y : ℕ) → (x < y) ⊎ ((x ≡ y) ⊎ (y < x))
lt_eq_gt x y = grind arith

-- The leading digits of equal numbers are equal, and so are the rests.
digit_split : (x y p r s : ℕ) → r < p → s < p → x * p + r ≡ y * p + s → (x ≡ y) × (r ≡ s)
digit_split x y p r s hr hs e = elim (lt_eq_gt x y) [
  | inl less ↦ absurd (omega (arith, mul_step x y p less))
  | inr (inl same) ↦
      (same, let e' : x * p + r ≡ x * p + s = e ∙ ap (λ n. n * p + s) (sym same) in omega arith)
  | inr (inr more) ↦ absurd (omega (arith, mul_step y x p more))
]

-- Two byte strings of one length that denote the same number are equal.
pub from_bytes-injective :
    (xs ys : Bytes)
    → IsBytes xs
    → IsBytes ys
    → length xs ≡ length ys
    → from_bytes xs ≡ from_bytes ys
    → xs ≡ ys
from_bytes-injective [] [] hx hy l e = refl
from_bytes-injective [] (y ∷ ys) hx hy l e = absurd (omega arith)
from_bytes-injective (x ∷ xs) [] hx hy l e = absurd (omega arith)
from_bytes-injective (x ∷ xs) (y ∷ ys) hx hy l e =
    let l' : length xs ≡ length ys = omega arith in
    let e' : x * 256 ^ length xs + from_bytes xs ≡ y * 256 ^ length xs + from_bytes ys =
      sym (from_bytes-cons x xs)
      ∙ e
      ∙ from_bytes-cons y ys
      ∙ ap (λ n. y * 256 ^ n + from_bytes ys) (sym l') in
    let (p, q) =
      digit_split x y (256 ^ length xs) (from_bytes xs) (from_bytes ys) (from_bytes-lt xs hx.1)
        (rw l' (from_bytes-lt ys hy.1)) e' in
    ap₂ (λ a s. a ∷ s) p (from_bytes-injective xs ys hx.1 hy.1 l' q)

-- The bytes that `from_bytes` has read are those of the number it returns, at their length.
pub big_endian-from_bytes : (xs : Bytes) → IsBytes xs → big_endian (length xs) (from_bytes xs) ≡ xs
big_endian-from_bytes xs h =
    from_bytes-injective (big_endian (length xs) (from_bytes xs)) xs
      (big_endian-IsBytes (length xs) (from_bytes xs)) h
      (length-big_endian (length xs) (from_bytes xs))
      (from_bytes-big_endian (length xs) (from_bytes xs) (from_bytes-lt xs h))

-- `to_bytes` of a value that fits in the given number of bytes succeeds, with bytes of this length
-- that `from_bytes` reads back.
pub to_bytes_len-fits :
    (v n : ℕ)
    → v < 256 ^ n
    → (bs : Bytes) × (to_bytes_len v n ≡ some bs)
      × (from_bytes bs ≡ v)
      × (length bs ≡ n)
      × IsBytes bs
unfolding to_bytes_len
to_bytes_len-fits v n h = (
  big_endian n v,
  rw (lt→ltb v (256 ^ n) h),
  from_bytes-big_endian n v h,
  length-big_endian n v,
  big_endian-IsBytes n v,
)
