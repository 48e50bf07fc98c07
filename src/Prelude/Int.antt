-- ===== src/Prelude/Int.antt =====
-- Python's `int` where it may be negative, over the native numbers.
use Prim.Native.Nat.{ℕ, zero, suc, ◌+◌, ◌-◌, ◌*◌, ◌/◌}
use mathlib.Core.Path.{◌≡◌, refl, sym, ap, ◌∙◌}
use mathlib.Core.Logic.{◌↔◌, inl, inr}
use mathlib.Core.Bool.{Bool, true, false, not}
use native.Mathlib.Omega.{arith}
use starkex_data_availabilit.Prelude.Tests.{Eq, eqb, eqb_iff, leb, lt_or_ge, if◌then◌else◌}

pub data ℤ : Type 0 where
  pos : ℕ → ℤ
  negsuc : ℕ → ℤ

abbrev pub add_one : ℤ → ℤ
add_one (pos n) = pos (n + 1)
add_one (negsuc zero) = pos 0
add_one (negsuc (suc n)) = negsuc n

-- The difference of two numbers.
abbrev pub difference : ℕ → ℕ → ℤ
difference a b = if leb b a then pos (a - b) else negsuc (b - a - 1)

abbrev pub negate : ℤ → ℤ
negate (pos n) = difference 0 n
negate (negsuc n) = pos (suc n)

infixl 65 ◌+ℤ◌
abbrev pub ◌+ℤ◌ : ℤ → ℤ → ℤ
pos a +ℤ pos b = pos (a + b)
pos a +ℤ negsuc b = difference a (suc b)
negsuc a +ℤ pos b = difference b (suc a)
negsuc a +ℤ negsuc b = negsuc (suc (a + b))

infixl 65 ◌-ℤ◌
abbrev pub ◌-ℤ◌ : ℤ → ℤ → ℤ
x -ℤ y = x +ℤ negate y

infixl 70 ◌*ℤ◌
abbrev pub ◌*ℤ◌ : ℤ → ℤ → ℤ
pos a *ℤ pos b = pos (a * b)
pos a *ℤ negsuc b = negate (pos (a * suc b))
negsuc a *ℤ pos b = negate (pos (suc a * b))
negsuc a *ℤ negsuc b = pos (suc a * suc b)

-- `x // d`, rounded down.
abbrev pub floor_div : ℤ → ℕ → ℤ
floor_div (pos a) d = pos (a / d)
floor_div (negsuc a) d = negsuc (a / d)

-- `x <= y` and `x < y`
abbrev pub leb_int : ℤ → ℤ → Bool
leb_int (pos a) (pos b) = leb a b
leb_int (pos a) (negsuc b) = false
leb_int (negsuc a) (pos b) = true
leb_int (negsuc a) (negsuc b) = leb b a

abbrev pub ltb_int : ℤ → ℤ → Bool
ltb_int x y = not (leb_int y x)

abbrev pub eqb_int : ℤ → ℤ → Bool
eqb_int (pos a) (pos b) = eqb a b
eqb_int (negsuc a) (negsuc b) = eqb a b
eqb_int (pos a) (negsuc b) = false
eqb_int (negsuc a) (pos b) = false

pub eqb_int_iff : (x y : ℤ) → (eqb_int x y ≡ true) ↔ (x ≡ y)
eqb_int_iff (pos a) (pos b) = ((λ h. ap pos ((eqb_iff a b).0 h)), (λ h. (eqb_iff a b).1 (cc h)))
eqb_int_iff (negsuc a) (negsuc b) =
    ((λ h. ap negsuc ((eqb_iff a b).0 h)), (λ h. (eqb_iff a b).1 (cc h)))
eqb_int_iff (pos a) (negsuc b) = ((λ h. absurd (cc h)), (λ h. absurd (cc h)))
eqb_int_iff (negsuc a) (pos b) = ((λ h. absurd (cc h)), (λ h. absurd (cc h)))

instance abbrev pub ℤ_eq : Eq ℤ
ℤ_eq = record { beq = eqb_int; beq_iff = eqb_int_iff }

-- The number in either sign.
abbrev magnitude : ℤ → ℕ
magnitude (pos n) = n
magnitude (negsuc n) = n

pub pos-injective : (a b : ℕ) → pos a ≡ pos b → a ≡ b
pos-injective a b e = ap magnitude e

pub difference-pos : (a b m : ℕ) → difference a b ≡ pos m → a ≡ m + b
difference-pos a b m e = elim (lt_or_ge a b) [
  | inl lt ↦
      let c : leb b a ≡ false = ground arith in
      let r : negsuc (b - a - 1) ≡ pos m = rw c at e in absurd (cc r)
  | inr ge ↦
      let c : leb b a ≡ true = ground arith in
      let r : pos (a - b) ≡ pos m = rw c at e in let q = pos-injective (a - b) m r in omega arith
]

difference-below : (d : ℕ) → difference 0 (suc d) ≡ negsuc d
difference-below d = let c : leb (suc d) 0 ≡ false = ground arith in rw c (ap negsuc (omega arith))

difference-add : (a b : ℕ) → difference (a + b) b ≡ pos a
difference-add a b = let c : leb b (a + b) ≡ true = ground arith in rw c (ap pos (omega arith))

-- Adding a number and then its negative gives a natural number back.
pub add-negate : (n : ℕ) (d : ℤ) (m : ℕ) → pos n +ℤ d ≡ pos m → pos m +ℤ negate d ≡ pos n
add-negate n (pos zero) m e = let q = pos-injective (n + 0) m e in ap pos (omega arith)
add-negate n (pos (suc d)) m e =
    let q = pos-injective (n + suc d) m e in
    ap (λ z. pos m +ℤ z) (difference-below d)
    ∙ ap (λ k. difference k (suc d)) (sym q)
    ∙ difference-add n (suc d)
add-negate n (negsuc d) m e = ap pos (sym (difference-pos n (suc d) m e))

difference_self : (n : ℕ) → difference n n ≡ pos 0
difference_self n = let c : leb n n ≡ true = ground arith in rw c (ap pos (omega arith))

pub sub_self : (x : ℤ) → x -ℤ x ≡ pos 0
sub_self (pos zero) = refl
sub_self (pos (suc n)) = ap (λ z. pos (suc n) +ℤ z) (difference-below n) ∙ difference_self (suc n)
sub_self (negsuc n) = difference_self (suc n)

pub mul_zero : (x : ℤ) → x *ℤ pos 0 ≡ pos 0
mul_zero (pos n) = ap pos (omega arith)
mul_zero (negsuc n) = let z : suc n * 0 ≡ 0 = omega arith in ap (λ m. negate (pos m)) z

pub add_zero : (x : ℤ) → x +ℤ pos 0 ≡ x
add_zero (pos n) = ap pos (omega arith)
add_zero (negsuc n) = difference-below n
