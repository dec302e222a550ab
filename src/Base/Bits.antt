-- ===== src/Base/Bits.antt =====
-- Laws of `&` and `|` at variables, from the digit recursion that the native operations stand for.
use Prim.Native.Nat.{
  ℕ, zero, suc, ◌+◌, ◌-◌, ◌*◌, ◌/◌, ◌%◌, ◌^◌, ◌≤◌, ◌<◌, min, max, bit_and, bit_or, digits,
  bit_and-bitwise, bit_or-bitwise,
}
use mathlib.Core.Path.{◌≡◌, refl, ap, ap₂, ◌∙◌, sym}
use native.Mathlib.Nat.{
  div-div-eq-div-mul, pow-suc, mul_comm, mul_assoc, div-one, div-add-mod, div-eq_of_lt-le,
}
use native.Mathlib.Decide.{dec_lt}
use native.Mathlib.Omega.{arith}

-- One recursion for both: `z` is the result at 0, and `m` that at two digits.
module _ (z : ℕ → ℕ) (m : ℕ → ℕ → ℕ) (z_step : (b : ℕ) → z b ≡ z (b / 2) * 2 + m 0 (b % 2)) where
  digits_fuel :
      (fuel more a b : ℕ) → a ≤ fuel → a ≤ more → digits z m fuel a b ≡ digits z m more a b
  digits_fuel zero zero a b p q = refl
  digits_fuel zero (suc more) zero b p q = refl
  digits_fuel zero (suc more) (suc a) b p q = absurd (omega arith)
  digits_fuel (suc fuel) zero zero b p q = refl
  digits_fuel (suc fuel) zero (suc a) b p q = absurd (omega arith)
  digits_fuel (suc fuel) (suc more) zero b p q = refl
  digits_fuel (suc fuel) (suc more) (suc a) b p q =
      omega (arith, digits_fuel fuel more (suc a / 2) (b / 2) (omega arith) (omega arith))

  digits_step :
      (a b : ℕ) → digits z m a a b ≡ digits z m (a / 2) (a / 2) (b / 2) * 2 + m (a % 2) (b % 2)
  digits_step zero b = z_step b
  digits_step (suc a) b =
      omega (arith, digits_fuel a (suc a / 2) (suc a / 2) (b / 2) (omega arith) (omega arith))

and_zero_step : (b : ℕ) → 0 ≡ 0 * 2 + min 0 (b % 2)
and_zero_step b = omega arith

or_zero_step : (b : ℕ) → b ≡ b / 2 * 2 + max 0 (b % 2)
or_zero_step b = omega arith

pub bit_and_step : (a b : ℕ) → bit_and a b ≡ bit_and (a / 2) (b / 2) * 2 + min (a % 2) (b % 2)
bit_and_step a b = omega (
  arith,
  bit_and-bitwise a b,
  bit_and-bitwise (a / 2) (b / 2),
  digits_step (λ b. zero) min and_zero_step a b,
)

pub bit_or_step : (a b : ℕ) → bit_or a b ≡ bit_or (a / 2) (b / 2) * 2 + max (a % 2) (b % 2)
bit_or_step a b = omega (
  arith,
  bit_or-bitwise a b,
  bit_or-bitwise (a / 2) (b / 2),
  digits_step (λ b. b) max or_zero_step a b,
)

pub zero-bit_and : (b : ℕ) → bit_and 0 b ≡ 0
zero-bit_and b = bit_and-bitwise 0 b

pub zero-bit_or : (b : ℕ) → bit_or 0 b ≡ b
zero-bit_or b = bit_or-bitwise 0 b

bit_and-zero_fuel : (fuel a : ℕ) → a ≤ fuel → bit_and a 0 ≡ 0
bit_and-zero_fuel fuel zero h = zero-bit_and 0
bit_and-zero_fuel zero (suc a) h = absurd (omega arith)
bit_and-zero_fuel (suc fuel) (suc a) h =
    omega (arith, bit_and_step (suc a) 0, bit_and-zero_fuel fuel (suc a / 2) (omega arith))

pub bit_and-zero : (a : ℕ) → bit_and a 0 ≡ 0
bit_and-zero a = bit_and-zero_fuel a a (omega arith)

bit_or-zero_fuel : (fuel a : ℕ) → a ≤ fuel → bit_or a 0 ≡ a
bit_or-zero_fuel fuel zero h = zero-bit_or 0
bit_or-zero_fuel zero (suc a) h = absurd (omega arith)
bit_or-zero_fuel (suc fuel) (suc a) h =
    omega (arith, bit_or_step (suc a) 0, bit_or-zero_fuel fuel (suc a / 2) (omega arith))

pub bit_or-zero : (a : ℕ) → bit_or a 0 ≡ a
bit_or-zero a = bit_or-zero_fuel a a (omega arith)

bit_and-le_fuel : (n a b : ℕ) → b ≤ n → bit_and a b ≤ b
bit_and-le_fuel n a zero h = omega (arith, bit_and-zero a)
bit_and-le_fuel zero a (suc b) h = absurd (omega arith)
bit_and-le_fuel (suc n) a (suc b) h =
    omega (arith, bit_and_step a (suc b), bit_and-le_fuel n (a / 2) (suc b / 2) (omega arith))

-- A mask bounds what passes it.
pub bit_and-le : (a b : ℕ) → bit_and a b ≤ b
bit_and-le a b = bit_and-le_fuel b a b (omega arith)

pub two_pow-suc : (n : ℕ) → 2 ^ suc n ≡ 2 ^ n * 2
two_pow-suc n = pow-suc 2 n

pub two_pow-pos : (n : ℕ) → 0 < 2 ^ n
two_pow-pos zero = omega arith
two_pow-pos (suc n) = omega (arith, two_pow-suc n, two_pow-pos n)

pub div-two_pow-suc : (a n : ℕ) → a / 2 ^ suc n ≡ a / 2 / 2 ^ n
div-two_pow-suc a n =
    ap (λ k. a / k) (pow-suc 2 n ∙ mul_comm (2 ^ n) 2) ∙ sym (div-div-eq-div-mul a 2 (2 ^ n))

half-bit_or : (a b : ℕ) → bit_or a b / 2 ≡ bit_or (a / 2) (b / 2)
half-bit_or a b = omega (arith, bit_or_step a b)

half-ones : (n : ℕ) → ((2 ^ suc n - 1) / 2 ≡ 2 ^ n - 1) × ((2 ^ suc n - 1) % 2 ≡ 1)
half-ones n = omega (arith, two_pow-suc n, two_pow-pos n)

-- `|` and a shift to the right may be exchanged.
pub bit_or-shift : (n a b : ℕ) → bit_or a b / 2 ^ n ≡ bit_or (a / 2 ^ n) (b / 2 ^ n)
bit_or-shift zero a b = div-one (bit_or a b) ∙ ap₂ bit_or (sym (div-one a)) (sym (div-one b))
bit_or-shift (suc n) a b =
    rw (div-two_pow-suc (bit_or a b) n, div-two_pow-suc a n, div-two_pow-suc b n)
      (ap (λ k. k / 2 ^ n) (half-bit_or a b) ∙ bit_or-shift n (a / 2) (b / 2))

or_regroup :
    (p t r : ℕ) → 0 < p → r < 2 → (t * p + (p - 1)) * 2 + max r 1 ≡ t * (p * 2) + (p * 2 - 1)
or_regroup p t r h k = omega arith

-- `|` with `n` ones sets the low `n` bits and keeps the others.
pub bit_or_ones : (n a : ℕ) → bit_or a (2 ^ n - 1) ≡ a / 2 ^ n * 2 ^ n + (2 ^ n - 1)
bit_or_ones zero a = omega (arith, bit_or-zero a)
bit_or_ones (suc n) a =
    bit_or_step a (2 ^ suc n - 1)
    ∙ rw ((half-ones n).0, (half-ones n).1, bit_or_ones n (a / 2), div-two_pow-suc a n, pow-suc 2 n)
        (or_regroup (2 ^ n) (a / 2 / 2 ^ n) (a % 2) (two_pow-pos n) (omega arith))

and_regroup :
    (p q x y r h a : ℕ)
    → p * q + x ≡ h
    → h * 2 + min r 1 ≡ a
    → p * 2 * q + y ≡ a
    → x * 2 + min r 1 ≡ y
and_regroup p q x y r h a e f g = omega arith

-- `&` with `n` ones keeps the low `n` bits.
pub bit_and_ones : (n a : ℕ) → bit_and a (2 ^ n - 1) ≡ a % 2 ^ n
bit_and_ones zero a = omega (arith, bit_and-zero a)
bit_and_ones (suc n) a =
    bit_and_step a (2 ^ suc n - 1)
    ∙ rw ((half-ones n).0, (half-ones n).1, bit_and_ones n (a / 2))
        (and_regroup (2 ^ n) (a / 2 / 2 ^ n) (a / 2 % 2 ^ n) (a % 2 ^ suc n) (a % 2) (a / 2) a
          (div-add-mod (a / 2) (2 ^ n)) (omega arith)
          (rw (← div-two_pow-suc a n, ← pow-suc 2 n) (div-add-mod a (2 ^ suc n))))

pub two_pow-add : (a b : ℕ) → 2 ^ (a + b) ≡ 2 ^ a * 2 ^ b
two_pow-add a zero = ap (λ k. 2 ^ k) {x = a + 0} {y = a} (omega arith) ∙ omega arith
two_pow-add a (suc b) =
    ap (λ k. 2 ^ k) {x = a + suc b} {y = suc (a + b)} (omega arith)
    ∙ (two_pow-suc (a + b) ∙ rw (two_pow-add a b, two_pow-suc b) (mul_assoc (2 ^ a) (2 ^ b) 2))

pub div-two_pow-add : (s a b : ℕ) → s / 2 ^ a / 2 ^ b ≡ s / 2 ^ (a + b)
div-two_pow-add s a b =
    div-div-eq-div-mul s (2 ^ a) (2 ^ b) ∙ ap (λ k. s / k) (sym (two_pow-add a b))

ones_quotient : (p q : ℕ) → 0 < p → 0 < q → (p * q - 1) / q ≡ p - 1
ones_quotient p q hp hq = div-eq_of_lt-le {k = p - 1} q (grind arith) (grind arith)

-- The top of a number of ones is ones.
pub ones-shift : (a b : ℕ) → (2 ^ (a + b) - 1) / 2 ^ b ≡ 2 ^ a - 1
ones-shift a b =
    rw (two_pow-add a b) (ones_quotient (2 ^ a) (2 ^ b) (two_pow-pos a) (two_pow-pos b))

-- Every positive number has a highest bit.
pub highest_bit : (w t : ℕ) → 0 < t → t < 2 ^ w → (n : ℕ) × (n < w) × (2 ^ n ≤ t) × (t < 2 ^ suc n)
highest_bit zero t pos h = absurd (omega arith)
highest_bit (suc w) t pos h = elim (dec_lt t (2 ^ w)) [
  | yes p ↦ let (n, a, b, c) = highest_bit w t pos p in (n, omega arith, b, c)
  | no p ↦ (w, omega arith, omega arith, h)
]

half_double : (m : ℕ) → m * 2 / 2 ≡ m
half_double m = omega arith

pub and_double : (a m : ℕ) → bit_and a (m * 2) ≡ bit_and (a / 2) m * 2
and_double a m = omega (arith, bit_and_step a (m * 2), ap (bit_and (a / 2)) (half_double m))

double_inside : (m p : ℕ) → m * (p * 2) ≡ m * p * 2
double_inside m p = omega arith

times_one : (m : ℕ) → m * 1 ≡ m
times_one m = omega arith

-- `&` with a mask that is shifted to the left.
pub and_shift : (k a m : ℕ) → bit_and a (m * 2 ^ k) ≡ bit_and (a / 2 ^ k) m * 2 ^ k
and_shift zero a m =
    ap (bit_and a) (times_one m)
    ∙ (ap (λ (k : ℕ). bit_and k m) (sym (div-one a)) ∙ sym (times_one (bit_and (a / 1) m)))
and_shift (suc k) a m =
    ap (bit_and a) (ap (λ (p : ℕ). m * p) (two_pow-suc k) ∙ double_inside m (2 ^ k))
    ∙ (and_double a (m * 2 ^ k)
        ∙ (ap (λ (p : ℕ). p * 2) (and_shift k (a / 2) m)
            ∙ rw (div-two_pow-suc a k, two_pow-suc k)
                (sym (double_inside (bit_and (a / 2 / 2 ^ k) m) (2 ^ k)))))
