-- ===== src/Numeric/Bits.antt =====
-- `|` of two numbers with no common binary digit is their sum.
use Prim.Native.Nat.{bit_or, digits, max, bit_or-bitwise}
use cuda_js.Base.{ℕ, zero, suc, ◌+◌, ◌*◌, ◌/◌, ◌%◌, ◌^◌, ◌≤◌, ◌<◌, ◌≡◌, refl, ap, sym, ◌∙◌, arith}
use native.Mathlib.Nat.{mul_assoc}

pub pow_suc : (k : ℕ) → 2 ^ suc k ≡ 2 ^ k * 2
pow_suc k = omega arith

abbrev or_digits : ℕ → ℕ → ℕ → ℕ
or_digits n a b = digits (λ b. b) max n a b

-- More fuel than the first number changes nothing.
or_digits_fuel : (n m a b : ℕ) → a ≤ n → a ≤ m → or_digits n a b ≡ or_digits m a b
or_digits_fuel zero zero a b p q = refl
or_digits_fuel zero (suc m) zero b p q = refl
or_digits_fuel zero (suc m) (suc a) b p q = absurd (omega arith)
or_digits_fuel (suc n) zero zero b p q = refl
or_digits_fuel (suc n) zero (suc a) b p q = absurd (omega arith)
or_digits_fuel (suc n) (suc m) zero b p q = refl
or_digits_fuel (suc n) (suc m) (suc a) b p q =
    omega (arith, or_digits_fuel n m (suc a / 2) (b / 2) (omega arith) (omega arith))

zero-bit_or : (b : ℕ) → bit_or 0 b ≡ b
zero-bit_or b = bit_or-bitwise 0 b

lowest_digit : (a b : ℕ) → bit_or a b ≡ bit_or (a / 2) (b / 2) * 2 + max (a % 2) (b % 2)
lowest_digit zero b = omega (arith, zero-bit_or b, zero-bit_or (b / 2))
lowest_digit (suc a) b = omega (
  arith,
  bit_or-bitwise (suc a) b,
  bit_or-bitwise (suc a / 2) (b / 2),
  or_digits_fuel a (suc a / 2) (suc a / 2) (b / 2) (omega arith) (omega arith),
)

or_zero_below : (n a : ℕ) → a ≤ n → bit_or a 0 ≡ a
or_zero_below n zero h = zero-bit_or 0
or_zero_below zero (suc a) h = absurd (omega arith)
or_zero_below (suc n) (suc a) h =
    omega (arith, lowest_digit (suc a) 0, or_zero_below n (suc a / 2) (omega arith))

pub bit_or_disjoint : (k q r : ℕ) → r < 2 ^ k → bit_or (q * 2 ^ k) r ≡ q * 2 ^ k + r
bit_or_disjoint zero q r h =
    let none_left : r ≡ 0 = omega arith in
    let one : q * 2 ^ 0 ≡ q = omega arith in
    rw (none_left, one) (omega (arith, or_zero_below q q (omega arith)))
bit_or_disjoint (suc k) q r h =
    let p = 2 ^ k in
    let doubled : q * 2 ^ suc k ≡ q * 2 ^ k * 2 =
      ap (λ p. q * p) (pow_suc k) ∙ sym (mul_assoc q (2 ^ k) 2) in
    let half : q * 2 ^ k * 2 / 2 ≡ q * 2 ^ k = omega arith in
    let digit : q * 2 ^ k * 2 % 2 ≡ 0 = omega arith in
    let rest = bit_or_disjoint k q (r / 2) (omega arith) in
    rw (doubled, lowest_digit (q * 2 ^ k * 2) r, half, digit, rest) (omega arith)
