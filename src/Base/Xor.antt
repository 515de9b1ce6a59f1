-- ===== src/Base/Xor.antt =====
-- Exclusive or of native numbers at variables: its lowest digit, its width, and its cancellation.
use Prim.Native.Nat.{ℕ, zero, suc, ◌+◌, ◌*◌, ◌/◌, ◌%◌, ◌^◌, ◌≤◌, ◌<◌, bit_xor}
use Prim.Native.Nat.{digits, differ, bit_xor-bitwise}
use mathlib.Core.Path.{◌≡◌, refl, ap}
use native.Mathlib.Nat.{pow-suc}
use native.Mathlib.Omega.{arith}

abbrev xor_digits : ℕ → ℕ → ℕ → ℕ
xor_digits n a b = digits (λ y. y) differ n a b

-- Any count of digits that covers the first number gives the same result.
digits_enough : (n m a b : ℕ) → a ≤ n → a ≤ m → xor_digits n a b ≡ xor_digits m a b
digits_enough zero zero a b p q = refl
digits_enough zero (suc m) zero b p q = refl
digits_enough zero (suc m) (suc a) b p q = absurd (omega arith)
digits_enough (suc n) zero zero b p q = refl
digits_enough (suc n) zero (suc a) b p q = absurd (omega arith)
digits_enough (suc n) (suc m) zero b p q = refl
digits_enough (suc n) (suc m) (suc a) b p q =
    omega (arith, digits_enough n m (suc a / 2) (b / 2) (omega arith) (omega arith))

differ_bits : (x y : ℕ) → x < 2 → y < 2 → differ x y ≡ (x + y) % 2
differ_bits zero y hx hy = omega arith
differ_bits (suc zero) zero hx hy = refl
differ_bits (suc zero) (suc zero) hx hy = refl
differ_bits (suc zero) (suc (suc y)) hx hy = absurd (omega arith)
differ_bits (suc (suc x)) y hx hy = absurd (omega arith)

-- The lowest digit, and the rest.
pub xor_step : (a b : ℕ) → bit_xor a b ≡ bit_xor (a / 2) (b / 2) * 2 + (a + b) % 2
xor_step zero b = omega (arith, bit_xor-bitwise 0 b, bit_xor-bitwise (0 / 2) (b / 2))
xor_step (suc a) b = omega (
  arith,
  bit_xor-bitwise (suc a) b,
  bit_xor-bitwise (suc a / 2) (b / 2),
  digits_enough a (suc a / 2) (suc a / 2) (b / 2) (omega arith) (omega arith),
  differ_bits (suc a % 2) (b % 2) (omega arith) (omega arith),
)

pub xor-zero_left : (b : ℕ) → bit_xor 0 b ≡ b
xor-zero_left b = bit_xor-bitwise 0 b

-- Two numbers of `w` digits have an exclusive or of `w` digits.
pub xor-lt : (w a b : ℕ) → a < 2 ^ w → b < 2 ^ w → bit_xor a b < 2 ^ w
xor-lt zero zero zero p q = omega arith
xor-lt zero zero (suc b) p q = absurd (omega arith)
xor-lt zero (suc a) b p q = absurd (omega arith)
xor-lt (suc w) a b p q = omega (
  arith,
  xor_step a b,
  pow-suc 2 w,
  xor-lt w (a / 2) (b / 2) (omega (arith, pow-suc 2 w)) (omega (arith, pow-suc 2 w)),
)

-- Applied twice it gives the first number back.
pub xor_cancel : (w a b : ℕ) → a < 2 ^ w → b < 2 ^ w → bit_xor (bit_xor a b) b ≡ a
xor_cancel zero zero zero p q = refl
xor_cancel zero zero (suc b) p q = absurd (omega arith)
xor_cancel zero (suc a) b p q = absurd (omega arith)
xor_cancel (suc w) a b p q = omega (
  arith,
  xor_step a b,
  xor_step (bit_xor a b) b,
  ap (λ t. bit_xor t (b / 2)) half,
  xor_cancel w (a / 2) (b / 2) (omega (arith, pow-suc 2 w)) (omega (arith, pow-suc 2 w)),
)
  where
    half : bit_xor a b / 2 ≡ bit_xor (a / 2) (b / 2)
    half = omega (arith, xor_step a b)
