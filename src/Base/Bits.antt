-- ===== src/Base/Bits.antt =====
-- The laws of `|`, `&` and `^` that the model needs, at every width: fields that do not overlap
-- add up, a mask of low ones is a remainder, and the result is no wider than the operands.
use Prim.Native.Nat.{
  ℕ, zero, suc, ◌+◌, ◌*◌, ◌/◌, ◌%◌, ◌^◌, ◌≤◌, ◌<◌, min, max, differ, digits, bitwise, bit_and,
  bit_or, bit_xor, bit_and-bitwise, bit_or-bitwise, bit_xor-bitwise,
}
use mathlib.Core.Path.{◌≡◌, refl, ap}
use native.Mathlib.Nat.{pow-suc, min-le_right}
use native.Mathlib.Omega.{arith}

-- One digit of a bitwise operation, whatever the fuel.
module _ (rest : ℕ → ℕ) (on_digits : ℕ → ℕ → ℕ) where
  digits_enough :
      (fuel more a b : ℕ)
      → a ≤ fuel
      → a ≤ more
      → digits rest on_digits fuel a b ≡ digits rest on_digits more a b
  digits_enough zero zero zero b h k = refl
  digits_enough zero zero (suc a) b h k = refl
  digits_enough zero (suc more) zero b h k = refl
  digits_enough zero (suc more) (suc a) b h k = absurd (omega arith)
  digits_enough (suc fuel) zero zero b h k = refl
  digits_enough (suc fuel) zero (suc a) b h k = absurd (omega arith)
  digits_enough (suc fuel) (suc more) zero b h k = refl
  digits_enough (suc fuel) (suc more) (suc a) b h k =
      let half = digits_enough fuel more (suc a / 2) (b / 2) (omega arith) (omega arith) in
      ap (λ (t : ℕ). t * 2 + on_digits (suc a % 2) (b % 2)) half

  bitwise_step :
      ((b : ℕ) → rest b ≡ rest (b / 2) * 2 + on_digits 0 (b % 2))
      → (a b : ℕ)
      → bitwise rest on_digits a b
        ≡ bitwise rest on_digits (a / 2) (b / 2) * 2 + on_digits (a % 2) (b % 2)
  bitwise_step runs_out zero b = runs_out b
  bitwise_step runs_out (suc a) b =
      let half = digits_enough a (suc a / 2) (suc a / 2) (b / 2) (omega arith) (omega arith) in
      ap (λ (t : ℕ). t * 2 + on_digits (suc a % 2) (b % 2)) half

pub bit_and_digit : (a b : ℕ) → bit_and a b ≡ bit_and (a / 2) (b / 2) * 2 + min (a % 2) (b % 2)
bit_and_digit a b = simp bit_and-bitwise (bitwise_step (λ _. 0) min (λ c. omega arith) a b)

pub bit_or_digit : (a b : ℕ) → bit_or a b ≡ bit_or (a / 2) (b / 2) * 2 + max (a % 2) (b % 2)
bit_or_digit a b = simp bit_or-bitwise (bitwise_step (λ c. c) max (λ c. omega arith) a b)

pub bit_xor_digit : (a b : ℕ) → bit_xor a b ≡ bit_xor (a / 2) (b / 2) * 2 + differ (a % 2) (b % 2)
bit_xor_digit a b = simp bit_xor-bitwise (bitwise_step (λ c. c) differ (λ c. omega arith) a b)

-- `2 ^ suc k` is twice `2 ^ k`, also under a factor.
double : (q k : ℕ) → q * 2 ^ suc k ≡ 2 * (q * 2 ^ k)
double q k = omega (arith, ap (λ (t : ℕ). q * t) (pow-suc 2 k))

-- `|` with zero, by the digits of a number of at most `n`.
bit_or-zero : (n a : ℕ) → a ≤ n → bit_or a 0 ≡ a
bit_or-zero n zero h = simp bit_or-bitwise
bit_or-zero zero (suc a) h = absurd (omega arith)
bit_or-zero (suc n) (suc a) h =
    omega (arith, bit_or_digit (suc a) 0, bit_or-zero n (suc a / 2) (omega arith))

-- A field of `k` low bits and the bits above it do not overlap, so `|` adds them.
pub bit_or_fields : (k q r : ℕ) → r < 2 ^ k → bit_or (q * 2 ^ k) r ≡ q * 2 ^ k + r
bit_or_fields zero q zero h = omega (arith, bit_or-zero (q * 1) (q * 1) (omega arith))
bit_or_fields zero q (suc r) h = absurd (omega arith)
bit_or_fields (suc k) q r h =
    ground
      (arith, bit_or_digit (q * 2 ^ suc k) r, double q k, pow-suc 2 k, bit_or_fields k q (r / 2))

pub bit_or_comm : (n a b : ℕ) → a ≤ n → b ≤ n → bit_or a b ≡ bit_or b a
bit_or_comm zero zero zero h k = refl
bit_or_comm zero (suc a) b h k = absurd (omega arith)
bit_or_comm zero zero (suc b) h k = absurd (omega arith)
bit_or_comm (suc n) a b h k = omega (
  arith,
  bit_or_digit a b,
  bit_or_digit b a,
  bit_or_comm n (a / 2) (b / 2) (omega arith) (omega arith),
)

-- A field of higher bits, put in after the low ones.
pub bit_or_above : (k q r : ℕ) → r < 2 ^ k → bit_or r (q * 2 ^ k) ≡ r + q * 2 ^ k
bit_or_above k q r h = omega (
  arith,
  bit_or_comm (r + q * 2 ^ k) r (q * 2 ^ k) (omega arith) (omega arith),
  bit_or_fields k q r h,
)

-- Low bits below both operands stay.
pub bit_or_low :
    (k a n b : ℕ) → n < 2 ^ k → bit_or (a * 2 ^ k + n) (b * 2 ^ k) ≡ bit_or a b * 2 ^ k + n
bit_or_low zero a zero b h = ground arith
bit_or_low zero a (suc n) b h = absurd (omega arith)
bit_or_low (suc k) a n b h =
    let whole = a * 2 ^ suc k + n in
    let halves : whole / 2 ≡ a * 2 ^ k + n / 2 = omega (arith, double a k) in
    let half : b * 2 ^ suc k / 2 ≡ b * 2 ^ k = omega (arith, double b k) in
    let low = bit_or_low k a (n / 2) b (omega (arith, pow-suc 2 k)) in
    let step = rw (halves, half, low) at (bit_or_digit whole (b * 2 ^ suc k)) in
    omega (arith, step, double a k, double b k, double (bit_or a b) k)

-- The three operations stay within the width of their operands.
pub bit_or-lt : (k a b : ℕ) → a < 2 ^ k → b < 2 ^ k → bit_or a b < 2 ^ k
bit_or-lt zero zero zero p q = omega arith
bit_or-lt zero zero (suc b) p q = absurd (omega arith)
bit_or-lt zero (suc a) b p q = absurd (omega arith)
bit_or-lt (suc k) a b p q =
    ground (arith, bit_or_digit a b, pow-suc 2 k, bit_or-lt k (a / 2) (b / 2))

bit_and-le_fuel : (n a b : ℕ) → a ≤ n → bit_and a b ≤ b
bit_and-le_fuel n zero b h = simp bit_and-bitwise (omega arith)
bit_and-le_fuel zero (suc a) b h = absurd (omega arith)
bit_and-le_fuel (suc n) (suc a) b h = omega (
  arith,
  bit_and_digit (suc a) b,
  min-le_right (suc a % 2) (b % 2),
  bit_and-le_fuel n (suc a / 2) (b / 2) (omega arith),
)

-- The result of `&` is at most its second operand.
pub bit_and-le_right : (a b : ℕ) → bit_and a b ≤ b
bit_and-le_right a b = bit_and-le_fuel a a b (omega arith)

differ_bit : (x y : ℕ) → x < 2 → y < 2 → differ x y < 2
differ_bit zero y p q = q
differ_bit (suc x) zero p q = p
differ_bit (suc zero) (suc zero) p q = omega arith
differ_bit (suc zero) (suc (suc y)) p q = absurd (omega arith)
differ_bit (suc (suc x)) (suc y) p q = absurd (omega arith)

pub bit_xor-lt : (k a b : ℕ) → a < 2 ^ k → b < 2 ^ k → bit_xor a b < 2 ^ k
bit_xor-lt zero zero zero p q = omega arith
bit_xor-lt zero zero (suc b) p q = absurd (omega arith)
bit_xor-lt zero (suc a) b p q = absurd (omega arith)
bit_xor-lt (suc k) a b p q = ground (
  arith,
  bit_xor_digit a b,
  pow-suc 2 k,
  differ_bit (a % 2) (b % 2),
  bit_xor-lt k (a / 2) (b / 2),
)
