-- ===== src/Ops/Alu.antt =====
-- C++ arithmetic on int64_t and uint64_t as used in wvm/src/Operations.cpp, on bit patterns.
-- `none` is what C++ leaves undefined. Signed sums and differences are taken to wrap.
pub mod Division
use why.Base.{
  ℕ, ◌+◌, ◌-◌, ◌*◌, ◌/◌, ◌%◌, ◌^◌, Bool, true, false, not, ◌&&◌, ◌||◌, Option, none, some, ltb,
  ◌==◌, if◌then◌else◌, extend32, is_negative,
}
use why.Machine.State.{M, pure, fault}

-- The value of a defined expression.
unfoldable pub defined : Option ℕ → M ℕ
defined none = fault
defined (some a) = pure a

-- `a << k`, `(uint64_t) a >> k` and `a >> k`: the count is 0 to 63.
unfoldable pub shift_left : ℕ → ℕ → Option ℕ
shift_left a k = if ltb k 64 then some (a * 2 ^ k % 2 ^ 64) else none

unfoldable pub shift_right : ℕ → ℕ → Option ℕ
shift_right a k = if ltb k 64 then some (a / 2 ^ k) else none

unfoldable pub shift_right_signed : ℕ → ℕ → Option ℕ
shift_right_signed a k =
    if ltb k 64
    then some (if is_negative a then 2 ^ 64 - 1 - (2 ^ 64 - 1 - a) / 2 ^ k else a / 2 ^ k)
    else none

-- `immediate << k` on an int32_t: the count is 0 to 31, and the result is an int32_t.
unfoldable pub shift_left_int : ℕ → ℕ → Option ℕ
shift_left_int a k = if ltb k 32 then some (extend32 (a * 2 ^ k % 2 ^ 32)) else none

-- The absolute value of an int64_t, and the int64_t of a sign and an absolute value.
unfoldable pub magnitude : ℕ → ℕ
magnitude a = if is_negative a then 2 ^ 64 - a else a

unfoldable pub with_sign : Bool → ℕ → ℕ
with_sign true n = (2 ^ 64 - n) % 2 ^ 64
with_sign false n = n

abbrev pub differs : Bool → Bool → Bool
differs true b = not b
differs false b = b

-- INT64_MIN / -1 does not fit.
abbrev overflows : ℕ → ℕ → Bool
overflows a b = (a == 2 ^ 63) && (b == 2 ^ 64 - 1)

-- `a / b` and `a % b`, rounding towards zero.
unfoldable pub div_signed : ℕ → ℕ → Option ℕ
unfolding magnitude with_sign
div_signed a b =
    if (b == 0) || overflows a b
    then none
    else some (with_sign (differs (is_negative a) (is_negative b)) (magnitude a / magnitude b))

unfoldable pub mod_signed : ℕ → ℕ → Option ℕ
unfolding magnitude with_sign
mod_signed a b =
    if (b == 0) || overflows a b
    then none
    else some (with_sign (is_negative a) (magnitude a % magnitude b))

unfoldable pub div_unsigned : ℕ → ℕ → Option ℕ
div_unsigned a b = if b == 0 then none else some (a / b)

unfoldable pub mod_unsigned : ℕ → ℕ → Option ℕ
mod_unsigned a b = if b == 0 then none else some (a % b)

-- The conversion of an int64_t to unsigned __int128.
unfoldable pub extend128 : ℕ → ℕ
extend128 a = if is_negative a then a + (2 ^ 128 - 2 ^ 64) else a

-- CAT_MUL128 of wvm/include/mult.h, with 128-bit operands: the low and the high word.
unfoldable pub product_low : ℕ → ℕ → ℕ
product_low x y = x * y % 2 ^ 128 % 2 ^ 64

unfoldable pub product_high : ℕ → ℕ → ℕ
product_high x y = x * y % 2 ^ 128 / 2 ^ 64
