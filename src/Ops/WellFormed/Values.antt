-- ===== src/Ops/WellFormed/Values.antt =====
-- What the instructions write to a register is a word.
use why.Base.{
  ℕ, ◌/◌, ◌%◌, ◌^◌, ◌<◌, ◌≡◌, refl, Bool, true, false, Option, none, some, IsWord, arith, ltb, ◌==◌,
  if◌then◌else◌, not64, extend8, extend16, of_bool, is_negative, bit_and, bit_or, bit_xor,
}
use native.Mathlib.Nat.{div-le_self, mod-le}
use why.Base.Bits.{bit_and-le_right, bit_or-lt, bit_xor-lt}
use why.Machine.State.{M, Vm, pure, ◌>>=◌}
use why.Machine.Ensures.{Ensures, Keeps, Ensures-if, Ensures-pure, Ensures-fault, Ensures-bind}
use why.Machine.WellFormed.{WellFormed}
use why.Machine.WellFormed.Accessors.{get_reg-WellFormed, put_reg-WellFormed}
use why.Machine.WellFormed.Actions.{
  set_reg-WellFormed, increment-WellFormed, update_flags-WellFormed, halt-WellFormed,
  buffer_change-WellFormed, extend32-IsWord, ask-WellFormed, record_change-WellFormed,
  stop-WellFormed,
}
use why.Ops.Alu.{
  defined, shift_left, shift_right, shift_right_signed, shift_left_int, magnitude, with_sign,
  div_signed, mod_signed, div_unsigned, mod_unsigned, product_low, product_high,
}

pub mod-IsWord : (n : ℕ) → IsWord (n % 2 ^ 64)
mod-IsWord n = omega arith

pub of_bool-IsWord : (b : Bool) → IsWord (of_bool b)
of_bool-IsWord true = omega arith
of_bool-IsWord false = omega arith

pub not64-IsWord : (a : ℕ) → IsWord (not64 a)
not64-IsWord a = omega arith

pub if-IsWord : (b : Bool) (m n : ℕ) → IsWord m → IsWord n → IsWord (if b then m else n)
if-IsWord true m n v w = v
if-IsWord false m n v w = w

pub mod32-IsWord : (n : ℕ) → IsWord (n % 2 ^ 32)
mod32-IsWord n = omega arith

pub bit_and-IsWord : (a b : ℕ) → IsWord b → IsWord (bit_and a b)
bit_and-IsWord a b w = omega (arith, bit_and-le_right a b)

pub bit_or-IsWord : (a b : ℕ) → IsWord a → IsWord b → IsWord (bit_or a b)
bit_or-IsWord a b v w = bit_or-lt 64 a b v w

-- What the sign extensions write.
pub extended-IsWord :
    (b : Bool) (high low a : ℕ)
    → IsWord high
    → IsWord a
    → IsWord (if b then bit_or high a else bit_and low a)
extended-IsWord b high low a v w =
    if-IsWord b (bit_or high a) (bit_and low a) (bit_or-IsWord high a v w) (bit_and-IsWord low a w)

pub bit_xor-IsWord : (a b : ℕ) → IsWord a → IsWord b → IsWord (bit_xor a b)
bit_xor-IsWord a b v w = bit_xor-lt 64 a b v w

pub extend8-IsWord : (b : ℕ) → b < 2 ^ 8 → IsWord (extend8 b)
extend8-IsWord b w = ground arith

pub extend16-IsWord : (q : ℕ) → q < 2 ^ 16 → IsWord (extend16 q)
extend16-IsWord q w = ground arith

-- A defined value is a word.
abbrev pub FitsWord : Option ℕ → Type 0
FitsWord none = Unit
FitsWord (some a) = IsWord a

FitsWord-if : (b : Bool) (a : ℕ) → IsWord a → FitsWord (if b then some a else none)
FitsWord-if true a w = w
FitsWord-if false a w = tt

FitsWord-if_not :
    (b : Bool) (a : ℕ) → (b ≡ false → IsWord a) → FitsWord (if b then none else some a)
FitsWord-if_not true a w = tt
FitsWord-if_not false a w = w refl

pub shift_left-FitsWord : (a k : ℕ) → FitsWord (shift_left a k)
unfolding shift_left
shift_left-FitsWord a k = FitsWord-if (ltb k 64) _ (mod-IsWord _)

div-IsWord : (a b : ℕ) → IsWord a → IsWord (a / b)
div-IsWord a b w = omega (arith, div-le_self a b)

pub mod_le-IsWord : (a b : ℕ) → IsWord a → IsWord (a % b)
mod_le-IsWord a b w = omega (arith, mod-le a b)

pub shift_right-FitsWord : (a k : ℕ) → IsWord a → FitsWord (shift_right a k)
unfolding shift_right
shift_right-FitsWord a k w = FitsWord-if (ltb k 64) _ (div-IsWord a _ w)

pub shift_right_signed-FitsWord : (a k : ℕ) → IsWord a → FitsWord (shift_right_signed a k)
unfolding shift_right_signed
shift_right_signed-FitsWord a k w =
    FitsWord-if (ltb k 64) _ (ground (arith, div-IsWord a (2 ^ k) w))

pub shift_left_int-FitsWord : (a k : ℕ) → FitsWord (shift_left_int a k)
unfolding shift_left_int
shift_left_int-FitsWord a k = FitsWord-if (ltb k 32) _ (ground arith)

with_sign-IsWord : (b : Bool) (n : ℕ) → IsWord n → IsWord (with_sign b n)
unfolding with_sign
with_sign-IsWord true n w = mod-IsWord _
with_sign-IsWord false n w = w

magnitude-IsWord : (a : ℕ) → IsWord a → IsWord (magnitude a)
unfolding magnitude
magnitude-IsWord a w = ground arith

pub div_signed-FitsWord : (a b : ℕ) → IsWord a → FitsWord (div_signed a b)
unfolding div_signed
div_signed-FitsWord a b w =
    FitsWord-if_not _ _
      λ _. with_sign-IsWord _ _ (div-IsWord (magnitude a) (magnitude b) (magnitude-IsWord a w))

pub mod_signed-FitsWord : (a b : ℕ) → IsWord a → FitsWord (mod_signed a b)
unfolding mod_signed
mod_signed-FitsWord a b w = FitsWord-if_not _ _ λ _.
    with_sign-IsWord (is_negative a) _
      (mod_le-IsWord (magnitude a) (magnitude b) (magnitude-IsWord a w))

pub div_unsigned-FitsWord : (a b : ℕ) → IsWord a → FitsWord (div_unsigned a b)
unfolding div_unsigned
div_unsigned-FitsWord a b w = FitsWord-if_not (b == 0) _ (λ _. div-IsWord a b w)

pub mod_unsigned-FitsWord : (a b : ℕ) → IsWord a → FitsWord (mod_unsigned a b)
unfolding mod_unsigned
mod_unsigned-FitsWord a b w = FitsWord-if_not (b == 0) _ (λ _. mod_le-IsWord a b w)

pub product_low-IsWord : (x y : ℕ) → IsWord (product_low x y)
unfolding product_low
product_low-IsWord x y = mod-IsWord _

pub product_high-IsWord : (x y : ℕ) → IsWord (product_high x y)
unfolding product_high
product_high-IsWord x y = omega arith

module _ {lowest size : ℕ} where
  pub defined-WellFormed :
      (o : Option ℕ) → FitsWord o → Ensures (WellFormed lowest size) IsWord (defined o)
  unfolding defined
  defined-WellFormed none w = Ensures-fault
  defined-WellFormed (some a) w = Ensures-pure a w

module _ {A : Type 0} {P : Vm → Type 0} {R : A → Type 0} where
  -- The two ways that an instruction goes on: with a word, and after an action.
  pub Ensures-word :
      (m : M ℕ) (f : ℕ → M A)
      → Ensures P IsWord m
      → ((a : ℕ) → IsWord a → Ensures P R (f a))
      → Ensures P R (m >>= f)
  Ensures-word m f km kf = Ensures-bind m f km kf

  pub Ensures-then :
      (m : M (Unit {0})) (n : M A) → Keeps P m → Ensures P R n → Ensures P R (m >>= λ _. n)
  Ensures-then m n km kn = Ensures-bind m (λ _. n) km (λ _ _. kn)

pub Keeps-pure : {A : Type 0} {P : Vm → Type 0} (a : A) → Keeps P (pure a)
Keeps-pure a = Ensures-pure a tt

pub ruleset compute_rules = (
  Ensures-word, Ensures-then, Ensures-if, Keeps-pure, get_reg-WellFormed, put_reg-WellFormed,
  set_reg-WellFormed, increment-WellFormed, update_flags-WellFormed, halt-WellFormed,
  buffer_change-WellFormed, defined-WellFormed, mod-IsWord, mod_le-IsWord, mod32-IsWord, if-IsWord,
  of_bool-IsWord, not64-IsWord, bit_and-IsWord, bit_or-IsWord, bit_xor-IsWord, extend32-IsWord,
  shift_left-FitsWord, shift_right-FitsWord, shift_right_signed-FitsWord, shift_left_int-FitsWord,
  div_signed-FitsWord, mod_signed-FitsWord, div_unsigned-FitsWord, mod_unsigned-FitsWord,
  product_low-IsWord, product_high-IsWord,
)
