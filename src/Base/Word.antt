-- ===== src/Base/Word.antt =====
-- The integer types of wvm/include/Defs.h as bit patterns: a Word is a number below 2 ^ 64, an
-- HWord one below 2 ^ 32, and `signed` is the int64_t that a Word stands for.
use Prim.Native.Nat.{ℕ, ◌+◌, ◌-◌, ◌%◌, ◌^◌, ◌<◌}
use mathlib.Core.Bool.{Bool, true, false}
use why.Base.Tests.{ltb, leb, if◌then◌else◌}

abbrev pub word_mod : ℕ
word_mod = 2 ^ 64

abbrev pub IsWord : ℕ → Type 0
IsWord n = n < 2 ^ 64

-- `negsuc n` is -(n + 1).
pub data ℤ : Type 0 where
  pos : ℕ → ℤ
  negsuc : ℕ → ℤ

abbrev pub signed : ℕ → ℤ
signed w = if ltb w (2 ^ 63) then pos w else negsuc (2 ^ 64 - w - 1)

abbrev pub ltb_ℤ : ℤ → ℤ → Bool
ltb_ℤ (pos a) (pos b) = ltb a b
ltb_ℤ (pos a) (negsuc b) = false
ltb_ℤ (negsuc a) (pos b) = true
ltb_ℤ (negsuc a) (negsuc b) = ltb b a

-- `a < b` and `a <= b` on int64_t.
abbrev pub slt : ℕ → ℕ → Bool
slt a b = ltb_ℤ (signed a) (signed b)

abbrev pub sle : ℕ → ℕ → Bool
sle a b = if slt b a then false else true

abbrev pub is_negative : ℕ → Bool
is_negative w = leb (2 ^ 63) w

-- `+`, `-` and `~` on 64-bit words, with the wrap of two's complement.
abbrev pub add64 : ℕ → ℕ → ℕ
add64 a b = (a + b) % 2 ^ 64

abbrev pub sub64 : ℕ → ℕ → ℕ
sub64 a b = (a + (2 ^ 64 - b)) % 2 ^ 64

abbrev pub not64 : ℕ → ℕ
not64 a = 2 ^ 64 - 1 - a

-- Sign extension of an int8_t, int16_t and int32_t to 64 bits.
abbrev pub extend8 : ℕ → ℕ
extend8 b = if ltb b (2 ^ 7) then b else b + (2 ^ 64 - 2 ^ 8)

abbrev pub extend16 : ℕ → ℕ
extend16 q = if ltb q (2 ^ 15) then q else q + (2 ^ 64 - 2 ^ 16)

abbrev pub extend32 : ℕ → ℕ
extend32 h = if ltb h (2 ^ 31) then h else h + (2 ^ 64 - 2 ^ 32)

-- A C++ bool stored into an integer.
abbrev pub of_bool : Bool → ℕ
of_bool true = 1
of_bool false = 0
