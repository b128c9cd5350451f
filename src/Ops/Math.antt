-- ===== src/Ops/Math.antt =====
-- The R-type arithmetic of wvm/src/Operations.cpp: addOp to sext8Op. The operands are register
-- numbers, so that a destination may be a source.
pub mod Division
use why.Base.{ℕ, ◌%◌, true, ◌==◌, if◌then◌else◌, add64, sub64, bit_and, bit_or}
use why.Machine.Types.{bit_at, register_change}
use why.Machine.Reg
use why.Machine.State.{M, pure, ◌>>=◌, ◌>>◌, get_reg, put_reg}
use why.Machine.History.{buffer_change}
use why.Machine.Control.{set_reg, increment, halt}
use why.Ops.Alu.{
  defined, shift_left, shift_right, shift_right_signed, div_signed, mod_signed, div_unsigned,
  extend128, product_low, product_high,
}

unfoldable pub add_op : ℕ → ℕ → ℕ → M (Unit {0})
add_op rs rt rd = do a ← get_reg rs; b ← get_reg rt; set_reg rd (add64 a b) true; increment

unfoldable pub sub_op : ℕ → ℕ → ℕ → M (Unit {0})
sub_op rs rt rd = do a ← get_reg rs; b ← get_reg rt; set_reg rd (sub64 a b) true; increment

-- The assignments of CAT_MUL128 to $lo and $hi, and the changes that are recorded after them.
unfoldable pub multiply : ℕ → ℕ → M (Unit {0})
unfolding product_low product_high
multiply x y = do
  old_hi ← get_reg Reg.hi
  old_lo ← get_reg Reg.lo
  put_reg Reg.lo (product_low x y)
  put_reg Reg.hi (product_high x y)
  buffer_change (pure (register_change Reg.hi old_hi (product_high x y)))
  buffer_change (pure (register_change Reg.lo old_lo (product_low x y)))
  increment

unfoldable pub mult_op : ℕ → ℕ → ℕ → M (Unit {0})
unfolding multiply
mult_op rs rt rd = do a ← get_reg rs; b ← get_reg rt; multiply (extend128 a) (extend128 b)

unfoldable pub multu_op : ℕ → ℕ → ℕ → M (Unit {0})
unfolding mult_op
multu_op rs rt rd = mult_op rs rt rd

unfoldable pub sll_op : ℕ → ℕ → ℕ → M (Unit {0})
sll_op rs rt rd = do
  a ← get_reg rs
  b ← get_reg rt
  value ← defined (shift_left a b)
  set_reg rd value true
  increment

unfoldable pub srl_op : ℕ → ℕ → ℕ → M (Unit {0})
srl_op rs rt rd = do
  a ← get_reg rs
  b ← get_reg rt
  value ← defined (shift_right a b)
  set_reg rd value true
  increment

unfoldable pub sra_op : ℕ → ℕ → ℕ → M (Unit {0})
sra_op rs rt rd = do
  a ← get_reg rs
  b ← get_reg rt
  value ← defined (shift_right_signed a b)
  set_reg rd value true
  increment

unfoldable pub mod_op : ℕ → ℕ → ℕ → M (Unit {0})
mod_op rs rt rd = do
  a ← get_reg rs
  b ← get_reg rt
  value ← defined (mod_signed a b)
  set_reg rd value true
  increment

unfoldable pub div_op : ℕ → ℕ → ℕ → M (Unit {0})
div_op rs rt rd = do
  a ← get_reg rs
  b ← get_reg rt
  value ← defined (div_signed a b)
  set_reg rd value true
  increment

unfoldable pub divu_op : ℕ → ℕ → ℕ → M (Unit {0})
divu_op rs rt rd = do
  a ← get_reg rs
  b ← get_reg rt
  value ← defined (div_unsigned a b)
  set_reg rd value true
  increment

-- The one division that tests for zero.
unfoldable pub modu_op : ℕ → ℕ → ℕ → M (Unit {0})
modu_op rs rt rd = do
  a ← get_reg rs
  b ← get_reg rt
  if b == 0 then halt else (do set_reg rd (a % b) true; increment)

unfoldable pub sext32_op : ℕ → ℕ → ℕ → M (Unit {0})
sext32_op rs rt rd = do
  a ← get_reg rs
  set_reg rd (if bit_at 31 a then bit_or 0xffff_ffff_0000_0000 a else bit_and 0xffffffff a) true
  increment

unfoldable pub sext16_op : ℕ → ℕ → ℕ → M (Unit {0})
sext16_op rs rt rd = do
  a ← get_reg rs
  set_reg rd (if bit_at 15 a then bit_or 0xffff_ffff_ffff_0000 a else bit_and 0xffff a) true
  increment

unfoldable pub sext8_op : ℕ → ℕ → ℕ → M (Unit {0})
sext8_op rs rt rd = do
  a ← get_reg rs
  set_reg rd (if bit_at 7 a then bit_or 0xffff_ffff_ffff_ff00 a else bit_and 0xff a) true
  increment
