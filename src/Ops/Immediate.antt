-- ===== src/Ops/Immediate.antt =====
-- The I-type arithmetic and logic of wvm/src/Operations.cpp: addiOp to luiOp, and setOp. An immediate
-- is the pattern of an int32_t, extended by its sign where C++ converts it.
use why.Base.{
  ℕ, ◌*◌, ◌%◌, ◌^◌, true, false, add64, sub64, not64, bit_and, bit_or, bit_xor, extend32,
}
use why.Machine.State.{M, ◌>>=◌, ◌>>◌, get_reg}
use why.Machine.Control.{set_reg, increment}
use why.Ops.Alu.{
  defined, shift_left, shift_right, shift_right_signed, shift_left_int, div_signed, mod_signed,
  div_unsigned, mod_unsigned, extend128,
}
use why.Ops.Math.{multiply}

unfoldable pub addi_op : ℕ → ℕ → ℕ → M (Unit {0})
addi_op rs rd immediate = do
  a ← get_reg rs
  set_reg rd (add64 a (extend32 immediate)) true
  increment

unfoldable pub subi_op : ℕ → ℕ → ℕ → M (Unit {0})
subi_op rs rd immediate = do
  a ← get_reg rs
  set_reg rd (sub64 a (extend32 immediate)) true
  increment

unfoldable pub multi_op : ℕ → ℕ → ℕ → M (Unit {0})
unfolding multiply
multi_op rs rd immediate = do
  a ← get_reg rs
  multiply (extend128 a) (extend128 (extend32 immediate))

-- The register is converted by its sign, the immediate by way of uint64_t.
unfoldable pub multui_op : ℕ → ℕ → ℕ → M (Unit {0})
unfolding multiply
multui_op rs rd immediate = do a ← get_reg rs; multiply (extend128 a) (extend32 immediate)

unfoldable pub slli_op : ℕ → ℕ → ℕ → M (Unit {0})
slli_op rs rd immediate = do
  a ← get_reg rs
  value ← defined (shift_left a (extend32 immediate))
  set_reg rd value true
  increment

unfoldable pub srli_op : ℕ → ℕ → ℕ → M (Unit {0})
srli_op rs rd immediate = do
  a ← get_reg rs
  value ← defined (shift_right a (extend32 immediate))
  set_reg rd value true
  increment

unfoldable pub srai_op : ℕ → ℕ → ℕ → M (Unit {0})
srai_op rs rd immediate = do
  a ← get_reg rs
  value ← defined (shift_right_signed a (extend32 immediate))
  set_reg rd value true
  increment

unfoldable pub modi_op : ℕ → ℕ → ℕ → M (Unit {0})
modi_op rs rd immediate = do
  a ← get_reg rs
  value ← defined (mod_signed a (extend32 immediate))
  set_reg rd value true
  increment

unfoldable pub divi_op : ℕ → ℕ → ℕ → M (Unit {0})
divi_op rs rd immediate = do
  a ← get_reg rs
  value ← defined (div_signed a (extend32 immediate))
  set_reg rd value true
  increment

unfoldable pub divui_op : ℕ → ℕ → ℕ → M (Unit {0})
divui_op rs rd immediate = do
  a ← get_reg rs
  value ← defined (div_unsigned a (extend32 immediate))
  set_reg rd value true
  increment

unfoldable pub modui_op : ℕ → ℕ → ℕ → M (Unit {0})
modui_op rs rd immediate = do
  a ← get_reg rs
  value ← defined (mod_unsigned a (extend32 immediate))
  set_reg rd value true
  increment

unfoldable pub sllii_op : ℕ → ℕ → ℕ → M (Unit {0})
sllii_op rs rd immediate = do
  a ← get_reg rs
  value ← defined (shift_left_int immediate a)
  set_reg rd value true
  increment

unfoldable pub srlii_op : ℕ → ℕ → ℕ → M (Unit {0})
srlii_op rs rd immediate = do
  a ← get_reg rs
  value ← defined (shift_right (extend32 immediate) a)
  set_reg rd value true
  increment

unfoldable pub sraii_op : ℕ → ℕ → ℕ → M (Unit {0})
sraii_op rs rd immediate = do
  a ← get_reg rs
  value ← defined (shift_right_signed (extend32 immediate) a)
  set_reg rd value true
  increment

unfoldable pub divii_op : ℕ → ℕ → ℕ → M (Unit {0})
divii_op rs rd immediate = do
  a ← get_reg rs
  value ← defined (div_signed (extend32 immediate) a)
  set_reg rd value true
  increment

unfoldable pub divuii_op : ℕ → ℕ → ℕ → M (Unit {0})
divuii_op rs rd immediate = do
  a ← get_reg rs
  value ← defined (div_unsigned (extend32 immediate) a)
  set_reg rd value true
  increment

unfoldable pub andi_op : ℕ → ℕ → ℕ → M (Unit {0})
andi_op rs rd immediate = do
  a ← get_reg rs
  set_reg rd (bit_and a (extend32 immediate)) true
  increment

unfoldable pub nandi_op : ℕ → ℕ → ℕ → M (Unit {0})
nandi_op rs rd immediate = do
  a ← get_reg rs
  set_reg rd (not64 (bit_and a (extend32 immediate))) true
  increment

unfoldable pub nori_op : ℕ → ℕ → ℕ → M (Unit {0})
nori_op rs rd immediate = do
  a ← get_reg rs
  set_reg rd (not64 (bit_or a (extend32 immediate))) true
  increment

unfoldable pub ori_op : ℕ → ℕ → ℕ → M (Unit {0})
ori_op rs rd immediate = do
  a ← get_reg rs
  set_reg rd (bit_or a (extend32 immediate)) true
  increment

unfoldable pub xnori_op : ℕ → ℕ → ℕ → M (Unit {0})
xnori_op rs rd immediate = do
  a ← get_reg rs
  set_reg rd (not64 (bit_xor a (extend32 immediate))) true
  increment

unfoldable pub xori_op : ℕ → ℕ → ℕ → M (Unit {0})
xori_op rs rd immediate = do
  a ← get_reg rs
  set_reg rd (bit_xor a (extend32 immediate)) true
  increment

unfoldable pub lui_op : ℕ → ℕ → ℕ → M (Unit {0})
lui_op rs rd immediate = do
  d ← get_reg rd
  set_reg rd (bit_or (d % 2 ^ 32) (extend32 immediate * 2 ^ 32 % 2 ^ 64)) true
  increment

unfoldable pub set_op : ℕ → ℕ → ℕ → M (Unit {0})
set_op rs rd immediate = do set_reg rd (extend32 immediate) false; increment
