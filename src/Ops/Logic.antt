-- ===== src/Ops/Logic.antt =====
-- The R-type logic of wvm/src/Operations.cpp: andOp to lxorOp.
use why.Base.{ℕ, Bool, true, false, not, ◌&&◌, ◌||◌, ◌==◌, not64, bit_and, bit_or, bit_xor, of_bool}
use why.Machine.State.{M, ◌>>=◌, ◌>>◌, get_reg}
use why.Machine.Control.{set_reg, increment}

-- A word as a condition.
abbrev pub truth : ℕ → Bool
truth a = not (a == 0)

-- `^` of two bools.
abbrev pub exclusive : Bool → Bool → Bool
exclusive true b = not b
exclusive false b = b

unfoldable pub and_op : ℕ → ℕ → ℕ → M (Unit {0})
and_op rs rt rd = do a ← get_reg rs; b ← get_reg rt; set_reg rd (bit_and a b) true; increment

unfoldable pub nand_op : ℕ → ℕ → ℕ → M (Unit {0})
nand_op rs rt rd = do
  a ← get_reg rs
  b ← get_reg rt
  set_reg rd (not64 (bit_and a b)) true
  increment

unfoldable pub nor_op : ℕ → ℕ → ℕ → M (Unit {0})
nor_op rs rt rd = do a ← get_reg rs; b ← get_reg rt; set_reg rd (not64 (bit_or a b)) true; increment

unfoldable pub not_op : ℕ → ℕ → ℕ → M (Unit {0})
not_op rs rt rd = do a ← get_reg rs; set_reg rd (not64 a) true; increment

unfoldable pub or_op : ℕ → ℕ → ℕ → M (Unit {0})
or_op rs rt rd = do a ← get_reg rs; b ← get_reg rt; set_reg rd (bit_or a b) true; increment

unfoldable pub xnor_op : ℕ → ℕ → ℕ → M (Unit {0})
xnor_op rs rt rd = do
  a ← get_reg rs
  b ← get_reg rt
  set_reg rd (not64 (bit_xor a b)) true
  increment

unfoldable pub xor_op : ℕ → ℕ → ℕ → M (Unit {0})
xor_op rs rt rd = do a ← get_reg rs; b ← get_reg rt; set_reg rd (bit_xor a b) true; increment

unfoldable pub land_op : ℕ → ℕ → ℕ → M (Unit {0})
land_op rs rt rd = do
  a ← get_reg rs
  b ← get_reg rt
  set_reg rd (of_bool (truth a && truth b)) true
  increment

unfoldable pub lnand_op : ℕ → ℕ → ℕ → M (Unit {0})
lnand_op rs rt rd = do
  a ← get_reg rs
  b ← get_reg rt
  set_reg rd (of_bool (not (truth a && truth b))) true
  increment

unfoldable pub lnor_op : ℕ → ℕ → ℕ → M (Unit {0})
lnor_op rs rt rd = do
  a ← get_reg rs
  b ← get_reg rt
  set_reg rd (of_bool (not (truth a || truth b))) true
  increment

unfoldable pub lnot_op : ℕ → ℕ → ℕ → M (Unit {0})
lnot_op rs rt rd = do a ← get_reg rs; set_reg rd (of_bool (not (truth a))) true; increment

unfoldable pub lor_op : ℕ → ℕ → ℕ → M (Unit {0})
lor_op rs rt rd = do
  a ← get_reg rs
  b ← get_reg rt
  set_reg rd (of_bool (truth a || truth b)) true
  increment

unfoldable pub lxnor_op : ℕ → ℕ → ℕ → M (Unit {0})
lxnor_op rs rt rd = do
  a ← get_reg rs
  b ← get_reg rt
  set_reg rd (of_bool (not (exclusive (truth a) (truth b)))) true
  increment

unfoldable pub lxor_op : ℕ → ℕ → ℕ → M (Unit {0})
lxor_op rs rt rd = do
  a ← get_reg rs
  b ← get_reg rt
  set_reg rd (of_bool (exclusive (truth a) (truth b))) true
  increment
