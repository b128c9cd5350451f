-- ===== src/Ops/Compare.antt =====
-- The comparisons of wvm/src/Operations.cpp, R-type and I-type: slOp to cmpiOp. They leave the flags
-- alone, but for cmp and cmpi, which set nothing else. An immediate is the pattern of an int32_t.
use why.Base.{ℕ, false, ltb, leb, ◌==◌, sub64, slt, sle, extend32, of_bool}
use why.Machine.State.{M, ◌>>=◌, ◌>>◌, get_reg}
use why.Machine.Control.{set_reg, increment, update_flags}

unfoldable pub sl_op : ℕ → ℕ → ℕ → M (Unit {0})
sl_op rs rt rd = do a ← get_reg rs; b ← get_reg rt; set_reg rd (of_bool (slt a b)) false; increment

unfoldable pub sle_op : ℕ → ℕ → ℕ → M (Unit {0})
sle_op rs rt rd = do a ← get_reg rs; b ← get_reg rt; set_reg rd (of_bool (sle a b)) false; increment

unfoldable pub seq_op : ℕ → ℕ → ℕ → M (Unit {0})
seq_op rs rt rd = do a ← get_reg rs; b ← get_reg rt; set_reg rd (of_bool (a == b)) false; increment

unfoldable pub slu_op : ℕ → ℕ → ℕ → M (Unit {0})
slu_op rs rt rd = do a ← get_reg rs; b ← get_reg rt; set_reg rd (of_bool (ltb a b)) false; increment

unfoldable pub sleu_op : ℕ → ℕ → ℕ → M (Unit {0})
sleu_op rs rt rd = do
  a ← get_reg rs
  b ← get_reg rt
  set_reg rd (of_bool (leb a b)) false
  increment

unfoldable pub cmp_op : ℕ → ℕ → ℕ → M (Unit {0})
cmp_op rs rt rd = do a ← get_reg rs; b ← get_reg rt; update_flags (sub64 a b); increment

unfoldable pub sli_op : ℕ → ℕ → ℕ → M (Unit {0})
sli_op rs rd immediate = do
  a ← get_reg rs
  set_reg rd (of_bool (slt a (extend32 immediate))) false
  increment

unfoldable pub slei_op : ℕ → ℕ → ℕ → M (Unit {0})
slei_op rs rd immediate = do
  a ← get_reg rs
  set_reg rd (of_bool (sle a (extend32 immediate))) false
  increment

unfoldable pub seqi_op : ℕ → ℕ → ℕ → M (Unit {0})
seqi_op rs rd immediate = do
  a ← get_reg rs
  set_reg rd (of_bool (a == extend32 immediate)) false
  increment

unfoldable pub slui_op : ℕ → ℕ → ℕ → M (Unit {0})
slui_op rs rd immediate = do
  a ← get_reg rs
  set_reg rd (of_bool (ltb a (extend32 immediate))) false
  increment

unfoldable pub sleui_op : ℕ → ℕ → ℕ → M (Unit {0})
sleui_op rs rd immediate = do
  a ← get_reg rs
  set_reg rd (of_bool (leb a (extend32 immediate))) false
  increment

unfoldable pub sgi_op : ℕ → ℕ → ℕ → M (Unit {0})
sgi_op rs rd immediate = do
  a ← get_reg rs
  set_reg rd (of_bool (slt (extend32 immediate) a)) false
  increment

unfoldable pub sgei_op : ℕ → ℕ → ℕ → M (Unit {0})
sgei_op rs rd immediate = do
  a ← get_reg rs
  set_reg rd (of_bool (sle (extend32 immediate) a)) false
  increment

unfoldable pub sgeui_op : ℕ → ℕ → ℕ → M (Unit {0})
sgeui_op rs rd immediate = do
  a ← get_reg rs
  set_reg rd (of_bool (leb (extend32 immediate) a)) false
  increment

unfoldable pub sgui_op : ℕ → ℕ → ℕ → M (Unit {0})
sgui_op rs rd immediate = do
  a ← get_reg rs
  set_reg rd (of_bool (ltb (extend32 immediate) a)) false
  increment

unfoldable pub cmpi_op : ℕ → ℕ → ℕ → M (Unit {0})
cmpi_op rs rd immediate = do a ← get_reg rs; update_flags (sub64 a (extend32 immediate)); increment
