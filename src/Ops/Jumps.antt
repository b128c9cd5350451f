-- ===== src/Ops/Jumps.antt =====
-- The jumps of wvm/src/Operations.cpp: jOp to jrlcOp. The flag `from_rt` of VM::jump serves the log.
use why.Base.{ℕ, Bool, true, false, ◌==◌, if◌then◌else◌, extend32}
use why.Machine.Reg
use why.Machine.State.{M, pure, modify, ◌>>=◌, ◌>>◌, when, get_reg}
use why.Machine.Control.{increment, jump, check_conditions, check_ring, wake_rest}

unfoldable pub j_op : ℕ → Bool → ℕ → ℕ → M (Unit {0})
j_op rs link conditions address = do
  taken ← check_conditions conditions
  if taken then jump (extend32 address) link else increment

unfoldable pub jc_op : ℕ → Bool → ℕ → ℕ → M (Unit {0})
jc_op rs link conditions address = do
  a ← get_reg rs
  if a == 0 then increment else jump (extend32 address) link

-- A jump by $e0 in ring zero turns the hardware interrupts on again; `wake` is done with it.
-- In another ring checkRing has raised a protection interrupt, and the code goes on.
unfoldable pub reenable : ℕ → M (Unit {0}) → M (Unit {0})
reenable reg wake = when (reg == Reg.exception) do
  permitted ← check_ring 0
  when permitted do modify (λ vm. record vm { hardware_interrupts_enabled = true }); wake

-- `vm.jump(rd)`: the register is read when the jump is made.
unfoldable pub jump_to_reg : ℕ → Bool → M (Unit {0})
jump_to_reg rd link = do address ← get_reg rd; jump address link

unfoldable pub jr_op : ℕ → ℕ → ℕ → ℕ → M (Unit {0})
unfolding reenable jump_to_reg
jr_op rs rt rd conditions = do
  taken ← check_conditions conditions
  if taken then (do reenable rd wake_rest; jump_to_reg rd false) else increment

unfoldable pub jrc_op : ℕ → ℕ → ℕ → M (Unit {0})
unfolding reenable jump_to_reg
jrc_op rs rt rd = do
  a ← get_reg rs
  if a == 0 then increment else (do reenable rd (pure tt); jump_to_reg rd false)

unfoldable pub jrl_op : ℕ → ℕ → ℕ → ℕ → M (Unit {0})
unfolding jump_to_reg
jrl_op rs rt rd conditions = do
  taken ← check_conditions conditions
  if taken then jump_to_reg rd true else increment

-- A jump by a register that is zero, or else to the register's value.
unfoldable pub return_by : ℕ → M (Unit {0})
unfolding reenable jump_to_reg
return_by reg = do
  address ← get_reg reg
  if address == 0 then increment else (do reenable reg wake_rest; jump_to_reg reg false)
