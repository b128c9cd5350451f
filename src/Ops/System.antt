-- ===== src/Ops/System.antt =====
-- The system instructions of wvm/src/Operations.cpp: intOp to restOp and selOp to eiOp, and setTimer.
-- What goes to stderr and the length of a sleep are left out.
pub mod Privileged
pub mod Protected
use why.Base.{ℕ, ◌%◌, ◌^◌, Bool, true, false, List, [], ◌∷◌, if◌then◌else◌, extend32, of_bool}
use why.Machine.Types.{paging_change, p0_change, PagingState}
use why.Machine.State.{M, pure, gets, modify, ◌>>=◌, ◌>>◌, when, get_reg, Printed}
use why.Machine.History.{buffer_change, interrupt_table_change_to}
use why.Machine.Control.{
  set_reg, increment, halt, check_conditions, check_ring, change_ring, rest, interrupt_number,
  int_protec,
}
use why.Ops.Access.{on_translated}
use why.Ops.Jumps.{return_by}

-- `if (vm.checkRing(Ring::Zero)) m; else vm.intProtec();`
-- checkRing has raised the protection interrupt already when it answers false.
unfoldable pub privileged : ℕ → M (Unit {0}) → M (Unit {0})
privileged ring m = do
  permitted ← check_ring ring
  if permitted then m else (do _ ← int_protec; pure tt)

unfoldable pub int_op : ℕ → ℕ → ℕ → M (Unit {0})
int_op rs rd immediate = do _ ← interrupt_number immediate; pure tt

unfoldable pub rit_op : ℕ → ℕ → ℕ → M (Unit {0})
unfolding privileged on_translated
rit_op rs rd immediate = privileged 0 (
    on_translated (extend32 immediate) λ translated. do
      buffer_change (interrupt_table_change_to translated)
      modify (λ vm. record vm { interrupt_table_address = translated })
      increment)

-- VM::setTimer: the thread that it starts makes the steps of `timer_step`.
unfoldable pub set_timer : ℕ → M (Unit {0})
set_timer microseconds =
    modify (λ vm. record vm { timer_ticks = microseconds; timer_active = true })

unfoldable pub time_op : ℕ → ℕ → ℕ → M (Unit {0})
unfolding privileged set_timer
time_op rs rt rd = privileged 0 (do a ← get_reg rs; set_timer a; increment)

unfoldable pub svtime_op : ℕ → ℕ → ℕ → M (Unit {0})
unfolding privileged
svtime_op rs rt rd =
    privileged 0 (do ticks ← gets (λ vm. vm.timer_ticks); set_reg rd ticks true; increment)

unfoldable pub timei_op : ℕ → ℕ → ℕ → M (Unit {0})
unfolding privileged set_timer
timei_op rs rd immediate = privileged 0 (do set_timer (extend32 immediate); increment)

unfoldable pub ring_op : ℕ → ℕ → ℕ → M (Unit {0})
ring_op rs rt rd = do a ← get_reg rs; changed ← change_ring (a % 2 ^ 32); when changed increment

unfoldable pub svring_op : ℕ → ℕ → ℕ → M (Unit {0})
svring_op rs rt rd = do ring ← gets (λ vm. extend32 vm.ring); set_reg rd ring false; increment

unfoldable pub ringi_op : ℕ → ℕ → ℕ → M (Unit {0})
ringi_op rs rd immediate = do changed ← change_ring immediate; when changed increment

unfoldable pub pr_op : ℕ → ℕ → ℕ → M (Unit {0})
pr_op rs rt rd = increment

unfoldable pub halt_op : ℕ → ℕ → ℕ → M (Unit {0})
halt_op rs rt rd = halt

unfoldable pub eval_op : ℕ → ℕ → ℕ → M (Unit {0})
eval_op rs rt rd = increment

-- `vm.onPrint(…)`, newest first.
unfoldable pub print : Printed → M (Unit {0})
print text = modify (λ vm. record vm { printed = text ∷ vm.printed })

unfoldable pub prc_op : ℕ → ℕ → ℕ → M (Unit {0})
unfolding print
prc_op rs rt rd = do a ← get_reg rs; print (Printed.as_char a); increment

unfoldable pub prd_op : ℕ → ℕ → ℕ → M (Unit {0})
unfolding print
prd_op rs rt rd = do a ← get_reg rs; print (Printed.as_decimal a); increment

unfoldable pub prx_op : ℕ → ℕ → ℕ → M (Unit {0})
unfolding print
prx_op rs rt rd = do a ← get_reg rs; print (Printed.as_hex a); increment

unfoldable pub sleep_op : ℕ → ℕ → ℕ → M (Unit {0})
sleep_op rs rt rd = increment

unfoldable pub prb_op : ℕ → ℕ → ℕ → M (Unit {0})
unfolding print
prb_op rs rt rd = do a ← get_reg rs; print (Printed.as_binary a); increment

unfoldable pub rest_op : ℕ → ℕ → ℕ → M (Unit {0})
rest_op rs rt rd = do increment; rest

unfoldable pub sel_op : ℕ → ℕ → ℕ → ℕ → M (Unit {0})
sel_op rs rt rd conditions = do
  first ← check_conditions conditions
  value ← if first then get_reg rs else get_reg rt
  set_reg rd value false
  increment

-- pgoffOp and pgonOp.
unfoldable pub set_paging : Bool → M (Unit {0})
unfolding privileged
set_paging on = privileged 0 do
  old ← gets (λ vm. vm.paging_on)
  buffer_change (pure (paging_change old on))
  modify (λ vm. record vm { paging_on = on })
  increment

unfoldable pub pgoff_op : ℕ → ℕ → ℕ → M (Unit {0})
unfolding set_paging
pgoff_op rs rt rd = set_paging false

unfoldable pub pgon_op : ℕ → ℕ → ℕ → M (Unit {0})
unfolding set_paging
pgon_op rs rt rd = set_paging true

unfoldable pub setpt_op : ℕ → ℕ → ℕ → M (Unit {0})
unfolding privileged return_by
setpt_op rs rt rd = privileged 0 do
  old ← gets (λ vm. vm.p0)
  new ← get_reg rs
  buffer_change (pure (p0_change old new))
  modify (λ vm. record vm { p0 = new })
  return_by rt

unfoldable pub svpg_op : ℕ → ℕ → ℕ → M (Unit {0})
svpg_op rs rt rd = do on ← gets (λ vm. vm.paging_on); set_reg rd (of_bool on) false; increment

unfoldable pub ppush_op : ℕ → ℕ → ℕ → M (Unit {0})
unfolding privileged
ppush_op rs rt rd = privileged 0 do
  modify (λ vm. record vm {
    paging_stack = record { enabled = vm.paging_on; p0 = vm.p0 } ∷ vm.paging_stack;
  })
  increment

-- The part of ppopOp that takes the back of the stack.
unfoldable pub pop_paging : List PagingState → M (Unit {0})
pop_paging [] = pure tt
pop_paging (back ∷ rest) = do
  on ← gets (λ vm. vm.paging_on)
  root ← gets (λ vm. vm.p0)
  buffer_change (pure (paging_change on back.enabled))
  buffer_change (pure (p0_change root back.p0))
  modify (λ vm. record vm { paging_on = back.enabled; p0 = back.p0; paging_stack = rest })

unfoldable pub ppop_op : ℕ → ℕ → ℕ → M (Unit {0})
unfolding privileged pop_paging return_by
ppop_op rs rt rd =
    privileged 0 do stack ← gets (λ vm. vm.paging_stack); pop_paging stack; return_by rs

unfoldable pub qm_op : ℕ → ℕ → ℕ → M (Unit {0})
qm_op rs rt rd = do size ← gets (λ vm. vm.memory_size); set_reg rd size false; increment

unfoldable pub set_hardware_interrupts : Bool → M (Unit {0})
unfolding privileged
set_hardware_interrupts enabled =
    privileged 0 do modify (λ vm. record vm { hardware_interrupts_enabled = enabled }); increment

unfoldable pub di_op : ℕ → ℕ → ℕ → M (Unit {0})
unfolding set_hardware_interrupts
di_op rs rt rd = set_hardware_interrupts false

unfoldable pub ei_op : ℕ → ℕ → ℕ → M (Unit {0})
unfolding set_hardware_interrupts
ei_op rs rt rd = set_hardware_interrupts true
