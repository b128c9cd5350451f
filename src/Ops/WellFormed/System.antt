-- ===== src/Ops/WellFormed/System.antt =====
-- The system instructions keep the invariant.
use why.Base.{true, ℕ, ◌^◌, ◌<◌, IsWord, arith, Bool, List, extend32, [], ◌∷◌, All}
use why.Machine.Types.{PagingState}
use why.Machine.State.{Printed, Vm, gets, modify}
use why.Machine.Ensures.{Ensures, Keeps, Ensures-gets, Ensures-bind, Keeps-modify}
use why.Machine.WellFormed.{WellFormed}
use why.Machine.WellFormed.Actions.{
  ask-WellFormed, set_reg-WellFormed, increment-WellFormed, buffer_change-WellFormed,
  interrupt_table_change_to-WellFormed, rest-WellFormed, extend32-IsWord,
}
use why.Machine.WellFormed.Interrupts.{change_ring-WellFormed, interrupt_number-WellFormed}
use why.Ops.WellFormed.Values.{Ensures-word, Ensures-then, Keeps-pure}
use why.Ops.WellFormed.Access.{
  Ensures-any, access_rules, privileged-WellFormed, return_by-WellFormed,
}
use why.Ops.System.{
  int_op, rit_op, set_timer, time_op, svtime_op, timei_op, ring_op, svring_op, ringi_op, pr_op,
  halt_op, eval_op, print, prc_op, prd_op, prx_op, sleep_op, prb_op, rest_op, sel_op, set_paging,
  pgoff_op, pgon_op, setpt_op, svpg_op, ppush_op, pop_paging, ppop_op, qm_op,
  set_hardware_interrupts, di_op, ei_op,
}

module _ {lowest size : ℕ} where
  set_table-WellFormed :
      (a : ℕ)
      → IsWord a
      → Keeps (WellFormed lowest size) (modify (λ vm. record vm { interrupt_table_address = a }))
  set_table-WellFormed a w = Keeps-modify _ (λ vm v. assumption w)

  set_timer-WellFormed : (a : ℕ) → IsWord a → Keeps (WellFormed lowest size) (set_timer a)
  unfolding set_timer
  set_timer-WellFormed a w = Keeps-modify _ (λ vm v. assumption w)

  print-WellFormed : (text : Printed) → Keeps (WellFormed lowest size) (print text)
  unfolding print
  print-WellFormed text = Keeps-modify _ (λ vm v. assumption)

  set_p0-WellFormed :
      (a : ℕ) → IsWord a → Keeps (WellFormed lowest size) (modify (λ vm. record vm { p0 = a }))
  set_p0-WellFormed a w = Keeps-modify _ (λ vm v. assumption w)

  turn_paging-WellFormed :
      (on : Bool) → Keeps (WellFormed lowest size) (modify (λ vm. record vm { paging_on = on }))
  turn_paging-WellFormed on = Keeps-modify _ (λ vm v. assumption)

  turn_interrupts-WellFormed :
      (on : Bool)
      → Keeps
          (WellFormed lowest size)
          (modify (λ vm. record vm { hardware_interrupts_enabled = on }))
  turn_interrupts-WellFormed on = Keeps-modify _ (λ vm v. assumption)

  push_paging-WellFormed : Keeps (WellFormed lowest size) (
      modify (λ vm. record vm {
        paging_stack = record { enabled = vm.paging_on; p0 = vm.p0 } ∷ vm.paging_stack;
      }))
  push_paging-WellFormed = Keeps-modify _ λ vm v. pushed vm v
    where
      pushed :
          (vm : Vm)
          → WellFormed lowest size vm
          → WellFormed lowest size (record vm {
            paging_stack = record { enabled = vm.paging_on; p0 = vm.p0 } ∷ vm.paging_stack;
          })
      pushed vm v = assumption both
        where
          both :
              All
                (λ (s : PagingState). IsWord s.p0)
                (record { enabled = vm.paging_on; p0 = vm.p0 } ∷ vm.paging_stack)
          both = (v.p0_fits, v.stack_fits)

  pop_paging-WellFormed :
      (stack : List PagingState)
      → All (λ s. IsWord s.p0) stack
      → Keeps (WellFormed lowest size) (pop_paging stack)
  unfolding pop_paging
  pop_paging-WellFormed [] w = Keeps-pure tt
  pop_paging-WellFormed (back ∷ rest) w = Ensures-any _ _ (ask-WellFormed _) λ on.
      Ensures-any _ _ (ask-WellFormed _) λ root.
        Ensures-then _ _ (buffer_change-WellFormed _ (Keeps-pure _))
          (Ensures-then _ _ (buffer_change-WellFormed _ (Keeps-pure _)) popped)
    where
      popped :
          Keeps (WellFormed lowest size) (
            modify
              (λ vm. record vm { paging_on = back.enabled; p0 = back.p0; paging_stack = rest }))
      popped = Keeps-modify _ (λ vm v. assumption w)

  ring-IsWord : Ensures (WellFormed lowest size) IsWord (gets (λ vm. extend32 vm.ring))
  ring-IsWord = Ensures-gets _ (λ vm v. extend32-IsWord vm.ring (omega (arith, v.ring_high)))

  ticks-IsWord : Ensures (WellFormed lowest size) IsWord (gets (λ vm. vm.timer_ticks))
  ticks-IsWord = Ensures-gets _ (λ vm v. v.timer_fits)

  size-IsWord : Ensures (WellFormed lowest size) IsWord (gets (λ vm. vm.memory_size))
  size-IsWord = Ensures-gets _ (λ vm v. omega (arith, v.memory_size, v.size_fits))

  set_paging-WellFormed : (on : Bool) → Keeps (WellFormed lowest size) (set_paging on)
  unfolding set_paging
  set_paging-WellFormed on = search (turn_paging-WellFormed, access_rules) depth 14

  set_hardware_interrupts-WellFormed :
      (on : Bool) → Keeps (WellFormed lowest size) (set_hardware_interrupts on)
  unfolding set_hardware_interrupts
  set_hardware_interrupts-WellFormed on = search (turn_interrupts-WellFormed, access_rules) depth 14

  pub int_op-WellFormed :
      (rs rd immediate : ℕ)
      → immediate < 2 ^ 32
      → Keeps (WellFormed lowest size) (int_op rs rd immediate)
  unfolding int_op
  int_op-WellFormed rs rd immediate fits =
      search (interrupt_number-WellFormed, access_rules) depth 14

  pub rit_op-WellFormed :
      (rs rd immediate : ℕ)
      → immediate < 2 ^ 32
      → Keeps (WellFormed lowest size) (rit_op rs rd immediate)
  unfolding rit_op
  rit_op-WellFormed rs rd immediate fits =
      search (set_table-WellFormed, interrupt_table_change_to-WellFormed, access_rules) depth 14

  pub time_op-WellFormed : (rs rt rd : ℕ) → Keeps (WellFormed lowest size) (time_op rs rt rd)
  unfolding time_op
  time_op-WellFormed rs rt rd = search (set_timer-WellFormed, access_rules) depth 14

  pub svtime_op-WellFormed : (rs rt rd : ℕ) → Keeps (WellFormed lowest size) (svtime_op rs rt rd)
  unfolding svtime_op
  svtime_op-WellFormed rs rt rd = privileged-WellFormed 0 _ (
      Ensures-word _ _ ticks-IsWord
        λ t w. Ensures-then _ _ (set_reg-WellFormed rd t true w) increment-WellFormed)

  pub timei_op-WellFormed :
      (rs rd immediate : ℕ)
      → immediate < 2 ^ 32
      → Keeps (WellFormed lowest size) (timei_op rs rd immediate)
  unfolding timei_op
  timei_op-WellFormed rs rd immediate fits = search (set_timer-WellFormed, access_rules) depth 14

  pub ring_op-WellFormed : (rs rt rd : ℕ) → Keeps (WellFormed lowest size) (ring_op rs rt rd)
  unfolding ring_op
  ring_op-WellFormed rs rt rd = search (change_ring-WellFormed, access_rules) depth 14

  pub svring_op-WellFormed : (rs rt rd : ℕ) → Keeps (WellFormed lowest size) (svring_op rs rt rd)
  unfolding svring_op
  svring_op-WellFormed rs rt rd = search (ring-IsWord, access_rules) depth 14

  pub ringi_op-WellFormed :
      (rs rd immediate : ℕ)
      → immediate < 2 ^ 32
      → Keeps (WellFormed lowest size) (ringi_op rs rd immediate)
  unfolding ringi_op
  ringi_op-WellFormed rs rd immediate fits = search (change_ring-WellFormed, access_rules) depth 14

  pub pr_op-WellFormed : (rs rt rd : ℕ) → Keeps (WellFormed lowest size) (pr_op rs rt rd)
  unfolding pr_op
  pr_op-WellFormed rs rt rd = search access_rules depth 14

  pub halt_op-WellFormed : (rs rt rd : ℕ) → Keeps (WellFormed lowest size) (halt_op rs rt rd)
  unfolding halt_op
  halt_op-WellFormed rs rt rd = search access_rules depth 14

  pub eval_op-WellFormed : (rs rt rd : ℕ) → Keeps (WellFormed lowest size) (eval_op rs rt rd)
  unfolding eval_op
  eval_op-WellFormed rs rt rd = search access_rules depth 14

  pub prc_op-WellFormed : (rs rt rd : ℕ) → Keeps (WellFormed lowest size) (prc_op rs rt rd)
  unfolding prc_op
  prc_op-WellFormed rs rt rd = search (print-WellFormed, access_rules) depth 14

  pub prd_op-WellFormed : (rs rt rd : ℕ) → Keeps (WellFormed lowest size) (prd_op rs rt rd)
  unfolding prd_op
  prd_op-WellFormed rs rt rd = search (print-WellFormed, access_rules) depth 14

  pub prx_op-WellFormed : (rs rt rd : ℕ) → Keeps (WellFormed lowest size) (prx_op rs rt rd)
  unfolding prx_op
  prx_op-WellFormed rs rt rd = search (print-WellFormed, access_rules) depth 14

  pub sleep_op-WellFormed : (rs rt rd : ℕ) → Keeps (WellFormed lowest size) (sleep_op rs rt rd)
  unfolding sleep_op
  sleep_op-WellFormed rs rt rd = search access_rules depth 14

  pub prb_op-WellFormed : (rs rt rd : ℕ) → Keeps (WellFormed lowest size) (prb_op rs rt rd)
  unfolding prb_op
  prb_op-WellFormed rs rt rd = search (print-WellFormed, access_rules) depth 14

  pub rest_op-WellFormed : (rs rt rd : ℕ) → Keeps (WellFormed lowest size) (rest_op rs rt rd)
  unfolding rest_op
  rest_op-WellFormed rs rt rd = search (rest-WellFormed, access_rules) depth 14

  pub sel_op-WellFormed :
      (rs rt rd conditions : ℕ) → Keeps (WellFormed lowest size) (sel_op rs rt rd conditions)
  unfolding sel_op
  sel_op-WellFormed rs rt rd conditions = search access_rules depth 14

  pub pgoff_op-WellFormed : (rs rt rd : ℕ) → Keeps (WellFormed lowest size) (pgoff_op rs rt rd)
  unfolding pgoff_op
  pgoff_op-WellFormed rs rt rd = search (set_paging-WellFormed, access_rules) depth 14

  pub pgon_op-WellFormed : (rs rt rd : ℕ) → Keeps (WellFormed lowest size) (pgon_op rs rt rd)
  unfolding pgon_op
  pgon_op-WellFormed rs rt rd = search (set_paging-WellFormed, access_rules) depth 14

  pub setpt_op-WellFormed : (rs rt rd : ℕ) → Keeps (WellFormed lowest size) (setpt_op rs rt rd)
  unfolding setpt_op
  setpt_op-WellFormed rs rt rd = search (set_p0-WellFormed, access_rules) depth 14

  pub svpg_op-WellFormed : (rs rt rd : ℕ) → Keeps (WellFormed lowest size) (svpg_op rs rt rd)
  unfolding svpg_op
  svpg_op-WellFormed rs rt rd = search access_rules depth 14

  pub ppush_op-WellFormed : (rs rt rd : ℕ) → Keeps (WellFormed lowest size) (ppush_op rs rt rd)
  unfolding ppush_op
  ppush_op-WellFormed rs rt rd = search (push_paging-WellFormed, access_rules) depth 14

  pub ppop_op-WellFormed : (rs rt rd : ℕ) → Keeps (WellFormed lowest size) (ppop_op rs rt rd)
  unfolding ppop_op
  ppop_op-WellFormed rs rt rd = privileged-WellFormed 0 _ (
      Ensures-bind _ _
        (Ensures-gets {Q = All (λ (s : PagingState). IsWord s.p0)} _ (λ vm v. v.stack_fits))
        λ stack w. Ensures-then _ _ (pop_paging-WellFormed stack w) (return_by-WellFormed rs))

  pub qm_op-WellFormed : (rs rt rd : ℕ) → Keeps (WellFormed lowest size) (qm_op rs rt rd)
  unfolding qm_op
  qm_op-WellFormed rs rt rd = search (size-IsWord, access_rules) depth 14

  pub di_op-WellFormed : (rs rt rd : ℕ) → Keeps (WellFormed lowest size) (di_op rs rt rd)
  unfolding di_op
  di_op-WellFormed rs rt rd = search (set_hardware_interrupts-WellFormed, access_rules) depth 14

  pub ei_op-WellFormed : (rs rt rd : ℕ) → Keeps (WellFormed lowest size) (ei_op rs rt rd)
  unfolding ei_op
  ei_op-WellFormed rs rt rd = search (set_hardware_interrupts-WellFormed, access_rules) depth 14
