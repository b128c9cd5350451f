-- ===== src/Machine/WellFormed/Interrupts.antt =====
-- Interrupts and ring changes keep the invariant.
use why.Base.{ℕ, ◌^◌, ◌≤◌, false, not, ◌||◌, ◌∷◌, All, IsWord, arith, ltb, leb, ◌==◌}
use why.Machine.Types.{Endianness, InterruptType, can_disable, PagingState}
use why.Machine.State.{Vm, modify}
use why.Machine.Control.{
  enter_handler, deliver, enter_interrupt, interrupt, interrupt_number, int_protec, int_timer,
  interrupt_with, int_pfault, int_bwrite, int_keybrd, change_ring, check_ring, check_writable,
}
use why.Machine.WellFormed.Actions.{
  ask-WellFormed, jump-WellFormed, halt-WellFormed, wake_rest-WellFormed, buffer_change-WellFormed,
  register_change_to-WellFormed, extend32-IsWord,
}
use why.Machine.Ensures.{
  Keeps, Ensures-gets, Ensures-if, Keeps-modify, Ensures-pure, Ensures-bind, ensures_rules,
}
use why.Machine.WellFormed.{WellFormed}
use why.Machine.WellFormed.Accessors.{put_reg-WellFormed, get_word-WellFormed}

module _ {lowest size : ℕ} where
  enter_handler-WellFormed :
      (destination : ℕ)
      → IsWord destination
      → Keeps (WellFormed lowest size) (enter_handler destination)
  unfolding enter_handler
  enter_handler-WellFormed destination w =
      Ensures-bind _ _ (Ensures-gets {Q = IsWord} _ (λ vm v. v.pc_fits)) λ pc hp.
        Ensures-bind _ _
          (Ensures-gets {Q = IsWord} _
            (λ vm v. extend32-IsWord vm.ring (omega (arith, v.ring_high))))
          λ ring hr.
            Ensures-bind _ _ (buffer_change-WellFormed _ (register_change_to-WellFormed _ _)) λ _ _.
              Ensures-bind _ _ (buffer_change-WellFormed _ (register_change_to-WellFormed _ _))
                λ _ _. Ensures-bind _ _ (put_reg-WellFormed _ pc hp) λ _ _.
                  Ensures-bind _ _ (put_reg-WellFormed _ ring hr)
                    (λ _ _. jump-WellFormed destination false w)

  deliver-WellFormed : (type : InterruptType) → Keeps (WellFormed lowest size) (deliver type)
  unfolding deliver
  deliver-WellFormed type = Ensures-bind _ _ (ask-WellFormed _) λ table _.
      Ensures-if (table == 0) _ _ (λ _. halt-WellFormed)
        (λ _.
          Ensures-bind _ _ (get_word-WellFormed _ Endianness.little) λ d w.
            Ensures-if (d == 0) _ _ (λ _. halt-WellFormed) (λ _. enter_handler-WellFormed d w))

  enter_interrupt-WellFormed :
      (type : InterruptType) → Keeps (WellFormed lowest size) (modify (enter_interrupt type))
  unfolding enter_interrupt
  enter_interrupt-WellFormed type = Keeps-modify _ entered
    where
      entered :
          (vm : Vm) → WellFormed lowest size vm → WellFormed lowest size (enter_interrupt type vm)
      entered vm v = assumption pushed
        where
          pushed :
              All
                (λ (s : PagingState). IsWord s.p0)
                (record { enabled = vm.paging_on; p0 = vm.p0 } ∷ vm.paging_stack)
          pushed = (v.p0_fits, v.stack_fits)

  pub interrupt-WellFormed :
      (type : InterruptType) → Keeps (WellFormed lowest size) (interrupt type)
  unfolding interrupt
  interrupt-WellFormed type = Ensures-bind _ _ (ask-WellFormed _) λ enabled _.
      Ensures-if (not (can_disable type) || enabled) _ _
        (λ _. Ensures-bind _ _ (enter_interrupt-WellFormed type) λ _ _.
          Ensures-bind _ _ (deliver-WellFormed type)
            λ _ _. Ensures-bind _ _ wake_rest-WellFormed (λ _ _. Ensures-pure _ tt))
        (λ _. Ensures-pure _ tt)

  pub interrupt_number-WellFormed : (n : ℕ) → Keeps (WellFormed lowest size) (interrupt_number n)
  unfolding interrupt_number
  interrupt_number-WellFormed n = search (ensures_rules, interrupt-WellFormed) depth 12

  pub int_protec-WellFormed : Keeps (WellFormed lowest size) int_protec
  unfolding int_protec
  int_protec-WellFormed = interrupt-WellFormed InterruptType.protec

  pub int_timer-WellFormed : Keeps (WellFormed lowest size) int_timer
  unfolding int_timer
  int_timer-WellFormed = interrupt-WellFormed InterruptType.timer

  interrupt_with-WellFormed :
      (type : InterruptType) (cause : ℕ)
      → IsWord cause
      → Keeps (WellFormed lowest size) (interrupt_with type cause)
  unfolding interrupt_with
  interrupt_with-WellFormed type cause w =
      Ensures-bind _ _ (buffer_change-WellFormed _ (register_change_to-WellFormed _ _))
        λ _ _. Ensures-bind _ _ (put_reg-WellFormed _ cause w) (λ _ _. interrupt-WellFormed type)

  pub int_pfault-WellFormed : Keeps (WellFormed lowest size) int_pfault
  unfolding int_pfault
  int_pfault-WellFormed =
      Ensures-bind _ _ (Ensures-gets {Q = IsWord} _ (λ vm v. v.virtual_fits))
        (λ a w. interrupt_with-WellFormed InterruptType.pfault a w)

  pub int_bwrite-WellFormed :
      (address : ℕ) → IsWord address → Keeps (WellFormed lowest size) (int_bwrite address)
  unfolding int_bwrite
  int_bwrite-WellFormed address w = interrupt_with-WellFormed InterruptType.bwrite address w

  pub int_keybrd-WellFormed :
      (key : ℕ) → IsWord key → Keeps (WellFormed lowest size) (int_keybrd key)
  unfolding int_keybrd
  int_keybrd-WellFormed key w = Ensures-bind _ _ (ask-WellFormed _) λ enabled _.
      Ensures-if enabled _ _ (λ _. interrupt_with-WellFormed InterruptType.keybrd key w)
        (λ _. Ensures-pure false tt)

  pub check_ring-WellFormed : (check : ℕ) → Keeps (WellFormed lowest size) (check_ring check)
  unfolding check_ring
  check_ring-WellFormed check = Ensures-bind _ _ (ask-WellFormed _) λ ring _.
      Ensures-if (ltb check ring) _ _
        (λ _. Ensures-bind _ _ int_protec-WellFormed (λ _ _. Ensures-pure _ tt))
        (λ _. Ensures-pure _ tt)

  set_ring-WellFormed :
      (ring : ℕ)
      → lowest ≤ ring
      → ring ≤ 3
      → Keeps (WellFormed lowest size) (modify (λ vm. record vm { ring = ring }))
  set_ring-WellFormed ring low high = Keeps-modify _ (λ vm v. assumption (low, high))

  -- The test of changeRing lets only less privileged rings through.
  pub change_ring-WellFormed : (new : ℕ) → Keeps (WellFormed lowest size) (change_ring new)
  unfolding change_ring
  change_ring-WellFormed new =
      Ensures-bind _ _ (Ensures-gets {Q = λ ring. lowest ≤ ring} _ (λ vm v. v.ring_low)) λ old low.
        Ensures-if (leb (2 ^ 31) new || ltb 3 new || ltb new old) _ _
          (λ _. Ensures-bind _ _ int_protec-WellFormed (λ _ _. Ensures-pure _ tt))
          λ passed. Ensures-bind _ _ (buffer_change-WellFormed _ (Ensures-pure _ tt)) λ _ _.
            Ensures-bind _ _ (set_ring-WellFormed new (ground arith) (ground arith))
              (λ _ _. Ensures-pure _ tt)

  pub check_writable-WellFormed : Keeps (WellFormed lowest size) check_writable
  unfolding check_writable
  check_writable-WellFormed = ask-WellFormed _
