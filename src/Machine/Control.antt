-- ===== src/Machine/Control.antt =====
-- Flags, conditions, jumps, rings and interrupts: wvm/src/VM.cpp and wvm/src/Interrupts.cpp.
-- The callbacks (onJump, onRegisterChange, …), the log on stderr and `jumpStack`, which serves that
-- log, are left out; of wakeRest, so is the handshake with the playing thread.
pub mod Conditions
use why.Base.{
  ℕ, ◌+◌, ◌-◌, ◌*◌, ◌^◌, Bool, true, false, not, ◌&&◌, ◌||◌, ◌∷◌, ltb, leb, ◌==◌, if◌then◌else◌,
  bit_and, bit_or, add64, extend32, is_negative, of_bool,
}
use why.Machine.Types.{
  Endianness, InterruptType, interrupt_code, can_disable, ring_change, halt_change, bit_at,
}
use why.Machine.Reg
use why.Machine.State.{Vm, Exn, M, pure, throw, gets, modify, ◌>>=◌, ◌>>◌, when, get_reg, put_reg}
use why.Machine.Memory.{get_word}
use why.Machine.History.{stop, buffer_change, record_change, register_change_to, jump_change_to}

-- setZ and setN on the value of the status register; the flags C and O are never set.
unfoldable pub set_z : Bool → ℕ → ℕ
set_z on st = bit_or (bit_and st (2 ^ 64 - 2)) (of_bool on)

unfoldable pub set_n : Bool → ℕ → ℕ
set_n on st = bit_or (bit_and st (2 ^ 64 - 3)) (of_bool on * 2)

-- The value that VM::updateFlags leaves in the status register.
unfoldable pub flags_of : ℕ → ℕ
unfolding set_z set_n
flags_of result =
    if result == 0 then set_z true 0 else if is_negative result then set_n true 0 else 0

unfoldable pub update_flags : ℕ → M (Unit {0})
unfolding flags_of
update_flags result = put_reg Reg.status (flags_of result)

-- VM::checkConditions; the conditions are the four bits of the instruction.
unfoldable pub check_conditions : ℕ → M Bool
check_conditions conditions = do
  st ← get_reg Reg.status
  if conditions == 8
      then pure (not (bit_at 1 st) && not (bit_at 0 st))
      else if conditions == 9
      then pure (bit_at 1 st)
      else if conditions == 10
      then pure (bit_at 0 st)
      else if conditions == 11
      then pure (not (bit_at 0 st))
      else if conditions == 0
      then pure true
      else throw Exn.invalid_conditions

-- setReg of Operations.cpp.
unfoldable pub set_reg : ℕ → ℕ → Bool → M (Unit {0})
unfolding update_flags
set_reg rd value flags = do
  buffer_change (register_change_to rd value)
  put_reg rd value
  when flags (update_flags value)

-- VM::link, with `record` false and true.
unfoldable pub link : Bool → M (Unit {0})
link recorded = do
  pc ← gets (λ vm. vm.program_counter)
  when recorded (record_change (register_change_to Reg.return_address (add64 pc 8)))
  put_reg Reg.return_address (add64 pc 8)

unfoldable pub jump : ℕ → Bool → M (Unit {0})
unfolding link
jump address should_link = do
  when should_link (link false)
  record_change (jump_change_to address should_link)
  modify (λ vm. record vm { program_counter = address })

unfoldable pub increment : M (Unit {0})
increment = do
  pc ← gets (λ vm. vm.program_counter)
  record_change (jump_change_to (add64 pc 8) false)
  modify (λ vm. record vm { program_counter = add64 pc 8 })

unfoldable pub wake_rest : M (Unit {0})
wake_rest = modify (λ vm. record vm { resting = false })

unfoldable pub rest : M (Unit {0})
rest = modify (λ vm. record vm { resting = true })

-- `vm.recordChange<HaltChange>(); vm.stop();`
unfoldable pub halt : M (Unit {0})
halt = do record_change (pure halt_change); stop

-- The last part of Interrupt::operator(), with the handler's address known.
unfoldable pub enter_handler : ℕ → M (Unit {0})
unfolding jump
enter_handler destination = do
  pc ← gets (λ vm. vm.program_counter)
  ring ← gets (λ vm. extend32 vm.ring)
  buffer_change (register_change_to Reg.exception pc)
  buffer_change (register_change_to (Reg.exception + 1) ring)
  put_reg Reg.exception pc
  put_reg (Reg.exception + 1) ring
  jump destination false

-- Interrupt::operator(): with no table, or no handler, the machine halts.
unfoldable pub deliver : InterruptType → M (Unit {0})
unfolding halt enter_handler
deliver type = do
  table ← gets (λ vm. vm.interrupt_table_address)
  let with_table = do
    destination ← get_word (add64 table (interrupt_code type * 8)) Endianness.little
    if destination == 0 then halt else enter_handler destination
  if table == 0 then halt else with_table

-- What VM::interrupt does to the state before it delivers.
unfoldable pub enter_interrupt : InterruptType → Vm → Vm
enter_interrupt type vm = record vm {
  hardware_interrupts_enabled = vm.hardware_interrupts_enabled && not (can_disable type);
  paging_stack = record { enabled = vm.paging_on; p0 = vm.p0 } ∷ vm.paging_stack;
  paging_on = false;
}

-- VM::interrupt; `force` is not read. The back of `pagingStack` is the head of the list.
unfoldable pub interrupt : InterruptType → M Bool
unfolding enter_interrupt deliver wake_rest
interrupt type = do
  enabled ← gets (λ vm. vm.hardware_interrupts_enabled)
  let taken = do modify (enter_interrupt type); deliver type; wake_rest; pure true
  if not (can_disable type) || enabled then taken else pure false

-- VM::interrupt(int, bool): the number is a 32-bit pattern.
unfoldable pub interrupt_number : ℕ → M Bool
unfolding interrupt
interrupt_number n =
    if n == 1
    then interrupt InterruptType.system
    else if n == 2
    then interrupt InterruptType.timer
    else if n == 3
    then interrupt InterruptType.protec
    else if n == 4
    then interrupt InterruptType.pfault
    else if n == 5
    then interrupt InterruptType.inexec
    else if n == 6
    then interrupt InterruptType.bwrite
    else if n == 7
    then interrupt InterruptType.keybrd
    else throw Exn.invalid_interrupt

unfoldable pub int_protec : M Bool
unfolding interrupt
int_protec = interrupt InterruptType.protec

unfoldable pub int_timer : M Bool
unfolding interrupt
int_timer = interrupt InterruptType.timer

-- intPfault, intBwrite and the second half of intKeybrd: the cause goes to $e2.
unfoldable pub interrupt_with : InterruptType → ℕ → M Bool
unfolding interrupt
interrupt_with type cause = do
  buffer_change (register_change_to (Reg.exception + 2) cause)
  put_reg (Reg.exception + 2) cause
  interrupt type

unfoldable pub int_pfault : M Bool
unfolding interrupt_with
int_pfault = do address ← gets (λ vm. vm.last_virtual); interrupt_with InterruptType.pfault address

unfoldable pub int_bwrite : ℕ → M Bool
unfolding interrupt_with
int_bwrite address = interrupt_with InterruptType.bwrite address

unfoldable pub int_keybrd : ℕ → M Bool
unfolding interrupt_with
int_keybrd key = do
  enabled ← gets (λ vm. vm.hardware_interrupts_enabled)
  if enabled then interrupt_with InterruptType.keybrd key else pure false

-- VM::changeRing. A `Ring` is the 32-bit pattern of its int, so the negative ones are 2 ^ 31 and up.
unfoldable pub change_ring : ℕ → M Bool
unfolding int_protec
change_ring new = do
  old ← gets (λ vm. vm.ring)
  let refuse = do _ ← int_protec; pure false
  let accept = do
    buffer_change (pure (ring_change old new))
    modify (λ vm. record vm { ring = new })
    pure true
  if leb (2 ^ 31) new || ltb 3 new || ltb new old then refuse else accept

-- VM::checkRing, at the rings Zero to Three (`Ring::Invalid` is never passed).
unfoldable pub check_ring : ℕ → M Bool
unfolding int_protec
check_ring check = do
  ring ← gets (λ vm. vm.ring)
  let refuse = do _ ← int_protec; pure false
  if ltb check ring then refuse else pure true

-- VM::checkWritable.
unfoldable pub check_writable : M Bool
check_writable = gets (λ vm. not vm.paging_on || vm.last_meta.writable)
