-- ===== src/Ops/System/Protected.antt =====
-- What the protection interrupt leaves alone, of wvm/src/VM.cpp and wvm/src/Interrupts.cpp.
use why.Base.{
  ℕ, zero, suc, ◌+◌, ◌≡◌, refl, ◌∙◌, Bool, true, false, ◌&&◌, ◌==◌, if◌then◌else◌, List, [], ◌∷◌,
  ◌++◌, ltb, Bool-cases, inl, inr,
}
use why.Machine.Types.{Endianness, Change, InterruptType, can_disable}
use why.Machine.State.{Vm, M, pure, fault, gets, modify, put_reg}
use why.Machine.Memory.{read_byte, read_bytes, check_bounds, load, get_word}
use why.Machine.History.{
  stop, commit, finish_change, buffer_change, record_change, register_change_to, jump_change_to,
}
use why.Machine.Control.{
  jump, halt, wake_rest, enter_handler, enter_interrupt, deliver, interrupt, int_protec,
}
use why.Machine.Ensures.{
  Keeps, Any, Ensures-gets, Ensures-if, Keeps-modify, Ensures-pure, Ensures-bind, ensures_rules,
}

-- What privileged instructions protect is the same in both machines: the ring, the root of the page
-- tables, the interrupt table, the timer, the switch of the hardware interrupts, the memory and the drives.
pub record Protected (start vm : Vm) : Type 0 where
  pub ring : vm.ring ≡ start.ring
  pub p0 : vm.p0 ≡ start.p0
  pub table : vm.interrupt_table_address ≡ start.interrupt_table_address
  pub ticks : vm.timer_ticks ≡ start.timer_ticks
  pub timer : vm.timer_active ≡ start.timer_active
  pub enabled : vm.hardware_interrupts_enabled ≡ start.hardware_interrupts_enabled
  pub memory : vm.memory ≡ start.memory
  pub drives : vm.drives ≡ start.drives

pub Protected-refl : (vm : Vm) → Protected vm vm
Protected-refl vm = record {
  ring = refl;
  p0 = refl;
  table = refl;
  ticks = refl;
  timer = refl;
  enabled = refl;
  memory = refl;
  drives = refl;
}

and_true : (b : Bool) → (b && true) ≡ b
and_true true = refl
and_true false = refl

module _ {start : Vm} where
  ask-Protected : {A : Type 0} (f : Vm → A) → Keeps (Protected start) (gets f)
  ask-Protected f = Ensures-gets f (λ vm h. tt)

  put_reg-Protected : (r v : ℕ) → Keeps (Protected start) (put_reg r v)
  unfolding put_reg
  put_reg-Protected r v = Keeps-modify _ (λ vm h. assumption)

  commit-Protected :
      (cs : List Change) (vm : Vm) → Protected start vm → Protected start (commit cs vm)
  unfolding commit
  commit-Protected [] vm h = h
  commit-Protected (c ∷ cs) vm h = assumption

  finished :
      (b : Bool) (f vm : Vm)
      → Protected start f
      → Protected start vm
      → Protected start (if b then f else vm)
  finished true f vm u v = u
  finished false f vm u v = v

  finish_change-Protected : Keeps (Protected start) finish_change
  unfolding finish_change
  finish_change-Protected =
      Keeps-modify _
        λ vm h. finished vm.enable_history _ vm (commit-Protected vm.change_buffer vm h) h

  buffer-Protected :
      (c : Change)
      → Keeps
          (Protected start)
          (modify (λ vm. record vm { change_buffer = vm.change_buffer ++ c ∷ [] }))
  buffer-Protected c = Keeps-modify _ (λ vm h. assumption)

  buffer_change-Protected : (f : Vm → Change) → Keeps (Protected start) (buffer_change (gets f))
  unfolding buffer_change
  buffer_change-Protected f = Ensures-bind _ _ (ask-Protected _) λ enabled _.
      Ensures-if enabled _ _ (λ _. Ensures-bind _ _ (ask-Protected f) (λ c _. buffer-Protected c))
        (λ _. Ensures-pure tt tt)

  record_change-Protected :
      (make : M Change)
      → Keeps (Protected start) make
      → Keeps (Protected start) (record_change make)
  unfolding record_change
  record_change-Protected make k = Ensures-bind _ _ (ask-Protected _) λ enabled _.
      Ensures-if enabled _ _
        (λ _.
          Ensures-bind _ _ k
            (λ c _. Ensures-bind _ _ (buffer-Protected c) (λ _ _. finish_change-Protected)))
        (λ _. Ensures-pure tt tt)

  halt-Protected : Keeps (Protected start) halt
  unfolding halt stop
  halt-Protected =
      Ensures-bind _ _ (record_change-Protected _ (Ensures-pure _ tt))
        (λ _ _. Keeps-modify _ (λ vm h. assumption))

  jump-Protected : (address : ℕ) → Keeps (Protected start) (jump address false)
  unfolding jump jump_change_to
  jump-Protected address = Ensures-bind {Q = Any} _ _ (Ensures-pure tt tt) λ _ _.
      Ensures-bind _ _ (record_change-Protected _ (ask-Protected _))
        (λ _ _. Keeps-modify _ (λ vm h. assumption))

  read_byte-Protected : (i : ℕ) → Keeps (Protected start) (read_byte i)
  unfolding read_byte pure fault
  read_byte-Protected i = record {
    at = λ vm h. elim (Bool-cases (ltb i vm.allocated)) [ inl e ↦ rw e (h, tt) | inr e ↦ rw e tt ];
  }

  read_bytes-Protected : (n i : ℕ) → Keeps (Protected start) (read_bytes n i)
  unfolding read_bytes
  read_bytes-Protected zero i = Ensures-pure [] tt
  read_bytes-Protected (suc n) i =
      Ensures-bind _ _ (read_byte-Protected i)
        λ b _. Ensures-bind _ _ (read_bytes-Protected n (i + 1)) (λ bs _. Ensures-pure (b ∷ bs) tt)

  get_word-Protected : (address : ℕ) (e : Endianness) → Keeps (Protected start) (get_word address e)
  unfolding get_word load check_bounds
  get_word-Protected address e =
      Ensures-bind {Q = Any} _ _ (Ensures-bind _ _ (ask-Protected _) (λ b _. search ensures_rules))
        λ _ _. Ensures-bind _ _ (read_bytes-Protected 8 address) (λ bs _. Ensures-pure _ tt)

  enter_handler-Protected : (destination : ℕ) → Keeps (Protected start) (enter_handler destination)
  unfolding enter_handler register_change_to
  enter_handler-Protected destination = Ensures-bind _ _ (ask-Protected _) λ pc _.
      Ensures-bind _ _ (ask-Protected _) λ ring _.
        Ensures-bind _ _ (buffer_change-Protected _) λ _ _.
          Ensures-bind _ _ (buffer_change-Protected _) λ _ _.
            Ensures-bind _ _ (put_reg-Protected _ pc)
              λ _ _. Ensures-bind _ _ (put_reg-Protected _ ring) (λ _ _. jump-Protected destination)

  deliver-Protected : (type : InterruptType) → Keeps (Protected start) (deliver type)
  unfolding deliver
  deliver-Protected type = Ensures-bind _ _ (ask-Protected _) λ table _.
      Ensures-if (table == 0) _ _ (λ _. halt-Protected)
        (λ _.
          Ensures-bind _ _ (get_word-Protected _ Endianness.little)
            λ d _. Ensures-if (d == 0) _ _ (λ _. halt-Protected) (λ _. enter_handler-Protected d))

  entered :
      (vm : Vm) → Protected start vm → Protected start (enter_interrupt InterruptType.protec vm)
  unfolding enter_interrupt can_disable
  entered vm h = record {
    ring = h.ring;
    p0 = h.p0;
    table = h.table;
    ticks = h.ticks;
    timer = h.timer;
    enabled = and_true vm.hardware_interrupts_enabled ∙ h.enabled;
    memory = h.memory;
    drives = h.drives;
  }

  pub int_protec-Protected : Keeps (Protected start) int_protec
  unfolding int_protec interrupt wake_rest can_disable
  int_protec-Protected = Ensures-bind _ _ (ask-Protected _) λ enabled _.
      Ensures-bind _ _ (Keeps-modify _ entered) λ _ _.
        Ensures-bind _ _ (deliver-Protected InterruptType.protec)
          λ _ _. Ensures-bind _ _ (Keeps-modify _ (λ vm h. assumption)) (λ _ _. Ensures-pure _ tt)
