-- ===== src/Ops/System/Privileged.antt =====
-- The rings: the instructions of wvm/src/Operations.cpp that need one, in a ring above it.
use why.Base.{ℕ, ◌<◌, ◌≡◌, refl, Bool, false, Option, none, some, if◌then◌else◌, lt→ltb}
use why.Machine.State.{Vm, M, Outcome, ok, throws, undefined, pure, gets, bind_outcome, ◌>>=◌}
use why.Machine.Control.{check_ring, int_protec}
use why.Machine.Ensures.{Keeps, Any, Post, Ensures-pure, Ensures-bind}
use why.Ops.Decode.{swap_endian, decode_opcode, decode_r}
use why.Ops.System.{
  privileged, rit_op, time_op, svtime_op, timei_op, set_paging, pgoff_op, pgon_op, setpt_op,
  ppush_op, ppop_op, set_hardware_interrupts, di_op, ei_op,
}
use why.Ops.Io.{io_op}
use why.Ops.Execute.{
  switch, contains, r_set, i_set, i_cases, r_time, r_page, r_interrupts, r_ext, execute_r_type,
  execute_i_type, execute_decoded, execute,
}
use why.Ops.System.Protected.{Protected, Protected-refl, int_protec-Protected}

-- The instructions whose code calls checkRing before anything else.
pub data PrivilegedOp : Type 0 where
  rit timei time svtime pgoff pgon setpt ppush ppop di ei io : PrivilegedOp

-- Their opcodes and function codes; an I-type instruction has no function code.
abbrev pub opcode_of : PrivilegedOp → ℕ
opcode_of rit = 33
opcode_of timei = 49
opcode_of time = 48
opcode_of svtime = 48
opcode_of pgoff = 61
opcode_of pgon = 61
opcode_of setpt = 61
opcode_of ppush = 61
opcode_of ppop = 61
opcode_of di = 66
opcode_of ei = 66
opcode_of io = 31

abbrev pub funct_of : PrivilegedOp → Option ℕ
funct_of rit = none
funct_of timei = none
funct_of time = some 0
funct_of svtime = some 1
funct_of pgoff = some 0
funct_of pgon = some 1
funct_of setpt = some 2
funct_of ppush = some 4
funct_of ppop = some 5
funct_of di = some 0
funct_of ei = some 1
funct_of io = some 10

-- The highest ring that may execute it.
abbrev pub ring_of : PrivilegedOp → ℕ
ring_of io = 2
ring_of _ = 0

abbrev HasFunct : Option ℕ → ℕ → Type 0
HasFunct none instruction = Unit
HasFunct (some f) instruction = (decode_r instruction).funct ≡ f

-- The instruction that a word in memory, in big-endian order, encodes.
abbrev pub Encodes : PrivilegedOp → ℕ → Type 0
Encodes p word =
    (decode_opcode (swap_endian word) ≡ opcode_of p) × HasFunct (funct_of p) (swap_endian word)

-- The protection interrupt that checkRing raises, and the one of the else branch.
abbrev pub refused : M (Unit {0})
refused = do _ ← int_protec; _ ← int_protec; pure tt

after_refusal :
    (o : Outcome Bool) (m : M (Unit {0}))
    → bind_outcome
        (bind_outcome o (λ _. pure false))
        (λ permitted. if permitted then m else (int_protec >>= λ _. pure tt))
      ≡ bind_outcome o (λ _. int_protec >>= λ _. pure tt)
unfolding bind_outcome pure
after_refusal (ok b vm) m = refl
after_refusal (throws e vm) m = refl
after_refusal undefined m = refl

privileged-refused :
    (ring : ℕ) (m : M (Unit {0})) (vm : Vm) → ring < vm.ring → privileged ring m vm ≡ refused vm
unfolding privileged check_ring ◌>>=◌ bind_outcome gets
privileged-refused ring m vm above =
    rw (lt→ltb ring vm.ring above) (after_refusal (int_protec vm) m)

refused-Protected : {start : Vm} → Keeps (Protected start) refused
refused-Protected =
    Ensures-bind _ _ int_protec-Protected
      (λ _ _. Ensures-bind _ _ int_protec-Protected (λ _ _. Ensures-pure _ tt))

execute-refused :
    (p : PrivilegedOp) (word : ℕ) (vm : Vm)
    → Encodes p word
    → ring_of p < vm.ring
    → execute word vm ≡ refused vm
unfolding execute execute_decoded r_set i_set contains execute_r_type execute_i_type i_cases r_time
    r_page r_interrupts r_ext switch rit_op time_op svtime_op timei_op set_paging pgoff_op pgon_op
    setpt_op ppush_op ppop_op set_hardware_interrupts di_op ei_op io_op
execute-refused rit word vm (o, f) above = rw o (privileged-refused 0 _ vm above)
execute-refused timei word vm (o, f) above = rw o (privileged-refused 0 _ vm above)
execute-refused time word vm (o, f) above = rw (o, f) (privileged-refused 0 _ vm above)
execute-refused svtime word vm (o, f) above = rw (o, f) (privileged-refused 0 _ vm above)
execute-refused pgoff word vm (o, f) above = rw (o, f) (privileged-refused 0 _ vm above)
execute-refused pgon word vm (o, f) above = rw (o, f) (privileged-refused 0 _ vm above)
execute-refused setpt word vm (o, f) above = rw (o, f) (privileged-refused 0 _ vm above)
execute-refused ppush word vm (o, f) above = rw (o, f) (privileged-refused 0 _ vm above)
execute-refused ppop word vm (o, f) above = rw (o, f) (privileged-refused 0 _ vm above)
execute-refused di word vm (o, f) above = rw (o, f) (privileged-refused 0 _ vm above)
execute-refused ei word vm (o, f) above = rw (o, f) (privileged-refused 0 _ vm above)
execute-refused io word vm (o, f) above = rw (o, f) (privileged-refused 2 _ vm above)

-- In a ring above the one that it needs, the word of a privileged instruction (rit, time, svtime,
-- timei, pgoff, pgon, setpt, ppush, ppop, di and ei above ring 0, io above ring 2) executes as the
-- protection interrupt, raised twice: the ring, the root of the page tables, the interrupt table, the
-- timer, the switch of the hardware interrupts, the memory and the drives are after it, by a return or
-- by an exception, what they were. ISA.md says of rit that the machine halts instead.
pub execute-privileged :
    (p : PrivilegedOp) (word : ℕ) (vm : Vm)
    → Encodes p word
    → ring_of p < vm.ring
    → (execute word vm ≡ refused vm) × Post (Protected vm) Any (execute word vm)
execute-privileged p word vm encoded above =
    let same = execute-refused p word vm encoded above in
    (same, rw same (refused-Protected.at vm (Protected-refl vm)))
