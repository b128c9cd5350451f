-- ===== src/Run/Reaches.antt =====
-- Runs of the machine: rounds of the main loop, rounds of the timer's thread and key presses, in any
-- order.
use why.Base.{ℕ, ◌≡◌, IsWord}
use why.Machine.State.{Vm, Exn, M, Outcome, ok, throws}
use why.Machine.Control.{int_keybrd}
use why.Machine.Ensures.{Keeps}
use why.Machine.WellFormed.{WellFormed}
use why.Machine.WellFormed.Interrupts.{int_keybrd-WellFormed}
use why.Run.{tick, timer_step}
use why.Run.WellFormed.{tick-WellFormed, timer_step-WellFormed}

-- The action ends in the machine, by a return or by an exception.
pub data Ends {A : Type 0} (o : Outcome A) (after : Vm) : Type 0 where
  returns : (a : A) → o ≡ ok a after → Ends o after
  raises : (e : Exn) → o ≡ throws e after → Ends o after

-- VM::tick from the playing thread, a round of the thread of VM::setTimer, or VM::intKeybrd from the
-- front end.
pub data Step (before after : Vm) : Type 0 where
  ticked : Ends (tick before) after → Step before after
  timer_ran : Ends (timer_step before) after → Step before after
  key_pressed : (key : ℕ) → IsWord key → Ends (int_keybrd key before) after → Step before after

pub data Reaches (start : Vm) : Vm → Type 0 where
  here : Reaches start start
  then : {middle end : Vm} → Reaches start middle → Step middle end → Reaches start end

ends_in :
    {A : Type 0} {P : Vm → Type 0} {m : M A} (before after : Vm)
    → Keeps P m
    → P before
    → Ends (m before) after
    → P after
ends_in {P = P} before after k p (returns a e) = (rw e at (k.at before p)).0
ends_in {P = P} before after k p (raises x e) = rw e at (k.at before p)

module _ (lowest size : ℕ) where
  Step-WellFormed :
      (before after : Vm)
      → Step before after
      → WellFormed lowest size before
      → WellFormed lowest size after
  Step-WellFormed before after (ticked e) v = ends_in before after tick-WellFormed v e
  Step-WellFormed before after (timer_ran e) v = ends_in before after timer_step-WellFormed v e
  Step-WellFormed before after (key_pressed key w e) v =
      ends_in before after (int_keybrd-WellFormed key w) v e

  -- Every machine that a run reaches from a well-formed machine, by ticks, timer rounds and key presses
  -- in any order, is well-formed: its memory has the same size and holds bytes; its registers, program
  -- counter, page table roots, interrupt table, timer and last address are words; its undo pointer is
  -- within the history; its drives and the host's answers fit; and its ring is at most 3 and not below
  -- the lowest ring allowed at the start. The last is against ISA.md, by which most interrupts switch
  -- to kernel mode: the code leaves the new ring of an interrupt out, so that no run lowers the ring.
  pub Reaches-WellFormed :
      (start end : Vm)
      → Reaches start end
      → WellFormed lowest size start
      → WellFormed lowest size end
  Reaches-WellFormed start _ here v = v
  Reaches-WellFormed start end (then {middle = middle} r s) v =
      Step-WellFormed middle end s (Reaches-WellFormed start middle r v)
