-- ===== src/Run.antt =====
-- The main loop: VM::tick, the breakpoints and the timer of wvm/src/VM.cpp.
pub mod WellFormed
pub mod Reaches
use why.Base.{ℕ, ◌+◌, ◌-◌, ◌%◌, ◌^◌, Bool, true, false, not, List, [], ◌∷◌, ◌==◌, if◌then◌else◌}
use why.Machine.Types.{Endianness}
use why.Machine.State.{M, pure, gets, modify, ◌>>=◌, ◌>>◌, when}
use why.Machine.Memory.{get_word}
use why.Machine.Paging.{translate_address}
use why.Machine.Control.{halt, int_timer}
use why.Ops.Execute.{execute}

-- addBreakpoint, removeBreakpoint and hasBreakpoint, on the set as a list.
unfoldable pub has_breakpoint : ℕ → List ℕ → Bool
has_breakpoint b [] = false
has_breakpoint b (c ∷ cs) = if c == b then true else has_breakpoint b cs

unfoldable pub without_breakpoint : ℕ → List ℕ → List ℕ
without_breakpoint b [] = []
without_breakpoint b (c ∷ cs) =
    let rest = without_breakpoint b cs in if c == b then rest else c ∷ rest

unfoldable pub add_breakpoint : ℕ → M (Unit {0})
unfolding has_breakpoint
add_breakpoint b = modify λ vm. record vm {
  breakpoints = if has_breakpoint b vm.breakpoints then vm.breakpoints else b ∷ vm.breakpoints;
}

unfoldable pub remove_breakpoint : ℕ → M (Unit {0})
unfolding without_breakpoint
remove_breakpoint b = modify (λ vm. record vm { breakpoints = without_breakpoint b vm.breakpoints })

-- The end of VM::tick: the cycle is counted, and a breakpoint pauses the machine.
unfoldable pub finish_tick : M Bool
unfolding has_breakpoint
finish_tick = do
  modify (λ vm. record vm { cycles = (vm.cycles + 1) % 2 ^ 64 })
  stops ← gets (λ vm. has_breakpoint vm.program_counter vm.breakpoints)
  let pause_here = do modify (λ vm. record vm { paused = true }); pure false
  if stops then pause_here else gets (λ vm. vm.active)

unfoldable pub fetch_and_execute : ℕ → M Bool
unfolding finish_tick
fetch_and_execute translated = do
  instruction ← get_word translated Endianness.big
  execute instruction
  finish_tick

unfoldable pub tick : M Bool
unfolding fetch_and_execute
tick = do
  pc ← gets (λ vm. vm.program_counter)
  (translated, success) ← translate_address pc
  if success then fetch_and_execute translated else (do halt; pure false)

-- One round of the thread that setTimer starts. The answer says whether the thread goes on.
unfoldable pub timer_step : M Bool
timer_step = do
  ticks ← gets (λ vm. vm.timer_ticks)
  live ← gets (λ vm. vm.timer_active)
  let fire = do
    active ← gets (λ vm. vm.active)
    when active (do _ ← int_timer; pure tt)
    modify (λ vm. record vm { timer_active = false })
    pure false
  let wait = do
    modify (λ vm. record vm { timer_ticks = ticks - 1 })
    if ticks == 1 then fire else pure true
  if not live then pure false else if ticks == 0 then pure true else wait
