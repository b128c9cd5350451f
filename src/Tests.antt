-- ===== src/Tests.antt =====
-- A small machine, and the theorems applied to it.
mod Memory
mod History
mod Runs
mod Division
mod System
mod Translation
mod Decode
mod Objects
mod Text
mod Sections
mod Expressions
mod Parse
use why.Base.{ℕ, ◌+◌, ◌^◌, ◌<◌, ◌≡◌, refl, true, false, [], arith}
use why.Machine.State.{Vm, Reply}
use why.Machine.WellFormed.{WellFormed}
use why.Machine.Memory.Access.{IsSized, HoldsBytes}

abbrev pub no_reply : Reply
no_reply = record { result = 0; errno = 0; bytes = [] }

-- 64 bytes of memory, every byte 7 and every register 3, and the history on.
abbrev pub machine : Vm
machine = record {
  memory_size = 64;
  allocated = 64;
  memory = λ i. 7;
  registers = λ r. 3;
  program_counter = 8;
  ring = 0;
  interrupt_table_address = 0;
  p0 = 0;
  paging_on = false;
  paging_stack = [];
  last_meta = record {
    present = false;
    writable = false;
    executable = false;
    user = false;
    accessed = false;
    modified = false;
  };
  last_virtual = 0;
  hardware_interrupts_enabled = true;
  active = true;
  paused = false;
  resting = false;
  cycles = 0;
  breakpoints = [];
  timer_ticks = 0;
  timer_active = false;
  strict = true;
  enable_history = true;
  undo_stack = [];
  undo_pointer = 0;
  change_buffer = [];
  drives = [];
  printed = [];
  host = λ n. no_reply;
  host_calls = [];
}

pub machine-IsSized : IsSized machine
machine-IsSized = record { allocated = refl; size_fits = omega arith }

pub machine-HoldsBytes : HoldsBytes machine
machine-HoldsBytes i = omega arith

pub machine_with-WellFormed :
    (f : ℕ → ℕ) → ((i : ℕ) → f i < 2 ^ 8) → WellFormed 0 64 (record machine { memory = f })
machine_with-WellFormed f h = record {
  allocated = refl;
  memory_size = refl;
  size_fits = omega arith;
  bytes = h;
  words = λ r. omega arith;
  pc_fits = omega arith;
  table_fits = omega arith;
  p0_fits = omega arith;
  virtual_fits = omega arith;
  timer_fits = omega arith;
  stack_fits = tt;
  ring_low = omega arith;
  ring_high = omega arith;
  pointer_fits = omega arith;
  drives_fit = omega arith;
  names_fit = tt;
  host_fits = λ n. record { result_fits = omega arith; errno_fits = omega arith; bytes_fit = tt };
}
