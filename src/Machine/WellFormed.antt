-- ===== src/Machine/WellFormed.antt =====
-- The invariant of a machine: the values that instructions read fit their types, the ring is one, and the
-- position in the undo history is one. Nothing is said of the cycles or of what the history records.
pub mod Accessors
pub mod Actions
pub mod Interrupts
use why.Base.{ℕ, ◌^◌, ◌≤◌, ◌<◌, ◌≡◌, All, length, IsWord}
use why.Machine.Types.{PagingState}
use why.Machine.State.{Vm, Drive, Reply}

-- A system call answers with a word, an errno that is an int, and bytes.
pub record IsReply (r : Reply) : Type 0 where
  pub result_fits : IsWord r.result
  pub errno_fits : r.errno < 2 ^ 31
  pub bytes_fit : All (λ b. b < 2 ^ 8) r.bytes

-- The ring is not below `lowest`; so this is an invariant only of what gives up privileges, or keeps
-- them. `size` is the size of the memory, which no instruction changes.
pub record WellFormed (lowest size : ℕ) (vm : Vm) : Type 0 where
  pub allocated : vm.allocated ≡ size
  pub memory_size : vm.memory_size ≡ size
  pub size_fits : size < 2 ^ 62
  pub bytes : (i : ℕ) → vm.memory i < 2 ^ 8
  pub words : (r : ℕ) → IsWord (vm.registers r)
  pub pc_fits : IsWord vm.program_counter
  pub table_fits : IsWord vm.interrupt_table_address
  pub p0_fits : IsWord vm.p0
  pub virtual_fits : IsWord vm.last_virtual
  pub timer_fits : IsWord vm.timer_ticks
  pub stack_fits : All (λ (s : PagingState). IsWord s.p0) vm.paging_stack
  pub ring_low : lowest ≤ vm.ring
  pub ring_high : vm.ring ≤ 3
  pub pointer_fits : vm.undo_pointer ≤ length vm.undo_stack
  pub drives_fit : IsWord (length vm.drives)
  pub names_fit : All (λ (d : Drive). All (λ b. b < 2 ^ 8) d.name) vm.drives
  pub host_fits : (n : ℕ) → IsReply (vm.host n)
