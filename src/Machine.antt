-- ===== src/Machine.antt =====
-- The virtual machine of wvm/: its state, memory, page tables, interrupts, undo history and main loop.
pub mod Types
pub mod Reg
pub mod State
pub mod Memory
pub mod Paging
pub mod History
pub mod Control
pub mod Ensures
pub mod WellFormed
