-- ===== src/Ops.antt =====
-- The instructions of the virtual machine, wvm/src/Operations.cpp, by the sections of that file.
pub mod Alu
pub mod Math
pub mod Logic
pub mod Compare
pub mod Immediate
pub mod Jumps
pub mod Access
pub mod WellFormed
pub mod Loads
pub mod System
pub mod Io
pub mod Decode
pub mod Execute
