-- ===== src/Ops/WellFormed.antt =====
-- Every instruction keeps the invariant of the machine.
pub mod Values
pub mod Math
pub mod Logic
pub mod Compare
pub mod Immediate
pub mod Access
pub mod Jumps
pub mod Transfers
pub mod Loads
pub mod System
pub mod HostLoops
pub mod Io
pub mod Dispatch
