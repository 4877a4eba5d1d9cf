-- ===== src/Registers.antt =====
-- sn_registers: registers, their access control, and signed registers.
pub mod Deps
pub mod Model
pub mod Crdt
pub mod Register
pub mod Signed
pub mod Access
pub mod Convergence
pub mod Replay
mod Tests
