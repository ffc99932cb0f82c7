-- ===== src/Regalloc.antt =====
-- Register allocation: src/backend/x86_64/x86_64_regalloc.c.
pub mod Registers
pub mod Names
pub mod Scan
pub mod Active
pub mod Distinct
pub mod Invariant
pub mod Safety
pub mod Codes
pub mod Bound
pub mod Result
pub mod Liveness
pub mod Intervals
pub mod Samples
mod Tests
mod RunTests
