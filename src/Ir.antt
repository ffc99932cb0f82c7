-- ===== src/Ir.antt =====
-- The intermediate representation: src/ir.
pub mod Types
pub mod Instr
pub mod Reads
pub mod Check
pub mod Verify
pub mod Cfg
pub mod Dce
pub mod Samples
mod Tests
