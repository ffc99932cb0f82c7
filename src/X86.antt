-- ===== src/X86.antt =====
-- The native x86-64 backend (src/backend/x86_64).
pub mod Instr
pub mod List
pub mod Emit
pub mod EmitSse
pub mod Buffer
pub mod Reloc
pub mod Labels
pub mod Encode
pub mod Peephole
pub mod Optimize
pub mod Built
mod Tests
