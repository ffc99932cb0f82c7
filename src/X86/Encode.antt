-- ===== src/X86/Encode.antt =====
-- The instruction encoder (src/backend/x86_64/x86_64_encode.c): emission steps, operands,
-- instructions, whole functions, and the theorems about them.
pub mod Out
pub mod Operand
pub mod Instr
pub mod Sse
pub mod Single
pub mod Function
pub mod Counts
pub mod Balance
pub mod Measure
pub mod Lengths
pub mod Passes
pub mod Resolve
pub mod Jumps
pub mod Landing
pub mod Fields
