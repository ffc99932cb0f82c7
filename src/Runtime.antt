-- ===== src/Runtime.antt =====
-- The runtime that compiled programs are linked with.
pub mod Key
pub mod Map
mod Tests
