-- ===== src/Console.antt =====
-- The crate solx-console.
pub mod Table
pub mod Invocations
pub mod Store
