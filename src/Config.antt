-- ===== src/Config.antt =====
-- The crate solx-config.
pub mod Allowlist
pub mod Policy
pub mod Registry
pub mod Snapshot
