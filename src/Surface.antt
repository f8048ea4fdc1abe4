-- ===== src/Surface.antt =====
-- The foundation crate, solx-surface.
pub mod Error
pub mod Path
pub mod Query
