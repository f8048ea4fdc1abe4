-- ===== src/Actions/Internal.antt =====
-- solx-actions/src/internal: the built-in actions.
pub mod Entity
mod Tests
