-- ===== src/Actions.antt =====
-- The crate solx-actions.
pub mod Mask
pub mod Net
pub mod Rows
pub mod Store
pub mod Internal
pub mod Detached
pub mod Effects
pub mod Exec
pub mod Auth
pub mod Webhook
pub mod Dispatch
