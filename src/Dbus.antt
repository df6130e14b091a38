-- ===== src/Dbus.antt =====
-- internal/dbus: the service that clients of the daemon talk to.
pub mod Properties
pub mod Service
pub mod Helpers
pub mod Methods
pub mod Tasks
pub mod Replies
pub mod Announced
pub mod Coherent
pub mod Stable
pub mod Steps
pub mod Examples
