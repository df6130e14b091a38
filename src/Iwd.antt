-- ===== src/Iwd.antt =====
-- internal/iwd: the client of the wireless daemon iwd, and the agent that iwd asks for passwords.
pub mod Agent
pub mod Bus
pub mod Client
pub mod Networks
pub mod Station
pub mod Known
pub mod Scan
pub mod Connect
pub mod Control
pub mod Config
pub mod Steps
pub mod Stable
