-- ===== src/Netlink.antt =====
-- internal/netlink/watcher.go: the kernel's link and address events, and the USB tethering state
-- that follows from them.
pub mod Kernel
pub mod Link
pub mod Address
pub mod Sockets
pub mod Fetch
pub mod Watch
pub mod UsbState
pub mod Stable
pub mod Steps
pub mod Kept
pub mod Coherent
pub mod Tethering
pub mod Weather
pub mod Examples
