-- ===== src/Cloud.antt =====
-- pkg/cloud: the client through which the controllers use CloudSigma.
pub mod Types
pub mod Drives
pub mod Network
pub mod Custom
pub mod Connect
pub mod Servers
pub mod Memory
mod Examples
