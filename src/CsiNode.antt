-- ===== src/CsiNode.antt =====
-- csi/driver/node.go: volumes are formatted, mounted and unmounted on a node.
pub mod Types
pub mod Devices
pub mod Volumes
pub mod Content
pub mod Boot
mod Examples
