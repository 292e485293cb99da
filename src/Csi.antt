-- ===== src/Csi.antt =====
-- The controller side of the CSI driver: csi/driver/controller.go, driver.go and tags.go.
pub mod Types
pub mod Tagging
pub mod Channel
pub mod Memory
mod Examples
pub mod Volume
pub mod Attach
