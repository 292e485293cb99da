-- ===== src/LoadBalancer.antt =====
-- The LoadBalancer controller of the cloud controller manager:
-- ccm/controllers/loadbalancer_controller.go.
pub mod Types
pub mod Pool
pub mod IpTags
pub mod Nodes
pub mod Reconcile
pub mod Sync
mod Memory
mod Examples
