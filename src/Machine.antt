-- ===== src/Machine.antt =====
-- controllers/cloudsigmamachine_controller.go: the server of a CloudSigmaMachine is created, watched
-- and deleted.
pub mod Types
pub mod Steps
pub mod Normal
pub mod Delete
pub mod Reconcile
pub mod Store
pub mod Quiet
pub mod Watch
pub mod Created
pub mod Unique
pub mod Credentials
pub mod Memory
mod Examples
