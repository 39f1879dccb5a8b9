-- ===== src/Resource.antt =====
-- internal/controller/composableresource_controller.go
pub mod Effects
pub mod Handlers
pub mod Detaching
pub mod Adapter
pub mod Reconcile
pub mod Policy
pub mod Devices
pub mod Draining
pub mod Provider
pub mod Writes
pub mod Errors
pub mod Progress
