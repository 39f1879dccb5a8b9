-- ===== src/Request.antt =====
-- internal/controller/composabilityrequest_controller.go
pub mod Allocation
pub mod Priority
pub mod Placement
pub mod Effects
pub mod Handlers
pub mod Reconcile
pub mod Surplus
pub mod Counting
pub mod Totality
pub mod Sizes
pub mod Choice
pub mod Policy
pub mod Writes
pub mod Upkeep
pub mod Following
