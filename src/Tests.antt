-- ===== src/Tests.antt =====
-- The theorems at concrete inputs.
mod Fixtures
mod Resources
mod Sunfish
mod Syncing
mod Starts
mod Drains
mod Requests
mod Removals
mod Nodes
mod Clients
mod Admission
mod Attachments
mod Gpus
