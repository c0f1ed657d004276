-- ===== src/Tests.antt =====
-- Runs at concrete inputs: the theorems applied there, and what the code returns.
pub mod Data
mod Reference
mod Packing
mod Engine
mod Gate
mod Backends
mod Harness
mod Models
mod Reports
mod Metrics
