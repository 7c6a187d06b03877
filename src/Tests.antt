-- ===== src/Tests.antt =====
-- Runs at concrete inputs, and each theorem applied at one.
pub mod Fixed
mod Attestation
mod Aggregation
mod Resilience
pub mod Adapter
pub mod Bridge
mod Cli
mod Provider
pub mod Provenance
pub mod Publish
mod Aggregate
mod Demo
mod Submit
