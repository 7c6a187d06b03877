-- ===== src/Provenance.antt =====
-- oracle_bridge/provenance.py: the provenance record, its dict, its validation and its checks.
pub mod Record
pub mod Shape
pub mod Validate
pub mod Verify
pub mod Loading
pub mod Acceptance
pub mod Consistency
pub mod Sorting
pub mod Schema
pub mod Canonical
