-- ===== src/Bridge.antt =====
-- oracle_bridge/bridge.py and oracle_bridge/ipfs.py: pinning, submission, the two pipelines, commitment
-- and reveal.
pub mod Ipfs
pub mod Submit
pub mod Process
pub mod Aggregated
pub mod Processed
pub mod AggregateOutcome
pub mod Conforming
pub mod Commit
pub mod Pinning
pub mod Submission
pub mod Opening
