-- ===== src/Demo.antt =====
-- tools/demo_server.py: the demonstration server over the bridge.
pub mod World
pub mod Pages
pub mod Submit
pub mod Verify
pub mod Server
pub mod Checked
pub mod Sorting
pub mod SortedChecks
pub mod Honest
pub mod Effect
pub mod Processed
pub mod Kept
pub mod FormText
pub mod Invariant
