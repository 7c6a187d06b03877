-- ===== src/VerifyTool.antt =====
-- tools/verify_provenance.py: the checks of a record, the loaders and the command `verify`.
pub mod Checks
pub mod Command
pub mod Encoding
pub mod Facts
pub mod Steps
pub mod Verdict
pub mod Attested
pub mod Published
pub mod Sorting
pub mod SortedVerdict
pub mod Show
