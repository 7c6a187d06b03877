-- ===== src/Attestation.antt =====
-- oracle_bridge/attestation.py: the 113-byte payload, the feed identifier and the signed envelope.
-- Bytes are numbers below 256. `struct` packs big-endian, and `>B32s32sqq32s` has no padding.
pub mod BigEndian
pub mod Payload
pub mod Wire
pub mod Feed
pub mod Hex
pub mod Signer
pub mod Signing
