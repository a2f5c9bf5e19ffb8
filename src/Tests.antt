-- ===== src/Tests.antt =====
-- Tests: the theorems at concrete inputs.
pub mod Data
pub mod Derive
pub mod Cache
pub mod Structures
pub mod Packets
pub mod Verification
pub mod Dns
pub mod Descriptor
pub mod Asn1
pub mod Blob
pub mod Secret
pub mod Protect
pub mod Network
